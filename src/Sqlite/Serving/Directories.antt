-- ===== src/Sqlite/Serving/Directories.antt =====
-- The listing of a directory of fuse_sqlite3/, on any valid store.
use tag_filesystem.Base.{
  ℕ, zero, suc, ◌+◌, ◌≤◌, ◌^◌, ◌≡◌, refl, true, not, ◌||◌, some, List, [], ◌∷◌, ◌++◌, codes, arith,
  is_negative, ltb, if◌then◌else◌, length, inl, inr,
}
use tag_filesystem.Cutil.HashTable.{Ptr, Uthash, HashTable}
use tag_filesystem.Fuse.Os.{Os, Dirent}
use tag_filesystem.Sqlite.Database.{Sqlite, is_failure, is_row}
use tag_filesystem.Sqlite.Links.{TagFile}
use tag_filesystem.Sqlite.Listing.{
  Names, list_tag_rows, db_list_all_tags, db_list_remaining_tags, remaining_tags_query,
}
use tag_filesystem.Sqlite.Query.{build_remaining_tags_query}
use tag_filesystem.Sqlite.Serving.Descriptors.{load_fd-any}
use tag_filesystem.Sqlite.Serving.Paths.{getattr_intra-any}
use tag_filesystem.Sqlite.Serving.Steps.{
  Safe, Safe-bind, Safe-if, Safe-mono, Goes, Goes-refl, Goes-db, Goes-le, Goes-trans,
}
use tag_filesystem.Sqlite.State.{UserPath, Fs, load_fd}
use tag_filesystem.Sqlite.TagFs.Attr.{getattr_intra}
use tag_filesystem.Sqlite.TagFs.Dir.{list_files, readdir_list_files, tag_readdir}
use tag_filesystem.Sqlite.UserPath.{path_set}
use tag_filesystem.Sqlite.Valid.Linking.{with_db}
use tag_filesystem.Sqlite.Valid.Matching.{asked}
use tag_filesystem.Sqlite.Valid.{IsValid}

module _ ⦃U : Uthash⦄ ⦃O : Os⦄ ⦃Q : Sqlite⦄ ⦃T : TagFile⦄ where
  list_tag_rows-any :
      (fuel : ℕ) (s : Fs) (stmt : Q.Stmt) (buf : Names)
      → IsValid s
      → T.readonly stmt ≡ true
      → Safe (list_tag_rows fuel stmt buf s) (λ _ s'. Goes 0 s s')
  unfolding list_tag_rows
  list_tag_rows-any zero s stmt buf valid reads = inl refl
  list_tag_rows-any (suc fuel) s stmt buf valid reads =
      let ret = Q.step s.db stmt in
      let (reads', same) = T.step_readonly s.db stmt reads in
      let g : Goes 0 s (with_db s ret.1.1) = Goes-db refl (asked s ret.1.1 valid same).valid in
      Safe-if (is_failure ret.0 || not (is_row ret.0)) _ _ (with_db s ret.1.1) (inr (_, _, refl, g))
        (Safe-mono
          (list_tag_rows-any fuel (with_db s ret.1.1) ret.1.0
            (buf ++ (Q.column_text ret.1.0 0 ∷ [])) g.valid reads')
          λ _ s' h. Goes-trans 0 0 g h)

  db_list_all_tags-any :
      (fuel : ℕ) (s : Fs) (buf : Names)
      → IsValid s
      → Safe (db_list_all_tags fuel buf s) (λ _ s'. Goes 0 s s')
  unfolding db_list_all_tags
  db_list_all_tags-any fuel s buf valid =
      Safe-bind (list_tag_rows fuel (Q.prepare s.db (codes "SELECT t_name FROM tag")) buf) _ s
        (list_tag_rows-any fuel s _ buf valid (T.select_readonly s.db (codes "t_name FROM tag")))
        λ _ s' g. inr (_, _, refl, g)

  remaining_tags-readonly :
      (s : Fs) (selected : HashTable)
      → T.readonly (Q.prepare s.db (remaining_tags_query selected)) ≡ true
  unfolding remaining_tags_query build_remaining_tags_query
  remaining_tags-readonly s selected = T.select_readonly s.db _

  db_list_remaining_tags-any :
      (fuel : ℕ) (s : Fs) (selected : HashTable) (buf : Names)
      → IsValid s
      → Safe (db_list_remaining_tags fuel selected buf s) (λ _ s'. Goes 0 s s')
  unfolding db_list_remaining_tags
  db_list_remaining_tags-any fuel s selected buf valid =
      Safe-bind (list_tag_rows fuel (Q.prepare s.db (remaining_tags_query selected)) buf) _ s
        (list_tag_rows-any fuel s _ buf valid (remaining_tags-readonly s selected))
        λ _ s' g. inr (_, _, refl, g)

  list_files-any :
      (dirpath : UserPath) (ds : List Dirent) (buf : Names) (s : Fs)
      → IsValid s
      → s.next_file + length ds ≤ 2 ^ 31
      → Safe (list_files dirpath ds buf s) (λ _ s'. Goes (length ds) s s')
  unfolding list_files
  list_files-any dirpath [] buf s valid room = inr (_, _, refl, Goes-refl s valid)
  list_files-any dirpath (d ∷ ds) buf s valid room =
      let path = path_set dirpath.virtpath d.d_name dirpath.selected_tags in
      Safe-if d.is_dir _ _ s
        (Safe-mono (list_files-any dirpath ds buf s valid (omega arith))
          λ _ s' g. Goes-le (length ds) (suc (length ds)) (omega arith) g)
        (Safe-bind (getattr_intra path) _ s (getattr_intra-any s path valid (omega arith)) λ r s1 g.
          Safe-mono
            (list_files-any dirpath ds
              (if is_negative r.0 then buf else buf ++ (some d.d_name ∷ [])) s1 g.valid
              (omega (arith, g.few.1)))
            λ _ s' h.
              Goes-le (1 + length ds) (suc (length ds)) (omega arith)
                (Goes-trans 1 (length ds) g h))

  readdir_list_files-any :
      (dirpath : UserPath) (buf : Names) (most : ℕ) (s : Fs)
      → IsValid s
      → ((w : O.World) → length (O.readdir w) ≤ most)
      → s.next_file + most ≤ 2 ^ 31
      → Safe (readdir_list_files dirpath buf s) (λ _ s'. Goes most s s')
  unfolding readdir_list_files
  readdir_list_files-any dirpath buf most s valid bound room =
      let ds = O.readdir s.world in
      Safe-mono (list_files-any dirpath ds buf s valid (omega (arith, bound s.world)))
        λ _ s' g. Goes-le (length ds) most (bound s.world) g

  pub tag_readdir-any :
      (s : Fs) (fuel : ℕ) (fh : Ptr) (buf : Names) (most : ℕ)
      → IsValid s
      → ((w : O.World) → length (O.readdir w) ≤ most)
      → s.next_file + most ≤ 2 ^ 31
      → Safe (tag_readdir fuel fh buf s) (λ _ s'. Goes most s s')
  unfolding tag_readdir
  tag_readdir-any s fuel fh buf most valid bound room =
      Safe-bind (load_fd fh) _ s (load_fd-any s fh) λ d s0 same. rw same (
        let dots = buf ++ (some (codes ".") ∷ some (codes "..") ∷ []) in
        Safe-bind
          (if ltb 0 d.path.depth
            then db_list_remaining_tags fuel d.path.selected_tags dots
            else db_list_all_tags fuel dots)
          _ s
          (Safe-if (ltb 0 d.path.depth) _ _ s
            (db_list_remaining_tags-any fuel s d.path.selected_tags dots valid)
            (db_list_all_tags-any fuel s dots valid))
          λ r s1 g.
            Safe-bind (readdir_list_files d.path r.1) _ s1
              (readdir_list_files-any d.path r.1 most s1 g.valid bound (omega (arith, g.few.1)))
              λ names s2 h.
                inr (_, _, refl, Goes-le (0 + most) most (omega arith) (Goes-trans 0 most g h)))
