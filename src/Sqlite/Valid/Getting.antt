-- ===== src/Sqlite/Valid/Getting.antt =====
-- `getattr_intra` of fuse_sqlite3/ on the path of a real file that the program has met.
use tag_filesystem.Base.Store.{◌>>=◌, Returns, Returns-bind}
use tag_filesystem.Base.{
  ◌^◌, ◌<◌, ◌≡◌, refl, sym, ap, true, false, not, some, List, ◌∷◌, Bytes, arith, pos, neg, ltb,
  if◌then◌else◌, length,
}
use tag_filesystem.Cutil.HashTable.{
  Ptr, Uthash, ht_get_entry, ht_entries, ht_entry_count, count-entries,
}
use tag_filesystem.Fuse.Os.{Os, Stat, done}
use tag_filesystem.Fuse.Util.{enoent}
use tag_filesystem.Fuse.Valid.Unlinking.{Distinct}
use tag_filesystem.Sqlite.Database.{Sqlite}
use tag_filesystem.Sqlite.File.{file_get_or_create}
use tag_filesystem.Sqlite.Links.{TagFile}
use tag_filesystem.Sqlite.State.{UserPath, Fs}
use tag_filesystem.Sqlite.TagFs.Attr.{file_matches_tags, getattr_dir, getattr_file, getattr_intra}
use tag_filesystem.Sqlite.Valid.Linking.{load_file-run, file_id-known}
use tag_filesystem.Sqlite.Valid.Matching.{
  Selects, Selects-length, has_all, Asked, db_file_match_tags_lem,
}
use tag_filesystem.Sqlite.Valid.{IsValid}

module _ ⦃U : Uthash⦄ ⦃O : Os⦄ ⦃Q : Sqlite⦄ where
  pub file_get_or_create-known :
      (s : Fs) (n : Bytes) (q : Ptr)
      → ht_get_entry s.files n ≡ some q
      → file_get_or_create n s ≡ some (q, s)
  unfolding file_get_or_create
  file_get_or_create-known s n q e = rw (e, ◌>>=◌) refl

  -- the branch of a real file that is no directory
  pub getattr_intra-file :
      (s : Fs) (path : UserPath) (st : Stat)
      → O.stat s.world path.realpath ≡ done st
      → st.is_dir ≡ false
      → getattr_intra path s ≡ getattr_file path st s
  unfolding getattr_intra
  getattr_intra-file s path st real plain =
      rw (real, ◌>>=◌)
        (ap (λ b. (if b then getattr_dir path (some st) else getattr_file path st) s) plain)

  module _ ⦃T : TagFile⦄ where
    -- `file_matches_tags`, for a known file
    pub file_matches_tags_lem :
        (s : Fs) (n : Bytes) (q : Ptr) (path : UserPath) (vs : List Bytes)
        → IsValid s
        → ht_get_entry s.files n ≡ some q
        → Distinct vs
        → Selects s vs (ht_entries path.selected_tags)
        → length vs < 2 ^ 32
        → Returns
            (file_matches_tags q path.selected_tags s)
            (λ b s'. (b ≡ has_all s n vs) × Asked s s')
    unfolding file_matches_tags
    file_matches_tags_lem s n q path vs valid en apart sel few =
        let (f, ef, _, below) = valid.names.file_ok n q en in
        rw (load_file-run s q f ef, ◌>>=◌)
          (db_file_match_tags_lem s n f.id vs path.selected_tags valid (file_id-known s n q f en ef)
            (omega (arith, valid.names.files_bound)) apart sel few)

    -- `getattr_intra`, for a known file and at least one tag
    pub getattr_known_lem :
        (s : Fs) (path : UserPath) (st : Stat) (q : Ptr) (v : Bytes) (vs : List Bytes)
        → IsValid s
        → O.stat s.world path.realpath ≡ done st
        → st.is_dir ≡ false
        → ht_get_entry s.files path.filename ≡ some q
        → Distinct (v ∷ vs)
        → Selects s (v ∷ vs) (ht_entries path.selected_tags)
        → length (v ∷ vs) < 2 ^ 32
        → Returns (getattr_intra path s) (λ r s'.
          (r ≡ (if has_all s path.filename (v ∷ vs) then pos 0 else neg enoent, some st))
          × Asked s s')
    unfolding getattr_file
    getattr_known_lem s path st q v vs valid real plain en apart sel few =
        let some_tag : ltb 0 (ht_entry_count path.selected_tags) ≡ true =
          rw
            (
              count-entries path.selected_tags,
              sym (Selects-length s (v ∷ vs) (ht_entries path.selected_tags) sel),
            )
            (ground arith) in
        rw
          (
            getattr_intra-file s path st real plain,
            ◌>>=◌,
            file_get_or_create-known s path.filename q en,
            some_tag,
          )
          (Returns-bind (file_matches_tags q path.selected_tags) _ s
            (file_matches_tags_lem s path.filename q path (v ∷ vs) valid en apart sel few)
            λ b s' (e, k).
              ((if not b then neg enoent else pos 0, some st), s', refl, (rw e (ground arith), k)))
