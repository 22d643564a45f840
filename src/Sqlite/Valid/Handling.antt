-- ===== src/Sqlite/Valid/Handling.antt =====
-- `tag_getattr` of fuse_sqlite3/, from the path of the user to the answer, on a real file: where the
-- directory names tags, and where it names something else.
use tag_filesystem.Base.Store.{◌>>=◌, Returns, Returns-bind}
use tag_filesystem.Base.{
  ◌^◌, ◌<◌, ◌≡◌, ◌∙◌, refl, ap, Bool, true, false, not, ◌&&◌, none, some, List, [], ◌∷◌, Bytes,
  arith, pos, neg, ltb, str_eq, if◌then◌else◌, is_some, length, Option-cases, inl, inr,
}
use tag_filesystem.Cutil.HashTable.{
  Ptr, Uthash, HashTable, ht_get_entry, ht_entries, ht_entry_count, count-entries,
}
use tag_filesystem.Cutil.Libc.{slash}
use tag_filesystem.Cutil.String2.Split.{words}
use tag_filesystem.Fuse.Os.{Os, Stat, done}
use tag_filesystem.Fuse.Util.{enoent, basenamedup, dirnamedup, path_realpath}
use tag_filesystem.Fuse.Valid.Unlinking.{Distinct}
use tag_filesystem.Sqlite.Database.{Sqlite}
use tag_filesystem.Sqlite.File.{file_get_or_create}
use tag_filesystem.Sqlite.Links.{TagFile}
use tag_filesystem.Sqlite.State.{UserPath, Fs, load_tag}
use tag_filesystem.Sqlite.Statements.{append_ids, tag_id_list_string, db_file_match_tags}
use tag_filesystem.Sqlite.TagFs.Attr.{file_matches_tags, getattr_file, tag_getattr}
use tag_filesystem.Sqlite.Valid.Creation.{Registers, file_get_or_create_lem}
use tag_filesystem.Sqlite.Valid.Getting.{getattr_intra-file, file_matches_tags_lem}
use tag_filesystem.Sqlite.Valid.Linking.{load_file-run}
use tag_filesystem.Sqlite.Valid.LinkingAll.{Selects-same}
use tag_filesystem.Sqlite.Valid.Matching.{has_all, Asked}
use tag_filesystem.Sqlite.Valid.Selection.{
  tag_of, chosen, path_of, path_create-run, AreKnown, chosen-Selects,
}
use tag_filesystem.Sqlite.Valid.{has_tag, IsValid}

module _ ⦃U : Uthash⦄ ⦃O : Os⦄ ⦃Q : Sqlite⦄ ⦃T : TagFile⦄ where
  has_all-view :
      (s s' : Fs) (n : Bytes) (vs : List Bytes)
      → ((m u : Bytes) → has_tag s' m u ≡ has_tag s m u)
      → has_all s' n vs ≡ has_all s n vs
  has_all-view s s' n [] view = refl
  has_all-view s s' n (v ∷ vs) view = rw (view n v, has_all-view s s' n vs view) refl

  -- the store `s'` is valid and knows the file; tags and relation are as in `s`
  pub record Meets (s : Fs) (n : Bytes) (s' : Fs) : Type 0 where
    pub valid : IsValid s'
    pub known : (q : Ptr) × (ht_get_entry s'.files n ≡ some q)
    pub tags : s'.tags ≡ s.tags
    pub view : (m u : Bytes) → has_tag s' m u ≡ has_tag s m u

  meets : {s s1 s' : Fs} {n : Bytes} {q : Ptr} → Registers s n q s1 → Asked s1 s' → Meets s n s'
  meets {q = q} k a = record {
    valid = a.valid;
    known = (q, rw a.same k.known);
    tags = ap (λ (x : Fs). x.tags) a.same ∙ k.tags;
    view = λ m u. a.view m u ∙ k.view m u;
  }

  -- the number of the selected tags is positive
  some_selected :
      (h : HashTable) (v : Bytes) (vs : List Bytes) (s : Fs)
      → ht_entries h ≡ chosen s (v ∷ vs)
      → ltb 0 (ht_entry_count h) ≡ true
  some_selected h v vs s e = rw (count-entries h, e) (ground arith)

  pub getattr_file_lem :
      (s : Fs) (path : UserPath) (st : Stat) (v : Bytes) (vs : List Bytes)
      → IsValid s
      → s.next_file < 2 ^ 31
      → ht_entries path.selected_tags ≡ chosen s (v ∷ vs)
      → Distinct (v ∷ vs)
      → AreKnown s (v ∷ vs)
      → length (v ∷ vs) < 2 ^ 32
      → Returns (getattr_file path st s) (λ r s'.
        (r ≡ (if has_all s path.filename (v ∷ vs) then pos 0 else neg enoent, some st))
        × Meets s path.filename s')
  unfolding getattr_file
  getattr_file_lem s path st v vs valid room e apart known few =
      rw (some_selected path.selected_tags v vs s e) (
        Returns-bind (file_get_or_create path.filename) _ s
          (file_get_or_create_lem s path.filename valid room)
          λ q s1 k.
            Returns-bind (file_matches_tags q path.selected_tags) _ s1
              (file_matches_tags_lem s1 path.filename q path (v ∷ vs) k.valid k.known apart
                (Selects-same s s1 (v ∷ vs) (ht_entries path.selected_tags) k.tags
                  (rw e (chosen-Selects s (v ∷ vs) known)))
                few)
              λ b s' (eb, a). (
                (if not b then neg enoent else pos 0, some st),
                s',
                refl,
                (
                  rw (eb, has_all-view s s1 path.filename (v ∷ vs) k.view) (ground arith),
                  meets k a,
                ),
              ))

  -- `tag_getattr` of a path whose directory part is not "." and names different tags, at least one,
  -- and whose last part is a real file that is no directory, on a valid store with a number left,
  -- does not fault and keeps the store valid; it returns 0 if the file has all these tags and -ENOENT
  -- if not, and writes the attributes; the file is known afterwards, and tags and relation are as
  -- before.
  pub tag_getattr-Meets :
      (s : Fs) (user_path : Bytes) (st : Stat) (v : Bytes) (vs : List Bytes)
      → IsValid s
      → s.next_file < 2 ^ 31
      → O.stat s.world (path_realpath user_path) ≡ done st
      → st.is_dir ≡ false
      → str_eq (dirnamedup user_path) (b'.' ∷ []) ≡ false
      → words slash (dirnamedup user_path) ≡ v ∷ vs
      → Distinct (v ∷ vs)
      → AreKnown s (v ∷ vs)
      → length (v ∷ vs) < 2 ^ 32
      → Returns (tag_getattr user_path s) (λ r s'.
        (r ≡ (if has_all s (basenamedup user_path) (v ∷ vs) then pos 0 else neg enoent, some st))
        × Meets s (basenamedup user_path) s')
  unfolding tag_getattr
  tag_getattr-Meets s user_path st v vs valid room real plain dir named apart known few =
      let (h, run, e) = path_create-run s user_path dir in
      rw (run, ◌>>=◌, getattr_intra-file s (path_of user_path h) st real plain)
        (getattr_file_lem s (path_of user_path h) st v vs valid room (rw named at e) apart known
          few)

  -- the names are all tags
  abbrev pub all_known : Fs → List Bytes → Bool
  all_known s [] = true
  all_known s (v ∷ vs) = is_some (ht_get_entry s.tags v) && all_known s vs

  pub chosen-same : (s s' : Fs) (vs : List Bytes) → s'.tags ≡ s.tags → chosen s vs ≡ chosen s' vs
  chosen-same s s' [] same = refl
  chosen-same s s' (v ∷ vs) same = rw (same, chosen-same s s' vs same) refl

  append_ids-none :
      (s : Fs) (vs : List Bytes) (string : Bytes) (first : Bool)
      → IsValid s
      → all_known s vs ≡ false
      → append_ids (chosen s vs) string first s ≡ none
  unfolding append_ids load_tag
  append_ids-none s [] string first valid bad = absurd (ground arith)
  append_ids-none s (v ∷ vs) string first valid bad = elim (Option-cases (ht_get_entry s.tags v)) [
    | inl e ↦ rw (e, tag_of, valid.names.no_invalid, ◌>>=◌) refl
    | inr (p, e) ↦
        let (t, et, _, _) = valid.names.tag_ok v p e in
        rw (e, tag_of, et, ◌>>=◌) (append_ids-none s vs _ false valid (ground (arith, bad)))
  ]

  -- a path with a name that is no tag selects something
  some_chosen :
      (h : HashTable) (vs : List Bytes) (s : Fs)
      → ht_entries h ≡ chosen s vs
      → all_known s vs ≡ false
      → ltb 0 (ht_entry_count h) ≡ true
  some_chosen h [] s e bad = absurd (ground arith)
  some_chosen h (v ∷ vs) s e bad = some_selected h v vs s e

  file_matches_tags-none :
      (s : Fs) (n : Bytes) (q : Ptr) (h : HashTable) (vs : List Bytes)
      → IsValid s
      → ht_get_entry s.files n ≡ some q
      → ht_entries h ≡ chosen s vs
      → all_known s vs ≡ false
      → file_matches_tags q h s ≡ none
  unfolding file_matches_tags db_file_match_tags tag_id_list_string
  file_matches_tags-none s n q h vs valid en e bad =
      let (f, ef, _, _) = valid.names.file_ok n q en in
      rw (load_file-run s q f ef, ◌>>=◌, e, append_ids-none s vs [] true valid bad) refl

  all_known-same :
      (s s' : Fs) (vs : List Bytes) → s'.tags ≡ s.tags → all_known s' vs ≡ all_known s vs
  all_known-same s s' [] same = refl
  all_known-same s s' (v ∷ vs) same = rw (same, all_known-same s s' vs same) refl

  -- `tag_getattr` of a path whose directory part is not "." and has a name that is no tag, and whose
  -- last part is a real file that is no directory, on a valid store with a number left, reads through
  -- INVALID_TAG: it never returns an error.
  pub tag_getattr-none :
      (s : Fs) (user_path : Bytes) (st : Stat)
      → IsValid s
      → s.next_file < 2 ^ 31
      → O.stat s.world (path_realpath user_path) ≡ done st
      → st.is_dir ≡ false
      → str_eq (dirnamedup user_path) (b'.' ∷ []) ≡ false
      → all_known s (words slash (dirnamedup user_path)) ≡ false
      → tag_getattr user_path s ≡ none
  unfolding tag_getattr getattr_file
  tag_getattr-none s user_path st valid room real plain dir bad =
      let ws = words slash (dirnamedup user_path) in
      let (h, run, e) = path_create-run s user_path dir in
      let (q, s1, run', k) = file_get_or_create_lem s (basenamedup user_path) valid room in
      rw
        (
          run,
          ◌>>=◌,
          getattr_intra-file s (path_of user_path h) st real plain,
          run',
          some_chosen h ws s e bad,
        )
        (rw
          (
            ◌>>=◌,
            file_matches_tags-none s1 (basenamedup user_path) q h ws k.valid k.known
                (e ∙ chosen-same s s1 ws k.tags) (all_known-same s s1 ws k.tags ∙ bad),
          )
          refl)
