-- ===== src/Fuse/Valid/Matching.antt =====
-- `file_matches_tags` and `getattr_intra` on a valid store, against the relation between names.
use tag_filesystem.Base.{
  ◌≡◌, ◌∙◌, refl, Bool, true, false, ◌&&◌, some, List, [], ◌∷◌, Bytes, ℤ, pos, neg, arith, ltb,
  if◌then◌else◌, length, is_some, str_eq, Bool-cases, inl, inr,
}
use tag_filesystem.Cutil.HashTable.{
  Ptr, Entries, Uthash, HashTable, ht_entries, ht_get_entry, ht_has_entry, ht_entry_count,
  count-entries,
}
use tag_filesystem.Fuse.File.{file_get_or_create}
use tag_filesystem.Fuse.Os.{Os, Stat, done}
use tag_filesystem.Fuse.State.Writes.{load_tag-run, load_file-run}
use tag_filesystem.Fuse.State.{File, UserPath, Fs, ◌>>=◌}
use tag_filesystem.Fuse.TagFs.Attr.{check_tags, file_matches_tags, getattr_file, getattr_intra}
use tag_filesystem.Fuse.Util.{enoent, tag_filename}
use tag_filesystem.Fuse.Valid.Names.{Keeps, file_get_or_create-Keeps}
use tag_filesystem.Base.Store.{Returns, Returns-bind}
use tag_filesystem.Fuse.Valid.Selection.{Selects, Selects-Keeps}
use tag_filesystem.Fuse.Valid.{IsValid, has_tag}

module _ ⦃U : Uthash⦄ ⦃O : Os⦄ where
  -- the file named `n` has all the tags with these names
  abbrev pub has_all : Fs → Bytes → List Bytes → Bool
  has_all s n [] = true
  has_all s n (v ∷ vs) = has_tag s n v && has_all s n vs

  pub has_all-Keeps :
      {s s' : Fs} (n : Bytes) (vs : List Bytes) → Keeps s s' → has_all s' n vs ≡ has_all s n vs
  has_all-Keeps n [] k = refl
  has_all-Keeps n (v ∷ vs) k = rw (k.view n v, has_all-Keeps n vs k)

  module _ {s : Fs} (n : Bytes) {q : Ptr} (valid : IsValid s)
      (en : ht_get_entry s.files n ≡ some q) where
    has_tag_at :
        (v : Bytes) {f : File} → s.file_at q ≡ some f → has_tag s n v ≡ ht_has_entry f.tags v
    unfolding has_tag
    has_tag_at v e = ground arith

    check_tags-has_all :
        (names : List Bytes) (es : Entries) (match : Bool)
        → Selects s names es
        → check_tags es q match s ≡ some (match && has_all s n names, s)
    unfolding check_tags
    check_tags-has_all [] [] match sel = ground arith
    check_tags-has_all (v ∷ names) ((k, p) ∷ es) match (named, here, sel) =
        let (t, et, ev) = valid.tag_named v p here in
        let (f, ef, _) = valid.file_named n q en in
        rw (load_tag-run s p et, ◌>>=◌, load_file-run s q ef)
          (check_tags-has_all names es _ sel ∙ ground (arith, has_tag_at v ef))
    check_tags-has_all [] (_ ∷ _) match sel = absurd sel
    check_tags-has_all (_ ∷ _) [] match sel = absurd sel

    -- `file_matches_tags`, on a file of a valid store and a table that selects tags by their names,
    -- does not fault, does not change the store, and returns whether the file has all these tags.
    pub file_matches_tags_lem :
        (names : List Bytes) (selected : HashTable)
        → Selects s names (ht_entries selected)
        → file_matches_tags q selected s ≡ some (has_all s n names, s)
    unfolding file_matches_tags
    file_matches_tags_lem names selected sel =
        check_tags-has_all names (ht_entries selected) true sel

  Selects-empty :
      (s : Fs) (names : List Bytes) (es : Entries)
      → Selects s names es
      → ltb 0 (length es) ≡ false
      → names ≡ []
  Selects-empty s [] [] sel e = refl
  Selects-empty s (_ ∷ _) (_ ∷ _) sel e = absurd (ground arith)
  Selects-empty s [] (_ ∷ _) sel e = refl
  Selects-empty s (_ ∷ _) [] sel e = absurd sel

  -- what `getattr_intra` says of a file that is there
  abbrev pub match_result : Bool → ℤ
  match_result b = if b then pos 0 else neg enoent

  pub getattr_file_lem :
      {s : Fs} (valid : IsValid s) (p : UserPath) (st : Stat) (names : List Bytes)
      → Selects s names (ht_entries p.selected_tags)
      → Returns (getattr_file p st s) (λ r s'.
        Keeps s s'
        × is_some (ht_get_entry s'.files p.filename) ≡ true
        × (r.0 ≡ match_result (has_all s p.filename names))
        × is_some r.1 ≡ true)
  unfolding getattr_file
  getattr_file_lem {s} valid p st names sel =
      Returns-bind (file_get_or_create p.filename) _ s (file_get_or_create-Keeps valid p.filename)
        λ q s' (k, en). elim (Bool-cases (ltb 0 (ht_entry_count p.selected_tags))) [
          | inl some_tags ↦ rw some_tags (
              rw
                (
                  file_matches_tags_lem p.filename k.valid en names p.selected_tags
                      (Selects-Keeps names (ht_entries p.selected_tags) k sel),
                  ◌>>=◌,
                )
                (
                  _,
                  s',
                  refl,
                  (k, rw en refl, rw (has_all-Keeps p.filename names k) (ground arith), refl),
                ))
          | inr no_tags ↦
              let empty : names ≡ [] =
                Selects-empty s names (ht_entries p.selected_tags) sel
                  (rw count-entries at no_tags) in
              let good : pos 0 ≡ match_result (has_all s p.filename names) = rw empty refl in
              elim (Bool-cases (str_eq p.filename tag_filename)) [
                | inl e ↦ rw (no_tags, e) (_, s', refl, (k, rw en refl, good, refl))
                | inr e ↦ rw (no_tags, e) (_, s', refl, (k, rw en refl, good, refl))
              ]
        ]

  getattr_intra-file :
      (s : Fs) (p : UserPath) (st : Stat)
      → O.stat s.world p.realpath ≡ done st
      → st.is_dir ≡ false
      → getattr_intra p s ≡ getattr_file p st s
  unfolding getattr_intra
  getattr_intra-file s p st here file = ground arith

  -- `getattr_intra`, on a valid store, a path whose selected tags have these names and a real file that
  -- exists and is no directory, does not fault, keeps the store valid and the relation between names,
  -- registers the file, and writes attributes; it returns 0 if the file has all the tags that the path
  -- selects, and -ENOENT if not.
  pub getattr_intra_lem :
      {s : Fs} (valid : IsValid s) (p : UserPath) (st : Stat) (names : List Bytes)
      → Selects s names (ht_entries p.selected_tags)
      → O.stat s.world p.realpath ≡ done st
      → st.is_dir ≡ false
      → Returns (getattr_intra p s) (λ r s'.
        Keeps s s'
        × is_some (ht_get_entry s'.files p.filename) ≡ true
        × (r.0 ≡ match_result (has_all s p.filename names))
        × is_some r.1 ≡ true)
  getattr_intra_lem {s} valid p st names sel here file =
      rw (getattr_intra-file s p st here file) (getattr_file_lem valid p st names sel)
