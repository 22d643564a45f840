-- ===== src/Sqlite/Valid/Selection.antt =====
-- `path_create` of fuse_sqlite3/: what a path selects. It does not change the store.
use tag_filesystem.Base.Store.{◌>>=◌}
use tag_filesystem.Base.{
  ◌≡◌, ◌∙◌, refl, sym, ap, false, none, some, List, [], ◌∷◌, ◌++◌, Bytes, str_eq, append_assoc,
  append-nil, Option-cases, inl, inr,
}
use tag_filesystem.Cutil.HashTable.{
  Ptr, Entries, Uthash, HashTable, ht_get_entry, ht_entries, ht_create, ht_add_entry,
  ht_entry_count, entries-add, entries-create,
}
use tag_filesystem.Cutil.Libc.{slash}
use tag_filesystem.Cutil.String2.Split.{words, string_split-words}
use tag_filesystem.Fuse.Os.{Os}
use tag_filesystem.Fuse.Util.{basenamedup, dirnamedup, path_realpath}
use tag_filesystem.Sqlite.Database.{Sqlite}
use tag_filesystem.Sqlite.State.{invalid_tag, UserPath, Fs}
use tag_filesystem.Sqlite.Tag.{tag_get, select_tags, compute_selected_tags}
use tag_filesystem.Sqlite.UserPath.{path_create}
use tag_filesystem.Sqlite.Valid.Matching.{Selects}

module _ ⦃U : Uthash⦄ ⦃O : Os⦄ ⦃Q : Sqlite⦄ where
  -- what `tag_get` returns
  abbrev pub tag_of : Fs → Bytes → Ptr
  tag_of s v = elim (ht_get_entry s.tags v) [ some p ↦ p | none ↦ invalid_tag ]

  -- the entries of the table of selected tags
  abbrev pub chosen : Fs → List Bytes → Entries
  chosen s [] = []
  chosen s (v ∷ vs) = (v, tag_of s v) ∷ chosen s vs

  pub tag_get-run : (s : Fs) (v : Bytes) → tag_get v s ≡ some (tag_of s v, s)
  unfolding tag_get
  tag_get-run s v = elim (Option-cases (ht_get_entry s.tags v)) [
    | inl e ↦ rw (e, ◌>>=◌, tag_of) refl
    | inr (p, e) ↦ rw (e, ◌>>=◌, tag_of) refl
  ]

  pub select_tags-chosen :
      (s : Fs) (vs : List Bytes) (h : HashTable)
      → (h' : HashTable) × (select_tags vs h s ≡ some (h', s))
        × (ht_entries h' ≡ ht_entries h ++ chosen s vs)
  unfolding select_tags
  select_tags-chosen s [] h = (h, refl, sym (append-nil (ht_entries h)))
  select_tags-chosen s (v ∷ vs) h =
      let (h', run, e) = select_tags-chosen s vs (ht_add_entry h v (tag_of s v)).1 in
      (
        h',
        rw (tag_get-run s v, ◌>>=◌) run,
        e
            ∙ ap (λ es. es ++ chosen s vs) (entries-add h v (tag_of s v))
            ∙ append_assoc (ht_entries h) ((v, tag_of s v) ∷ []) (chosen s vs),
      )

  -- the path that `path_create` makes of a path of the user, for a table of selected tags
  abbrev pub path_of : Bytes → HashTable → UserPath
  path_of user_path h = record {
    depth = ht_entry_count h;
    realpath = path_realpath user_path;
    virtpath = user_path;
    virtdirpath = dirnamedup user_path;
    filename = basenamedup user_path;
    selected_tags = h;
  }

  pub path_create-run :
      (s : Fs) (user_path : Bytes)
      → str_eq (dirnamedup user_path) (b'.' ∷ []) ≡ false
      → (h : HashTable) × (path_create user_path false s ≡ some (path_of user_path h, s))
        × (ht_entries h ≡ chosen s (words slash (dirnamedup user_path)))
  unfolding path_create compute_selected_tags
  path_create-run s user_path not_dot =
      let vs = words slash (dirnamedup user_path) in
      let (h, run, e) = select_tags-chosen s vs ht_create in
      (
        h,
        rw (not_dot, ◌>>=◌, string_split-words (dirnamedup user_path) slash, run) refl,
        e ∙ ap (λ es. es ++ chosen s vs) entries-create,
      )

  -- all these names are tags
  abbrev pub AreKnown : Fs → List Bytes → Type 0
  AreKnown s [] = Unit
  AreKnown s (v ∷ vs) = ((p : Ptr) × (ht_get_entry s.tags v ≡ some p)) × AreKnown s vs

  pub chosen-Selects : (s : Fs) (vs : List Bytes) → AreKnown s vs → Selects s vs (chosen s vs)
  chosen-Selects s [] known = tt
  chosen-Selects s (v ∷ vs) ((p, e), known) = (
    refl,
    e ∙ ap some (sym (ap (λ o. elim o [ some x ↦ x | none ↦ invalid_tag ]) e)),
    chosen-Selects s vs known,
  )
