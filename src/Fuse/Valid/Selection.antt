-- ===== src/Fuse/Valid/Selection.antt =====
-- `compute_selected_tags`: the tags that a path selects.
use tag_filesystem.Base.{
  ◌≡◌, refl, false, Option, none, some, List, [], ◌∷◌, ◌++◌, Bytes, str_eq, append-nil,
  append_assoc,
}
use tag_filesystem.Cutil.HashTable.{
  Ptr, Entries, Uthash, HashTable, ht_create, ht_entries, ht_get_entry, ht_add_entry, entries-add,
  entries-create,
}
use tag_filesystem.Cutil.Libc.{slash}
use tag_filesystem.Cutil.String2.Split.{words, string_split-words}
use tag_filesystem.Fuse.Os.{Os}
use tag_filesystem.Fuse.State.{Fs, Cmd, pure}
use tag_filesystem.Fuse.Tag.{
  tag_get, tag_inc_ref, tag_get_or_create_in, select_tag, select_tags, compute_selected_tags,
}
use tag_filesystem.Fuse.Valid.Names.{
  Keeps, Keeps-refl, Keeps-trans, tag_inc_ref-Keeps, tag_get_or_create_in-Keeps,
}
use tag_filesystem.Base.Store.{Returns, Returns-bind, Returns-mono}
use tag_filesystem.Fuse.Valid.{IsValid}

module _ ⦃U : Uthash⦄ ⦃O : Os⦄ where
  -- the entries are the tags with these names, in this order
  abbrev pub Selects : Fs → List Bytes → Entries → Type 0
  Selects s [] [] = Unit
  Selects s (n ∷ ns) ((k, p) ∷ es) = (k ≡ n) × (ht_get_entry s.tags n ≡ some p) × Selects s ns es
  Selects s _ _ = ⊥

  pub Selects-Keeps :
      {s s' : Fs} (ns : List Bytes) (es : Entries) → Keeps s s' → Selects s ns es → Selects s' ns es
  Selects-Keeps [] [] k sel = sel
  Selects-Keeps (n ∷ ns) ((j, p) ∷ es) k (named, here, sel) =
      (named, k.tags n p here, Selects-Keeps ns es k sel)
  Selects-Keeps [] (_ ∷ _) k sel = absurd sel
  Selects-Keeps (_ ∷ _) [] k sel = absurd sel

  -- the choice that `select_tag` makes on the result of `tag_get`
  abbrev found_or_new : Bytes → Option Ptr → Cmd Ptr
  found_or_new name found = elim found [ some p ↦ pure p | none ↦ tag_get_or_create_in name false ]

  found_or_new-Keeps :
      {s : Fs} (valid : IsValid s) (name : Bytes) (found : Option Ptr)
      → ht_get_entry s.tags name ≡ found
      → Returns
          (found_or_new name found s)
          (λ p s'. Keeps s s' × (ht_get_entry s'.tags name ≡ some p))
  found_or_new-Keeps {s} valid name none e = tag_get_or_create_in-Keeps valid name false
  found_or_new-Keeps {s} valid name (some p) e = (p, s, refl, (Keeps-refl valid, e))

  -- the tag of a name, made when there is none, and a reference to it
  pub select_tag-Keeps :
      {s : Fs} (valid : IsValid s) (name : Bytes) (selected : HashTable)
      → Returns (select_tag name selected s) (λ h s'.
        Keeps s s'
        × ((p : Ptr) × (ht_get_entry s'.tags name ≡ some p)
            × (h ≡ (ht_add_entry selected name p).1)))
  unfolding select_tag tag_get
  select_tag-Keeps {s} valid name selected =
      Returns-bind (found_or_new name (ht_get_entry s.tags name)) _ s
        (found_or_new-Keeps valid name (ht_get_entry s.tags name) refl)
        λ p s₂ (k, ep).
          Returns-bind (tag_inc_ref p) _ s₂ (tag_inc_ref-Keeps name k.valid ep)
            λ _ s₃ k'. (_, s₃, refl, (Keeps-trans k k', (p, k'.tags name p ep, refl)))

  Selects-append :
      (s : Fs) (ms ns : List Bytes) (es fs : Entries)
      → Selects s ms es
      → Selects s ns fs
      → Selects s (ms ++ ns) (es ++ fs)
  Selects-append s [] ns [] fs a b = b
  Selects-append s (m ∷ ms) ns ((k, p) ∷ es) fs (named, here, a) b =
      (named, here, Selects-append s ms ns es fs a b)
  Selects-append s [] _ (_ ∷ _) _ a b = absurd a
  Selects-append s (_ ∷ _) _ [] _ a b = absurd a

  -- the loop: the new entries come after those that the table has
  select_tags-Selects :
      (names done : List Bytes) (selected : HashTable) (s : Fs)
      → IsValid s
      → Selects s done (ht_entries selected)
      → Returns
          (select_tags names selected s)
          (λ h s'. Keeps s s' × Selects s' (done ++ names) (ht_entries h))
  unfolding select_tags
  select_tags-Selects [] done selected s valid sel =
      (selected, s, refl, (Keeps-refl valid, rw append-nil sel))
  select_tags-Selects (name ∷ names) done selected s valid sel =
      Returns-bind (select_tag name selected) _ s (select_tag-Keeps valid name selected)
        λ h s₁ (k, (p, ep, eh)).
          Returns-mono
            (select_tags-Selects names (done ++ (name ∷ [])) h s₁ k.valid (
              rw (eh, entries-add)
                (Selects-append s₁ done (name ∷ []) (ht_entries selected) ((name, p) ∷ [])
                  (Selects-Keeps done (ht_entries selected) k sel) (refl, ep, tt))))
            λ h' s₂ (k', sel'). (Keeps-trans k k', rw append_assoc at sel')

  -- For a path other than ".", `compute_selected_tags` does not fault, keeps the store valid and the
  -- relation between names, and selects one tag for each part of the path between the slashes that
  -- is not empty, in the order of the path: the tag that the table has under that name afterwards.
  pub compute_selected_tags_lem :
      {s : Fs} (valid : IsValid s) (dirpath : Bytes)
      → str_eq dirpath (b'.' ∷ []) ≡ false
      → Returns
          (compute_selected_tags dirpath s)
          (λ h s'. Keeps s s' × Selects s' (words slash dirpath) (ht_entries h))
  unfolding compute_selected_tags
  compute_selected_tags_lem {s} valid dirpath proper =
      rw (proper, string_split-words dirpath slash)
        (select_tags-Selects (words slash dirpath) [] ht_create s valid (rw entries-create tt))
