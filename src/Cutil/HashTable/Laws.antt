-- ===== src/Cutil/HashTable/Laws.antt =====
-- What a client computes with: each write of a table, read back through `ht_get_entry`.
use tag_filesystem.Base.{
  ◌≡◌, refl, ◌∙◌, sym, none, some, [], ◌∷◌, ◌++◌, arith, Bytes, str_eq, str_eq_iff, if◌then◌else◌,
  is_some, length, Option-cases, inl, inr, ◌↔◌,
}
use tag_filesystem.Cutil.HashTable.Assoc.{
  Ptr, lookup, erase, Unique, Among, lookup-append, lookup-erase, Unique-append, Unique-erase,
  Among-lookup, lookup-Among,
}
use tag_filesystem.Cutil.HashTable.Interface.{Uthash}
use tag_filesystem.Cutil.HashTable.Operations.{
  HashTable, ht_create, ht_entry_count, ht_add_entry, ht_add_unique_entry, ht_remove_entry,
  ht_has_entry, ht_get_entry, ht_entries,
}

module _ ⦃U : Uthash⦄ where
  -- no key stands twice
  abbrev pub IsUnique : HashTable → Type 0
  IsUnique h = Unique (ht_entries h)

  pub entries-create : ht_entries ht_create ≡ []
  unfolding ht_entries ht_create
  entries-create = U.entries-empty

  pub entries-add :
      (h : HashTable) (k : Bytes) (v : Ptr)
      → ht_entries (ht_add_entry h k v).1 ≡ ht_entries h ++ (k, v) ∷ []
  unfolding ht_entries ht_add_entry
  entries-add h k v = U.entries-add h k v

  pub count-entries : (h : HashTable) → ht_entry_count h ≡ length (ht_entries h)
  unfolding ht_entry_count ht_entries
  count-entries h = U.count-length h

  pub has-get : (h : HashTable) (k : Bytes) → ht_has_entry h k ≡ is_some (ht_get_entry h k)
  unfolding ht_has_entry ht_get_entry
  has-get h k = refl

  pub get-lookup :
      (h : HashTable) (k : Bytes) → IsUnique h → ht_get_entry h k ≡ lookup k (ht_entries h)
  unfolding ht_get_entry ht_entries
  get-lookup h k u = U.find-lookup h k u

  pub has-lookup :
      (h : HashTable) (k : Bytes) → ht_has_entry h k ≡ is_some (lookup k (ht_entries h))
  unfolding ht_has_entry ht_entries
  has-lookup h k = U.find-finds h k

  pub IsUnique-create : IsUnique ht_create
  IsUnique-create = rw entries-create tt

  pub get-create : (k : Bytes) → ht_get_entry ht_create k ≡ none
  get-create k = get-lookup ht_create k IsUnique-create ∙ rw entries-create

  pub IsUnique-add :
      (h : HashTable) (k : Bytes) (v : Ptr)
      → IsUnique h
      → ht_get_entry h k ≡ none
      → IsUnique (ht_add_entry h k v).1
  IsUnique-add h k v u e =
      rw (entries-add h k v) (Unique-append k v (ht_entries h) u (sym (get-lookup h k u) ∙ e))

  pub get-add :
      (h : HashTable) (k j : Bytes) (v : Ptr)
      → IsUnique h
      → ht_get_entry h k ≡ none
      → ht_get_entry (ht_add_entry h k v).1 j ≡ (if str_eq k j then some v else ht_get_entry h j)
  get-add h k j v u e =
      let full = get-lookup (ht_add_entry h k v).1 j (IsUnique-add h k v u e) in
      rw (full, entries-add h k v, lookup-append j (ht_entries h) ((k, v) ∷ []))
        (ground (arith, get-lookup h k u, get-lookup h j u, str_eq_iff k j))

  -- the two branches of `ht_add_unique_entry`
  pub add_unique_new :
      (h : HashTable) (k : Bytes) (v : Ptr)
      → ht_get_entry h k ≡ none
      → ht_add_unique_entry h k v ≡ ht_add_entry h k v
  unfolding ht_add_unique_entry ht_add_entry ht_get_entry
  add_unique_new h k v e = ground arith

  pub add_unique_old :
      (h : HashTable) (k : Bytes) (v w : Ptr)
      → ht_get_entry h k ≡ some w
      → (ht_add_unique_entry h k v).1 ≡ h
  unfolding ht_add_unique_entry ht_get_entry
  add_unique_old h k v w e = ground arith

  pub add_distinct-IsUnique :
      (h : HashTable) (k : Bytes) (v : Ptr) → IsUnique h → IsUnique (ht_add_unique_entry h k v).1
  add_distinct-IsUnique h k v u = elim (Option-cases (ht_get_entry h k)) [
    | inl e ↦ rw (add_unique_new h k v e) (IsUnique-add h k v u e)
    | inr (w, e) ↦ rw (add_unique_old h k v w e) u
  ]

  -- Where no key stands twice, a table after `ht_add_unique_entry` has the entry that it had under the
  -- key, or the new one if it had none, and every other key as before.
  pub get-add_unique :
      (h : HashTable) (k j : Bytes) (v : Ptr)
      → IsUnique h
      → ht_get_entry (ht_add_unique_entry h k v).1 j ≡ (
          if str_eq k j
          then (if is_some (ht_get_entry h k) then ht_get_entry h k else some v)
          else ht_get_entry h j)
  get-add_unique h k j v u = elim (Option-cases (ht_get_entry h k)) [
    | inl e ↦ rw (add_unique_new h k v e, get-add h k j v u e) (ground arith)
    | inr (w, e) ↦ rw (add_unique_old h k v w e) (ground (arith, str_eq_iff k j))
  ]

  -- the same where the key has no other value than `v`
  pub get-add_unique_agreed :
      (h : HashTable) (k j : Bytes) (v : Ptr)
      → IsUnique h
      → ((w : Ptr) → ht_get_entry h k ≡ some w → w ≡ v)
      → ht_get_entry (ht_add_unique_entry h k v).1 j
        ≡ (if str_eq k j then some v else ht_get_entry h j)
  get-add_unique_agreed h k j v u agreed = elim (Option-cases (ht_get_entry h k)) [
    | inl e ↦ ground (arith, get-add_unique h k j v u)
    | inr (w, e) ↦ ground (arith, get-add_unique h k j v u, agreed w e)
  ]

  entries-remove :
      (h : HashTable) (k : Bytes) (w : Ptr)
      → IsUnique h
      → ht_get_entry h k ≡ some w
      → ht_entries (ht_remove_entry h k).1 ≡ erase k (ht_entries h)
  unfolding ht_remove_entry ht_get_entry ht_entries
  entries-remove h k w u e = rw (e, ht_remove_entry) (U.entries-del h k u)

  remove_absent :
      (h : HashTable) (k : Bytes) → ht_get_entry h k ≡ none → (ht_remove_entry h k).1 ≡ h
  unfolding ht_remove_entry ht_get_entry
  remove_absent h k e = ground arith

  pub IsUnique-remove : (h : HashTable) (k : Bytes) → IsUnique h → IsUnique (ht_remove_entry h k).1
  IsUnique-remove h k u = elim (Option-cases (ht_get_entry h k)) [
    | inl e ↦ rw (remove_absent h k e) u
    | inr (w, e) ↦ rw (entries-remove h k w u e) (Unique-erase k (ht_entries h) u)
  ]

  -- Where no key stands twice, a table after `ht_remove_entry` has no entry under the key, and every
  -- other key as before.
  pub get-remove :
      (h : HashTable) (k j : Bytes)
      → IsUnique h
      → ht_get_entry (ht_remove_entry h k).1 j ≡ (if str_eq k j then none else ht_get_entry h j)
  get-remove h k j u = elim (Option-cases (ht_get_entry h k)) [
    | inl e ↦ rw (remove_absent h k e) (ground (arith, str_eq_iff k j))
    | inr (w, e) ↦ rw (
      get-lookup (ht_remove_entry h k).1 j (IsUnique-remove h k u),
      entries-remove h k w u e,
      lookup-erase k j (ht_entries h) u,
      get-lookup h j u,
    )
  ]

  -- Where no key stands twice, a key and a value are one of the pairs that `ht_for_each` visits if and
  -- only if `ht_get_entry` finds the value under the key.
  pub Among-get :
      (h : HashTable) (k : Bytes) (v : Ptr)
      → IsUnique h
      → Among k v (ht_entries h) ↔ (ht_get_entry h k ≡ some v)
  Among-get h k v u = (
    λ a. get-lookup h k u ∙ lookup-Among k v (ht_entries h) u a,
    λ e. Among-lookup k v (ht_entries h) (sym (get-lookup h k u) ∙ e),
  )
