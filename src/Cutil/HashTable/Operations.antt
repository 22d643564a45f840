-- ===== src/Cutil/HashTable/Operations.antt =====
-- The functions of hash_table.c. One that writes a table returns its result beside the new table.
use tag_filesystem.Base.{ℕ, Bool, Option, none, some, List, [], ◌∷◌, Bytes, ℤ, pos, negsuc, is_some}
use tag_filesystem.Cutil.HashTable.Assoc.{Ptr, Entries}
use tag_filesystem.Cutil.HashTable.Interface.{Uthash}

-- the loop of HASH_ITER, on what is left of the entries
unfoldable pub iterate : {S : Type 0} → Entries → (Bytes → Ptr → S → S) → S → S
iterate [] fun s = s
iterate ((key, value) ∷ es) fun s = iterate es fun (fun key value s)

module _ ⦃U : Uthash⦄ where
  -- `struct hash_table`
  abbrev pub HashTable : Type 0
  HashTable = U.Table

  unfoldable pub ht_create : HashTable
  ht_create = U.empty

  unfoldable pub ht_entry_count : HashTable → ℕ
  ht_entry_count h = U.count h

  unfoldable pub ht_add_entry : HashTable → Bytes → Ptr → ℤ × HashTable
  ht_add_entry h key value = (pos 0, U.add h key value)

  unfoldable pub ht_add_unique_entry : HashTable → Bytes → Ptr → ℤ × HashTable
  ht_add_unique_entry h key value = elim (U.find h key) [
    | none ↦ (pos 0, U.add h key value)
    | some _ ↦ (negsuc 0, h)
  ]

  unfoldable pub ht_remove_entry : HashTable → Bytes → ℤ × HashTable
  ht_remove_entry h key = elim (U.find h key) [
    | none ↦ (negsuc 0, h)
    | some _ ↦ (pos 0, U.del h key)
  ]

  unfoldable pub ht_has_entry : HashTable → Bytes → Bool
  ht_has_entry h key = is_some (U.find h key)

  -- `none` is the result -1, which leaves `*ret` alone
  unfoldable pub ht_get_entry : HashTable → Bytes → Option Ptr
  ht_get_entry h key = U.find h key

  -- the pairs on which `ht_for_each` calls its function, in order
  unfoldable pub ht_entries : HashTable → Entries
  ht_entries h = U.entries h

  -- `fun` acts on a state, which holds what its third argument points to
  unfoldable pub ht_for_each : {S : Type 0} → HashTable → (Bytes → Ptr → S → S) → S → S
  unfolding iterate
  ht_for_each h fun args = iterate (U.entries h) fun args

  -- `list_add` puts an element in front, so the list has the reverse order
  unfoldable pub ht_to_list : HashTable → List Ptr
  unfolding iterate
  ht_to_list h = iterate (U.entries h) (λ _ value l. value ∷ l) []
