-- ===== src/Cutil/HashTable/Interface.antt =====
-- What hash_table.c relies on of uthash.h, as its guide documents it: HASH_ITER visits the entries
-- in the order of insertion, HASH_FIND finds an entry with the key if there is one, HASH_DEL takes
-- out the entry that was found, and keys have to be unique where an entry is looked up or deleted.
use tag_filesystem.Base.{ℕ, ◌≡◌, Option, [], ◌∷◌, ◌++◌, Bytes, is_some, length}
use tag_filesystem.Cutil.HashTable.Assoc.{Ptr, Entries, lookup, erase, Unique}

pub record Uthash : Type 1 where
  pub Table : Type 0
  -- a NULL head
  pub empty : Table
  -- HASH_ADD_STR
  pub add : Table → Bytes → Ptr → Table
  -- HASH_FIND_STR: the data of the entry
  pub find : Table → Bytes → Option Ptr
  -- HASH_DEL of the entry that HASH_FIND_STR finds
  pub del : Table → Bytes → Table
  -- HASH_ITER
  pub entries : Table → Entries
  -- HASH_COUNT
  pub count : Table → ℕ
  pub entries-empty : entries empty ≡ []
  pub entries-add :
      (h : Table) (k : Bytes) (v : Ptr) → entries (add h k v) ≡ entries h ++ (k, v) ∷ []
  pub find-finds : (h : Table) (k : Bytes) → is_some (find h k) ≡ is_some (lookup k (entries h))
  pub find-lookup : (h : Table) (k : Bytes) → Unique (entries h) → find h k ≡ lookup k (entries h)
  pub entries-del :
      (h : Table) (k : Bytes) → Unique (entries h) → entries (del h k) ≡ erase k (entries h)
  pub count-length : (h : Table) → count h ≡ length (entries h)
