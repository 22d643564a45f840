-- ===== src/Sqlite/Valid.antt =====
-- The abstract view of a store of fuse_sqlite3/, the relation between the names of files and of tags,
-- and what keeps it sound: names have numbers of their own, and no link stands for a number to come.
pub mod Linking
pub mod Matching
pub mod LinkingAll
pub mod Selection
pub mod Creation
pub mod Tags
pub mod Making
pub mod Removing
pub mod Handling
pub mod Getting
pub mod Renaming
pub mod Relating
use tag_filesystem.Base.{ℕ, ◌+◌, ◌^◌, ◌<◌, ◌≤◌, ◌≡◌, Bool, true, false, Option, none, some, Bytes}
use tag_filesystem.Cutil.HashTable.{Ptr, Uthash, IsUnique, ht_get_entry}
use tag_filesystem.Fuse.Os.{Os}
use tag_filesystem.Sqlite.Database.{Sqlite}
use tag_filesystem.Sqlite.Links.{TagFile}
use tag_filesystem.Sqlite.State.{invalid_tag, Tag, File, Fs}

abbrev pub tag_number : Option Tag → Option ℕ
tag_number none = none
tag_number (some t) = some t.id

abbrev pub file_number : Option File → Option ℕ
file_number none = none
file_number (some f) = some f.id

module _ ⦃U : Uthash⦄ ⦃O : Os⦄ ⦃Q : Sqlite⦄ where
  -- the number of the tag, or of the file, with this name
  unfoldable pub tag_id : Fs → Bytes → Option ℕ
  tag_id s v = elim (ht_get_entry s.tags v) [ none ↦ none | some p ↦ tag_number (s.tag_at p) ]

  unfoldable pub file_id : Fs → Bytes → Option ℕ
  file_id s n = elim (ht_get_entry s.files n) [ none ↦ none | some q ↦ file_number (s.file_at q) ]

  -- the file with the first name has the tag with the second
  unfoldable pub has_tag : ⦃T : TagFile⦄ → Fs → Bytes → Bytes → Bool
  unfolding file_id tag_id
  has_tag ⦃T⦄ s n v = elim (file_id s n) [
    | none ↦ false
    | some f ↦ elim (tag_id s v) [ none ↦ false | some t ↦ T.linked s.db t f ]
  ]

  -- all but the database: a change of the database leaves it alone
  pub record Names (s : Fs) : Type 0 where
    pub tags_unique : IsUnique s.tags
    pub files_unique : IsUnique s.files
    pub tag_ok :
        (v : Bytes) (p : Ptr)
        → ht_get_entry s.tags v ≡ some p
        → (t : Tag) × (s.tag_at p ≡ some t) × (t.value ≡ v) × (t.id < s.next_tag)
    pub file_ok :
        (n : Bytes) (q : Ptr)
        → ht_get_entry s.files n ≡ some q
        → (f : File) × (s.file_at q ≡ some f) × (f.name ≡ n) × (f.id < s.next_file)
    pub tags_apart : (v u : Bytes) (i : ℕ) → tag_id s v ≡ some i → tag_id s u ≡ some i → v ≡ u
    pub files_apart : (n m : Bytes) (i : ℕ) → file_id s n ≡ some i → file_id s m ≡ some i → n ≡ m
    pub tags_bound : s.next_tag ≤ 2 ^ 31
    pub files_bound : s.next_file ≤ 2 ^ 31
    pub no_invalid : s.tag_at invalid_tag ≡ none
    pub no_null : s.tag_at 0 ≡ none
    pub started : 0 < s.next
    pub tags_fresh : (p : Ptr) → s.next ≤ p → s.tag_at p ≡ none
    pub files_fresh : (q : Ptr) → s.next ≤ q → s.file_at q ≡ none

  -- at most so many numbers and addresses were given out between the two stores
  abbrev pub Few : ℕ → Fs → Fs → Type 0
  Few k s s' =
      (s'.next_tag ≤ s.next_tag + k) × (s'.next_file ≤ s.next_file + k) × (s'.next ≤ s.next + k)

  pub record IsValid ⦃T : TagFile⦄ (s : Fs) : Type 0 where
    pub names : Names s
    pub links : (t f : ℕ) → T.linked s.db t f ≡ true → (t < s.next_tag) × (f < s.next_file)
