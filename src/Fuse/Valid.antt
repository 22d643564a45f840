-- ===== src/Fuse/Valid.antt =====
-- The invariant of the store of fuse/: the tables of the tags and of the files hold each other's
-- entries, under the right names, with no dangling pointer. The abstract view of a valid store is
-- a relation between the names of files and the names of tags.
pub mod Runs
pub mod Linked
pub mod Linking
pub mod Creation
pub mod Names
pub mod Selection
pub mod Matching
pub mod LinkAll
pub mod Stripping
pub mod Removed
pub mod Removing
pub mod Rmdir
pub mod Unlinking
use tag_filesystem.Base.{ℕ, ◌<◌, ◌≡◌, Bool, false, Option, none, some, Bytes, is_some}
use tag_filesystem.Cutil.HashTable.{
  Ptr, Uthash, HashTable, IsUnique, ht_entries, ht_get_entry, ht_has_entry,
}
use tag_filesystem.Fuse.File.Notify.{AllOpen}
use tag_filesystem.Fuse.Os.{Os}
use tag_filesystem.Fuse.State.{Tag, File, Fs}

module _ ⦃U : Uthash⦄ ⦃O : Os⦄ where
  -- a tag of the heap, whether it is still in the table or not
  pub record TagOk (s : Fs) (p : Ptr) (t : Tag) : Type 0 where
    pub fresh : p < s.next
    pub unique : IsUnique t.files
    pub listed :
        (n : Bytes) (q : Ptr) → ht_get_entry t.files n ≡ some q → ht_get_entry s.files n ≡ some q

  -- a file of the heap; files are never freed
  pub record FileOk (s : Fs) (q : Ptr) (f : File) : Type 0 where
    pub fresh : q < s.next
    pub unique : IsUnique f.tags
    pub listed : ht_get_entry s.files f.name ≡ some q
    pub tagged :
        (v : Bytes) (p : Ptr) → ht_get_entry f.tags v ≡ some p → ht_get_entry s.tags v ≡ some p
    pub open' : AllOpen s (ht_entries f.descriptors)

  pub record IsValid (s : Fs) : Type 0 where
    pub tags_unique : IsUnique s.tags
    pub files_unique : IsUnique s.files
    pub tag_named :
        (v : Bytes) (p : Ptr)
        → ht_get_entry s.tags v ≡ some p
        → (t : Tag) × (s.tag_at p ≡ some t) × (t.value ≡ v)
    pub file_named :
        (n : Bytes) (q : Ptr)
        → ht_get_entry s.files n ≡ some q
        → (f : File) × (s.file_at q ≡ some f) × (f.name ≡ n)
    pub tag_ok : (p : Ptr) (t : Tag) → s.tag_at p ≡ some t → TagOk s p t
    pub file_ok : (q : Ptr) (f : File) → s.file_at q ≡ some f → FileOk s q f
    -- a tag of the table has the files that have the tag
    pub mutual' :
        (v : Bytes) (p : Ptr) (t : Tag) (q : Ptr) (f : File)
        → ht_get_entry s.tags v ≡ some p
        → s.tag_at p ≡ some t
        → s.file_at q ≡ some f
        → is_some (ht_get_entry t.files f.name) ≡ is_some (ht_get_entry f.tags v)

  -- the abstract view: the file named `n` has the tag named `v`
  unfoldable pub has_tag : Fs → Bytes → Bytes → Bool
  has_tag s n v = elim (ht_get_entry s.files n) [
    | none ↦ false
    | some q ↦ elim (s.file_at q) [ none ↦ false | some f ↦ ht_has_entry f.tags v ]
  ]

  -- the same, as the tag has it
  unfoldable pub has_file : Fs → Bytes → Bytes → Bool
  has_file s v n = elim (ht_get_entry s.tags v) [
    | none ↦ false
    | some p ↦ elim (s.tag_at p) [ none ↦ false | some t ↦ ht_has_entry t.files n ]
  ]
