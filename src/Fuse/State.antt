-- ===== src/Fuse/State.antt =====
-- The objects of the program and the store that holds them. An address that was never given out,
-- or was freed, holds nothing: a read or a write through it is a fault, the result `none`.
-- `malloc` gives out increasing addresses, so that no freed address comes back.
pub mod Writes
unfoldable pub use tag_filesystem.Base.Store.{
  Heap, write, Run, pure, ◌>>=◌, ◌>>◌, gets, modify, for_each,
}
use tag_filesystem.Base.{ℕ, ◌+◌, Bool, Option, none, some, [], ◌∷◌, Bytes, ◌==◌, if◌then◌else◌}
use tag_filesystem.Cutil.HashTable.{Ptr, Entries, Uthash, HashTable, ht_entries}
use tag_filesystem.Fuse.Os.{Os}

module _ ⦃U : Uthash⦄ ⦃O : Os⦄ where
  -- `struct tag`; `ref_count` is the bit pattern of an `int`
  pub record Tag : Type 0 where
    pub value : Bytes
    pub files : HashTable
    pub in_use : Bool
    pub ref_count : ℕ

  -- `struct file`; a descriptor is keyed by its address
  pub record File : Type 0 where
    pub name : Bytes
    pub realpath : Bytes
    pub tags : HashTable
    pub descriptors : HashTable
    pub revents : ℕ

  -- `struct path`, which belongs to one call or to one descriptor: passed as a value
  pub record UserPath : Type 0 where
    pub realpath : Bytes
    pub virtpath : Bytes
    pub virtdirpath : Bytes
    pub filename : Bytes
    pub selected_tags : HashTable

  -- `struct file_descriptor`; the members `file` and `tag` share their place. `none` is INVALID_TAG,
  -- and the `fh` of a directory is -1.
  pub record FileDescriptor : Type 0 where
    pub path : UserPath
    pub is_tag : Bool
    pub is_tag_file : Bool
    pub ph : Option Ptr
    pub target : Option Ptr
    pub fh : Option ℕ

  -- the variables `tags` of tag.c and `files` of file.c, the heap, and the world outside
  pub record Fs : Type 0 where
    pub tags : HashTable
    pub files : HashTable
    pub tag_at : Heap Tag
    pub file_at : Heap File
    pub fd_at : Heap FileDescriptor
    pub next : Ptr
    pub world : O.World

  abbrev pub Cmd : Type 0 → Type 0
  Cmd A = Run Fs A

  unfoldable pub load_tag : Ptr → Cmd Tag
  load_tag p s = elim (s.tag_at p) [ none ↦ none | some t ↦ some (t, s) ]

  abbrev pub put_tag : Ptr → Option Tag → Fs → Fs
  put_tag p t s = record s { tag_at = write s.tag_at p t }

  unfoldable pub store_tag : Ptr → Tag → Cmd (Unit {0})
  store_tag p t s = elim (s.tag_at p) [ none ↦ none | some _ ↦ some (tt, put_tag p (some t) s) ]

  unfoldable pub free_tag : Ptr → Cmd (Unit {0})
  free_tag p s = elim (s.tag_at p) [ none ↦ none | some _ ↦ some (tt, put_tag p none s) ]

  unfoldable pub new_tag : Tag → Cmd Ptr
  new_tag t s =
      some (s.next, record s { tag_at = write s.tag_at s.next (some t); next = s.next + 1 })

  unfoldable pub load_file : Ptr → Cmd File
  load_file q s = elim (s.file_at q) [ none ↦ none | some f ↦ some (f, s) ]

  abbrev pub put_file : Ptr → File → Fs → Fs
  put_file q f s = record s { file_at = write s.file_at q (some f) }

  unfoldable pub store_file : Ptr → File → Cmd (Unit {0})
  store_file q f s = elim (s.file_at q) [ none ↦ none | some _ ↦ some (tt, put_file q f s) ]

  unfoldable pub new_file : File → Cmd Ptr
  new_file f s =
      some (s.next, record s { file_at = write s.file_at s.next (some f); next = s.next + 1 })

  unfoldable pub load_fd : Ptr → Cmd FileDescriptor
  load_fd p s = elim (s.fd_at p) [ none ↦ none | some d ↦ some (d, s) ]

  unfoldable pub store_fd : Ptr → FileDescriptor → Cmd (Unit {0})
  store_fd p d s = elim (s.fd_at p) [
    | none ↦ none
    | some _ ↦ some (tt, record s { fd_at = write s.fd_at p (some d) })
  ]

  unfoldable pub free_fd : Ptr → Cmd (Unit {0})
  free_fd p s = elim (s.fd_at p) [
    | none ↦ none
    | some _ ↦ some (tt, record s { fd_at = write s.fd_at p none })
  ]

  unfoldable pub new_fd : FileDescriptor → Cmd Ptr
  new_fd d s = some (s.next, record s { fd_at = write s.fd_at s.next (some d); next = s.next + 1 })

  -- a call of the operating system
  abbrev pub syscall : {A : Type 0} → (O.World → A × O.World) → Cmd A
  syscall f s = let (a, w) = f s.world in some (a, record s { world = w })

  unfoldable pub each_entry : HashTable → (Bytes → Ptr → Cmd (Unit {0})) → Cmd (Unit {0})
  unfolding for_each
  each_entry h fun = for_each (ht_entries h) fun
