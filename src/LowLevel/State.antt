-- ===== src/LowLevel/State.antt =====
-- The objects of fuse_lowlevel/ and the store that holds them. A call that never returns, as one that
-- waits for a lock that its own thread holds, is the result `none`, like a fault.
pub mod Runs
use tag_filesystem.Base.Store.{Heap, write, Run, pure, ◌>>=◌, ◌>>◌, modify}
use tag_filesystem.Base.{ℕ, ◌+◌, Bool, Option, none, some, List, [], ◌∷◌, ◌++◌, Bytes}
use tag_filesystem.Cutil.HashTable.{Ptr, Uthash, HashTable}
use tag_filesystem.Fuse.TagFs.Content.{TagIoctl}
use tag_filesystem.LowLevel.Os.{Os, Attr}

-- `struct fuse_entry_param`, without the two timeouts, which are always 1.0
pub record Entry : Type 0 where
  pub ino : ℕ
  pub generation : ℕ
  pub attr : Attr

-- the calls of libfuse that answer a request
pub data Reply : Type 0 where
  reply_err : ℕ → Reply
  reply_none : Reply
  reply_entry : Entry → Reply
  reply_attr : Attr → Reply
  reply_open : ℕ → Reply
  reply_buf : Bytes → Reply
  reply_write : ℕ → Reply
  reply_ioctl : ℕ → TagIoctl → Reply

-- the address INVALID_TAG
abbrev pub invalid_tag : Ptr
invalid_tag = 0xdeadcafebeefbabe

module _ ⦃U : Uthash⦄ ⦃O : Os⦄ where
  -- `struct tag`; its member `ino` is never used
  pub record Tag : Type 0 where
    pub value : Bytes
    pub files : HashTable

  -- `struct file`
  pub record File : Type 0 where
    pub name : Bytes
    pub realpath : Bytes
    pub tags : HashTable
    pub ino : Ptr

  -- `struct inode`; `none` is NULL, and `tag` has `ntag` elements
  pub record Inode : Type 0 where
    pub number : ℕ
    pub is_tagfile : Bool
    pub is_directory : Bool
    pub st : Attr
    pub nlookup : ℕ
    pub selected_tags : Option HashTable
    pub name : Option Bytes
    pub realpath : Option Bytes
    pub tag : List Bytes

  -- the variables `tags`, `files`, `itable`, `next_ino`, the `number` of `next_gen_number`,
  -- `tagdbpath`, the heap, the world outside, and the answers that were given
  pub record Session : Type 0 where
    pub tags : HashTable
    pub files : HashTable
    pub itable : HashTable
    pub next_ino : ℕ
    pub next_gen : ℕ
    pub tagdbpath : Option Bytes
    pub tag_at : Heap Tag
    pub file_at : Heap File
    pub inode_at : Heap Inode
    pub next : Ptr
    pub world : O.World
    pub replies : List Reply

  abbrev pub Cmd : Type 0 → Type 0
  Cmd A = Run Session A

  unfoldable pub load_tag : Ptr → Cmd Tag
  load_tag p s = elim (s.tag_at p) [ none ↦ none | some t ↦ some (t, s) ]

  abbrev pub put_tag : Ptr → Option Tag → Session → Session
  put_tag p t s = record s { tag_at = write s.tag_at p t }

  unfoldable pub store_tag : Ptr → Tag → Cmd (Unit {0})
  store_tag p t s = elim (s.tag_at p) [ none ↦ none | some _ ↦ some (tt, put_tag p (some t) s) ]

  unfoldable pub free_tag : Ptr → Cmd (Unit {0})
  free_tag p s = elim (s.tag_at p) [ none ↦ none | some _ ↦ some (tt, put_tag p none s) ]

  unfoldable pub new_tag : Tag → Cmd Ptr
  new_tag t s =
      some (s.next, record s { tag_at = write s.tag_at s.next (some t); next = s.next + 1 })

  unfoldable pub load_file : Ptr → Cmd File
  load_file q s = elim (s.file_at q) [ none ↦ none | some f ↦ some (f, s) ]

  abbrev pub put_file : Ptr → File → Session → Session
  put_file q f s = record s { file_at = write s.file_at q (some f) }

  unfoldable pub store_file : Ptr → File → Cmd (Unit {0})
  store_file q f s = elim (s.file_at q) [ none ↦ none | some _ ↦ some (tt, put_file q f s) ]

  unfoldable pub new_file : File → Cmd Ptr
  new_file f s =
      some (s.next, record s { file_at = write s.file_at s.next (some f); next = s.next + 1 })

  unfoldable pub load_inode : Ptr → Cmd Inode
  load_inode i s = elim (s.inode_at i) [ none ↦ none | some ino ↦ some (ino, s) ]

  abbrev pub put_inode : Ptr → Option Inode → Session → Session
  put_inode i ino s = record s { inode_at = write s.inode_at i ino }

  unfoldable pub store_inode : Ptr → Inode → Cmd (Unit {0})
  store_inode i ino s = elim (s.inode_at i) [
    | none ↦ none
    | some _ ↦ some (tt, put_inode i (some ino) s)
  ]

  unfoldable pub free_inode : Ptr → Cmd (Unit {0})
  free_inode i s = elim (s.inode_at i) [ none ↦ none | some _ ↦ some (tt, put_inode i none s) ]

  unfoldable pub new_inode : Inode → Cmd Ptr
  new_inode ino s =
      some (s.next, record s { inode_at = write s.inode_at s.next (some ino); next = s.next + 1 })

  -- a read through a pointer that may be NULL
  abbrev pub not_null : {A : Type 0} → Option A → Cmd A
  not_null none s = none
  not_null (some a) s = some (a, s)

  -- a call of the operating system
  abbrev pub syscall : {A : Type 0} → (O.World → A × O.World) → Cmd A
  syscall f s = let (a, w) = f s.world in some (a, record s { world = w })

  -- a call `fuse_reply_…`
  unfoldable pub reply : Reply → Cmd (Unit {0})
  reply r = modify (λ s. record s { replies = s.replies ++ r ∷ [] })
