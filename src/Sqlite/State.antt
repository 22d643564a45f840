-- ===== src/Sqlite/State.antt =====
-- The objects of fuse_sqlite3/ and the store that holds them. An address that was never given out, or
-- was freed, holds nothing, and a read through it is a fault, the result `none`; `exit` is `none` too.
unfoldable pub use tag_filesystem.Base.Store.{
  Heap, write, Run, pure, ◌>>=◌, ◌>>◌, gets, modify, for_each,
}
use tag_filesystem.Base.{ℕ, ◌+◌, Bool, Option, none, some, Bytes}
use tag_filesystem.Cutil.HashTable.{Ptr, Uthash, HashTable, ht_entries}
use tag_filesystem.Fuse.Os.{Os}
use tag_filesystem.Sqlite.Database.{StepResult, Sqlite}

-- INVALID_TAG, an address that is never given out
abbrev pub invalid_tag : Ptr
invalid_tag = 0xdeadcafebeefbabe

-- `struct tag`; an `id` is the bit pattern of an `int`
pub record Tag : Type 0 where
  pub id : ℕ
  pub value : Bytes

-- `struct file`
pub record File : Type 0 where
  pub id : ℕ
  pub name : Bytes
  pub realpath : Bytes

module _ ⦃U : Uthash⦄ where
  -- `struct path`, which belongs to one call or to one descriptor: passed as a value
  pub record UserPath : Type 0 where
    pub depth : ℕ
    pub realpath : Bytes
    pub virtpath : Bytes
    pub virtdirpath : Bytes
    pub filename : Bytes
    pub selected_tags : HashTable

  -- `struct file_descriptor`; the members `file` and `tag` share their place, and `none` is NULL. The
  -- `fh` of a directory is -1.
  pub record FileDescriptor : Type 0 where
    pub path : UserPath
    pub is_tag : Bool
    pub is_tag_file : Bool
    pub target : Option Ptr
    pub fh : Option ℕ

  -- the variables `tags` of tag.c and `files` of file.c, the next numbers that next_tag_id and
  -- next_file_id give out, the heap, the database, and the world outside
  pub record Fs ⦃O : Os⦄ ⦃Q : Sqlite⦄ : Type 0 where
    pub tags : HashTable
    pub files : HashTable
    pub tag_at : Heap Tag
    pub file_at : Heap File
    pub fd_at : Heap FileDescriptor
    pub next : Ptr
    pub next_tag : ℕ
    pub next_file : ℕ
    pub db : Q.Db
    pub world : O.World

  module _ ⦃O : Os⦄ ⦃Q : Sqlite⦄ where
    abbrev pub Cmd : Type 0 → Type 0
    Cmd A = Run Fs A

    unfoldable pub load_tag : Ptr → Cmd Tag
    load_tag p s = elim (s.tag_at p) [ none ↦ none | some t ↦ some (t, s) ]

    unfoldable pub free_tag : Ptr → Cmd (Unit {0})
    free_tag p s = elim (s.tag_at p) [
      | none ↦ none
      | some _ ↦ some (tt, record s { tag_at = write s.tag_at p none })
    ]

    unfoldable pub new_tag : Tag → Cmd Ptr
    new_tag t s =
        some (s.next, record s { tag_at = write s.tag_at s.next (some t); next = s.next + 1 })

    unfoldable pub load_file : Ptr → Cmd File
    load_file q s = elim (s.file_at q) [ none ↦ none | some f ↦ some (f, s) ]

    unfoldable pub new_file : File → Cmd Ptr
    new_file f s =
        some (s.next, record s { file_at = write s.file_at s.next (some f); next = s.next + 1 })

    unfoldable pub load_fd : Ptr → Cmd FileDescriptor
    load_fd p s = elim (s.fd_at p) [ none ↦ none | some d ↦ some (d, s) ]

    unfoldable pub free_fd : Ptr → Cmd (Unit {0})
    free_fd p s = elim (s.fd_at p) [
      | none ↦ none
      | some _ ↦ some (tt, record s { fd_at = write s.fd_at p none })
    ]

    unfoldable pub new_fd : FileDescriptor → Cmd Ptr
    new_fd d s =
        some (s.next, record s { fd_at = write s.fd_at s.next (some d); next = s.next + 1 })

    -- a call of the operating system
    abbrev pub syscall : {A : Type 0} → (O.World → A × O.World) → Cmd A
    syscall f s = let (a, w) = f s.world in some (a, record s { world = w })

    -- sqlite3_prepare_v2 and sqlite3_step on `tag_db`
    abbrev pub prepare : Bytes → Cmd Q.Stmt
    prepare query s = some (Q.prepare s.db query, s)

    abbrev pub step : Q.Stmt → Cmd (StepResult × Q.Stmt)
    step stmt s =
        let (ret, (stmt', db)) = Q.step s.db stmt in some ((ret, stmt'), record s { db = db })

    -- DB_BIND_TEXT and DB_BIND_INT, which end the program where the binding fails
    unfoldable pub db_bind_text : Q.Stmt → Bytes → Bytes → Cmd Q.Stmt
    db_bind_text stmt name text s = elim (Q.bind_text stmt name text) [
      | none ↦ none
      | some stmt' ↦ some (stmt', s)
    ]

    unfoldable pub db_bind_int : Q.Stmt → Bytes → ℕ → Cmd Q.Stmt
    db_bind_int stmt name n s = elim (Q.bind_int stmt name n) [
      | none ↦ none
      | some stmt' ↦ some (stmt', s)
    ]

    unfoldable pub each_entry : HashTable → (Bytes → Ptr → Cmd (Unit {0})) → Cmd (Unit {0})
    unfolding for_each
    each_entry h fun = for_each (ht_entries h) fun
