-- ===== src/Fuse/Os.antt =====
-- What the file system calls of the operating system and of libfuse. All of it acts on one state
-- `World`, and a call that can fail returns its error number.
use tag_filesystem.Base.{ℕ, Bool, Option, List, Bytes}
use tag_filesystem.Cutil.HashTable.{Ptr}

-- the fields of `struct stat` that the program reads or writes
pub record Stat : Type 0 where
  -- S_ISDIR(st_mode)
  pub is_dir : Bool
  pub st_size : ℕ

pub record Dirent : Type 0 where
  pub d_name : Bytes
  -- d_type == DT_DIR
  pub is_dir : Bool

pub data Result (A : Type 0) : Type 0 where
  done : A → Result A
  -- -1, with errno
  failed : ℕ → Result A

pub record Os : Type 1 where
  pub World : Type 0
  pub stat : World → Bytes → Result Stat
  -- rewinddir, then readdir up to NULL, on `realdir`
  pub readdir : World → List Dirent
  pub open_file : World → Bytes → ℕ → Result ℕ × World
  pub close : World → ℕ → Result (Unit {0}) × World
  pub lseek : World → ℕ → ℕ → Result (Unit {0}) × World
  -- `read` returns the bytes that it stored
  pub read : World → ℕ → ℕ → Result Bytes × World
  pub write : World → ℕ → Bytes → Result ℕ × World
  -- access(path, F_OK) == 0
  pub access : World → Bytes → Bool
  pub mknod : World → Bytes → ℕ → ℕ → Result (Unit {0}) × World
  pub truncate : World → Bytes → ℕ → Result (Unit {0}) × World
  pub chmod : World → Bytes → ℕ → Result (Unit {0}) × World
  pub chown : World → Bytes → ℕ → ℕ → Result (Unit {0}) × World
  pub utime : World → Bytes → ℕ → Result (Unit {0}) × World
  -- fopen, fgets up to NULL, fclose: the contents, if the file can be opened
  pub read_file : World → Bytes → Option Bytes
  -- fopen for writing, fprintf of the text, fclose
  pub write_file : World → Bytes → Bytes → World
  pub notify_poll : World → Ptr → World
  pub pollhandle_destroy : World → Ptr → World
  -- the variable `realdirpath`
  pub realdirpath : Bytes
  -- the variable `tagdbpath`
  pub tagdbpath : Bytes
