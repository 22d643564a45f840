-- ===== src/LowLevel/Os.antt =====
-- What fuse_lowlevel/ calls of the operating system and of libfuse.
use tag_filesystem.Base.{ℕ, Bool, ◌≡◌, Option, List, Bytes, length}
use tag_filesystem.Fuse.Os.{Dirent, Result}

pub record Timespec : Type 0 where
  pub tv_sec : ℕ
  pub tv_nsec : ℕ

-- the fields of `struct stat` that the program reads or writes
pub record Attr : Type 0 where
  -- S_ISDIR(st_mode)
  pub is_dir : Bool
  pub st_mode : ℕ
  pub st_ino : ℕ
  pub st_size : ℕ
  pub st_atim : Timespec
  pub st_mtim : Timespec

pub record Os : Type 1 where
  pub World : Type 0
  -- the variable `errno` of the C library
  pub errno : World → ℕ
  pub stat : World → Bytes → Result Attr × World
  -- rewinddir, then readdir up to NULL, on `realdir`
  pub readdir : World → List Dirent
  pub open_file : World → Bytes → ℕ → Result ℕ × World
  pub close : World → ℕ → Result (Unit {0}) × World
  pub lseek : World → ℕ → ℕ → Result (Unit {0}) × World
  -- `read` returns the bytes that it stored
  pub read : World → ℕ → ℕ → Result Bytes × World
  pub write : World → ℕ → Bytes → Result ℕ × World
  pub mknod : World → Bytes → ℕ → ℕ → Result (Unit {0}) × World
  -- the results of these two are not looked at
  pub chmod : World → Bytes → ℕ → World
  pub utimensat : World → Bytes → Timespec → Timespec → World
  -- fopen, fgets up to NULL, fclose: the contents, if the file can be opened
  pub read_file : World → Bytes → Option Bytes
  -- fopen for writing, fprintf of the text, fclose
  pub write_file : World → Bytes → Bytes → World
  -- the bytes of `fuse_add_direntry` for a name, an inode number and an offset, and their number
  pub direntry : Bytes → ℕ → ℕ → Bytes
  pub direntry_size : Bytes → ℕ
  pub length-direntry :
      (name : Bytes) (ino off : ℕ) → length (direntry name ino off) ≡ direntry_size name
  -- the variable `realdirpath`
  pub realdirpath : Bytes
