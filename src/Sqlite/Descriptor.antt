-- ===== src/Sqlite/Descriptor.antt =====
-- fuse_sqlite3/file_descriptor.c: what a handle of libfuse points to. path_delete only gives memory
-- back and is left out.
use tag_filesystem.Base.{
  ℕ, ◌-◌, Bool, true, false, Option, none, some, [], ◌++◌, Bytes, ℤ, pos, neg, str_eq, length,
  replicate,
}
use tag_filesystem.Cutil.HashTable.{Ptr, Uthash}
use tag_filesystem.Fuse.Descriptor.{ebadf}
use tag_filesystem.Fuse.Os.{Os, Result, done, failed}
use tag_filesystem.Fuse.Util.{tag_filename}
use tag_filesystem.Sqlite.Database.{Sqlite}
use tag_filesystem.Sqlite.File.{file_get}
use tag_filesystem.Sqlite.State.{
  UserPath, FileDescriptor, Cmd, pure, ◌>>=◌, ◌>>◌, load_fd, free_fd, new_fd, syscall,
}
use tag_filesystem.Sqlite.Tag.{tag_get}

module _ ⦃U : Uthash⦄ ⦃O : Os⦄ ⦃Q : Sqlite⦄ where
  abbrev pub fd_new : UserPath → Bool → Option Ptr → Option ℕ → FileDescriptor
  fd_new path is_tag target fh = record {
    path = path;
    is_tag = is_tag;
    is_tag_file = str_eq path.filename tag_filename;
    target = target;
    fh = fh;
  }

  -- `failed` is ERR_PTR; the allocation is taken to succeed
  unfoldable pub fd_open : UserPath → ℕ → Bool → Cmd (Result Ptr)
  fd_open path flags true = do
    p ← tag_get path.filename
    fd ← new_fd (fd_new path true (some p) none)
    pure (done fd)
  fd_open path flags false = do
    opened ← syscall (λ w. O.open_file w path.realpath flags)
    elim opened [
      | failed e ↦ pure (failed e)
      | done fh ↦ do
        file ← file_get path.filename
        fd ← new_fd (fd_new path false file (some fh))
        pure (done fd)
    ]

  -- `close(fd->fh)`, and the result of `fd_close`
  unfoldable pub close_handle : Option ℕ → Cmd ℤ
  close_handle none = pure (neg ebadf)
  close_handle (some fh) = do
    r ← syscall (λ w. O.close w fh)
    elim r [ done _ ↦ pure (pos 0) | failed e ↦ pure (neg e) ]

  unfoldable pub fd_close : Ptr → Cmd ℤ
  unfolding close_handle
  fd_close fd = do d ← load_fd fd; err ← close_handle d.fh; free_fd fd; pure err

  -- the bytes of `buffer` beside the result; the bytes behind what was read are zeroed
  unfoldable pub fd_read : Option ℕ → ℕ → ℕ → Cmd (ℤ × Bytes)
  fd_read none len off = pure (neg ebadf, [])
  fd_read (some fh) len off = do
    sought ← syscall (λ w. O.lseek w fh off)
    elim sought [
      | failed e ↦ pure (neg e, [])
      | done _ ↦ do
        r ← syscall (λ w. O.read w fh len)
        elim r [
          | failed e ↦ pure (neg e, [])
          | done bytes ↦ pure (pos (length bytes), bytes ++ replicate (len - length bytes) 0)
        ]
    ]

  unfoldable pub fd_write : Option ℕ → Bytes → ℕ → Cmd ℤ
  fd_write none buffer off = pure (neg ebadf)
  fd_write (some fh) buffer off = do
    sought ← syscall (λ w. O.lseek w fh off)
    elim sought [
      | failed e ↦ pure (neg e)
      | done _ ↦ do
        r ← syscall (λ w. O.write w fh buffer)
        elim r [ failed e ↦ pure (neg e) | done n ↦ pure (pos n) ]
    ]
