-- ===== src/Fuse/Descriptor.antt =====
-- fuse/file_descriptor.c: what a handle of libfuse points to.
use tag_filesystem.Base.{
  ℕ, ◌-◌, Bool, true, false, not, Option, none, some, [], ◌++◌, Bytes, ℤ, pos, neg, if◌then◌else◌,
  str_eq, length, replicate, codes,
}
use tag_filesystem.Cutil.HashTable.{Ptr, Uthash}
use tag_filesystem.Fuse.File.{file_get, file_add_descriptor, file_remove_descriptor}
use tag_filesystem.Fuse.Os.{Os, Result, done, failed}
use tag_filesystem.Fuse.State.{
  UserPath, FileDescriptor, Cmd, pure, ◌>>=◌, ◌>>◌, load_tag, load_fd, free_fd, new_fd, syscall,
}
use tag_filesystem.Fuse.Tag.{tag_get}
use tag_filesystem.Fuse.UserPath.{path_delete}
use tag_filesystem.Fuse.Util.{enoent, tag_filename}

-- the error number of a descriptor that is not open, as -1 is not
abbrev pub ebadf : ℕ
ebadf = 9

module _ ⦃U : Uthash⦄ ⦃O : Os⦄ where
  -- the tag of a directory that is opened: `done none` for the root
  unfoldable pub open_tag : UserPath → Cmd (Result (Option Ptr))
  open_tag path =
      if not (str_eq path.virtpath (codes "/"))
      then (do
        found ← tag_get path.filename
        elim found [
          | none ↦ pure (failed enoent)
          | some p ↦ do
            t ← load_tag p
            if not t.in_use then pure (failed enoent) else pure (done (some p))
        ])
      else pure (done none)

  fd_new : UserPath → Bool → Option Ptr → Option ℕ → FileDescriptor
  fd_new path is_tag target fh = record {
    path = path;
    is_tag = is_tag;
    is_tag_file = str_eq path.filename tag_filename;
    ph = none;
    target = target;
    fh = fh;
  }

  -- `failed` is ERR_PTR; the allocation is taken to succeed
  unfoldable pub fd_open : UserPath → ℕ → Bool → Cmd (Result Ptr)
  unfolding fd_new
  fd_open path flags true = do
    opened ← open_tag path
    elim opened [
      | failed e ↦ pure (failed e)
      | done t ↦ do fd ← new_fd (fd_new path true t none); pure (done fd)
    ]
  fd_open path flags false = do
    opened ← syscall (λ w. O.open_file w path.realpath flags)
    elim opened [
      | failed e ↦ pure (failed e)
      | done fh ↦ do
        file ← file_get path.filename
        elim file [
          -- `file_add_descriptor` on NULL
          | none ↦ λ s. none
          | some q ↦ do
            fd ← new_fd (fd_new path false (some q) (some fh))
            file_add_descriptor q fd
            pure (done fd)
        ]
    ]

  -- `close(fd->fh)`, and the result of `fd_close`
  unfoldable pub close_handle : Option ℕ → Cmd ℤ
  close_handle none = pure (neg ebadf)
  close_handle (some fh) = do
    r ← syscall (λ w. O.close w fh)
    elim r [ done _ ↦ pure (pos 0) | failed e ↦ pure (neg e) ]

  abbrev destroy_pollhandle : Option Ptr → Cmd (Unit {0})
  destroy_pollhandle none = pure tt
  destroy_pollhandle (some ph) = syscall (λ w. (tt, O.pollhandle_destroy w ph))

  abbrev remove_from_file : Ptr → Option Ptr → Cmd (Unit {0})
  remove_from_file fd none = λ s. none
  remove_from_file fd (some q) = file_remove_descriptor q fd

  unfoldable pub fd_close : Ptr → Cmd ℤ
  fd_close fd = do
    d ← load_fd fd
    err ← close_handle d.fh
    path_delete d.path
    destroy_pollhandle d.ph
    if d.is_tag then pure tt else remove_from_file fd d.target
    free_fd fd
    pure err

  -- the bytes of `buffer` beside the result; the bytes behind what was read are zeroed
  unfoldable pub fd_read : Option ℕ → ℕ → ℕ → Cmd (ℤ × Bytes)
  fd_read none len off = pure (neg ebadf, [])
  fd_read (some fh) len off = do
    sought ← syscall (λ w. O.lseek w fh off)
    elim sought [
      | failed e ↦ pure (neg e, [])
      | done _ ↦ do
        r ← syscall (λ w. O.read w fh len)
        elim r [
          | failed e ↦ pure (neg e, [])
          | done bytes ↦ pure (pos (length bytes), bytes ++ replicate (len - length bytes) 0)
        ]
    ]

  unfoldable pub fd_write : Option ℕ → Bytes → ℕ → Cmd ℤ
  fd_write none buffer off = pure (neg ebadf)
  fd_write (some fh) buffer off = do
    sought ← syscall (λ w. O.lseek w fh off)
    elim sought [
      | failed e ↦ pure (neg e)
      | done _ ↦ do
        r ← syscall (λ w. O.write w fh buffer)
        elim r [ failed e ↦ pure (neg e) | done n ↦ pure (pos n) ]
    ]
