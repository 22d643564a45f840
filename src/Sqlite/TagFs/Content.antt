-- ===== src/Sqlite/TagFs/Content.antt =====
-- fuse_sqlite3/tagfs.c: contents of files, operations that go to the real file, ioctl, start and stop.
use tag_filesystem.Base.{
  ℕ, ◌-◌, ◌||◌, none, some, ◌++◌, Bytes, ℤ, pos, neg, ◌==◌, ltb, if◌then◌else◌, str_eq, length,
  take, drop, replicate, codes,
}
use tag_filesystem.Cutil.HashTable.{Ptr, Uthash}
use tag_filesystem.Fuse.Os.{Os}
use tag_filesystem.Fuse.TagFs.Attr.{strncpy}
use tag_filesystem.Fuse.TagFs.Content.{
  bufsize, TagIoctl, put_byte, tag_ioc_read_tags, is_compat, raw_result,
}
use tag_filesystem.Fuse.Util.{path_realpath, eperm, enoent, einval, enosys, eremote}
use tag_filesystem.Sqlite.Database.{Sqlite}
use tag_filesystem.Sqlite.Descriptor.{fd_read, fd_write}
use tag_filesystem.Sqlite.File.{file_get, file_get_tags_string}
use tag_filesystem.Sqlite.State.{Cmd, pure, ◌>>=◌, load_fd, syscall}
use tag_filesystem.Sqlite.Tag.{tag_db_dump}
use tag_filesystem.Sqlite.TagDb.{parse_tags_db}
use tag_filesystem.Sqlite.TagFs.Attr.{tag_getattr}

module _ ⦃U : Uthash⦄ ⦃O : Os⦄ ⦃Q : Sqlite⦄ where
  -- the temporary file can be made, and holds exactly the text of the dump
  unfoldable pub read_tag_file : ℕ → ℕ → Cmd (ℤ × Bytes)
  read_tag_file len off = do
    text ← tag_db_dump
    let bytes = take len (drop off text)
    pure (pos (length bytes), bytes ++ replicate (len - length bytes) 0)

  unfoldable pub tag_read : Ptr → ℕ → ℕ → Cmd (ℤ × Bytes)
  unfolding read_tag_file
  tag_read fh len off = do
    fd ← load_fd fh
    if fd.is_tag_file then read_tag_file len off else fd_read fd.fh len off

  unfoldable pub tag_write : Ptr → Bytes → ℕ → Cmd ℤ
  tag_write fh buffer off = do
    fd ← load_fd fh
    if fd.is_tag_file then pure (neg eperm) else fd_write fd.fh buffer off

  unfoldable pub tag_mknod : Bytes → ℕ → ℕ → Cmd ℤ
  tag_mknod user_path mode device s =
      let realpath = path_realpath user_path in
      if O.access s.world realpath
      then some (neg eremote, s)
      else (do r ← syscall (λ w. O.mknod w realpath mode device); pure (raw_result r)) s

  unfoldable pub tag_truncate : Bytes → ℕ → Cmd ℤ
  tag_truncate user_path len =
      if str_eq user_path (codes "/.tags") || str_eq user_path (codes ".tags")
      then pure (neg eperm)
      else (do r ← syscall (λ w. O.truncate w (path_realpath user_path) len); pure (raw_result r))

  unfoldable pub tag_chmod : Bytes → ℕ → Cmd ℤ
  tag_chmod user_path mode = do
    r ← syscall (λ w. O.chmod w (path_realpath user_path) mode)
    pure (raw_result r)

  unfoldable pub tag_chown : Bytes → ℕ → ℕ → Cmd ℤ
  tag_chown user_path user group = do
    r ← syscall (λ w. O.chown w (path_realpath user_path) user group)
    pure (raw_result r)

  unfoldable pub tag_utime : Bytes → ℕ → Cmd ℤ
  tag_utime user_path times = do
    r ← syscall (λ w. O.utime w (path_realpath user_path) times)
    pure (raw_result r)

  -- the part of `ioctl_read_tags` behind the string; `len` is the variable that was never set
  unfoldable pub fill_ioctl : Bytes → ℕ → TagIoctl → Cmd (ℤ × TagIoctl)
  fill_ioctl str len arg = elim (put_byte (strncpy str bufsize) bufsize 0) [
    | none ↦ λ s. none
    | some buf ↦
        pure (pos 0, record arg { buf = buf; size = (if ltb bufsize len then bufsize else len) })
  ]

  unfoldable pub ioctl_read_tags : Ptr → ℕ → TagIoctl → Cmd (ℤ × TagIoctl)
  unfolding fill_ioctl
  ioctl_read_tags fh len arg = do
    fd ← load_fd fh
    found ← file_get fd.path.filename
    elim found [
      | none ↦ pure (neg enoent, arg)
      | some q ↦ do str ← file_get_tags_string q; fill_ioctl str len arg
    ]

  -- `len` is what the stack has in that variable
  unfoldable pub tag_ioctl : Ptr → ℕ → ℕ → ℕ → TagIoctl → Cmd (ℤ × TagIoctl)
  unfolding ioctl_read_tags
  tag_ioctl fh cmd flags len arg = do
    fd ← load_fd fh
    if fd.is_tag || fd.is_tag_file
        then pure (neg einval, arg)
        else if is_compat flags
        then pure (neg enosys, arg)
        else if cmd == tag_ioc_read_tags
        then ioctl_read_tags fh len arg
        else pure (neg einval, arg)

  -- the part of `set_root_directory` behind the checks of the path
  unfoldable pub set_root_directory : Cmd (Unit {0})
  set_root_directory = parse_tags_db O.tagdbpath tag_getattr

  unfoldable pub save_tag_db : Cmd (Unit {0})
  save_tag_db = do
    text ← tag_db_dump
    syscall (λ w. (tt, O.write_file w (O.tagdbpath ++ codes ".new") text))
