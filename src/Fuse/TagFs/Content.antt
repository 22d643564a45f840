-- ===== src/Fuse/TagFs/Content.antt =====
-- fuse/tagfs.c: contents of files, operations that go to the real file, ioctl, poll, start and stop.
use tag_filesystem.Base.{
  ℕ, zero, suc, ◌-◌, ◌%◌, Bool, ◌||◌, Option, none, some, [], ◌∷◌, ◌++◌, Bytes, ℤ, pos, neg, ltb,
  ◌==◌, if◌then◌else◌, str_eq, length, take, drop, replicate, codes,
}
use tag_filesystem.Cutil.HashTable.{Ptr, Uthash}
use tag_filesystem.Fuse.Descriptor.{fd_read, fd_write}
use tag_filesystem.Fuse.File.{file_get, file_get_tags_string}
use tag_filesystem.Fuse.Os.{Os, Result, done, failed}
use tag_filesystem.Fuse.State.{
  Cmd, pure, ◌>>=◌, ◌>>◌, load_file, store_file, load_fd, store_fd, syscall,
}
use tag_filesystem.Fuse.TagDb.{tag_db_dump, parse_tags_db}
use tag_filesystem.Fuse.TagFs.Attr.{strncpy, tag_getattr}
use tag_filesystem.Fuse.Util.{path_realpath, eperm, enoent, einval, enosys, eremote}

-- BUFSIZE of include/tagioc.h
abbrev pub bufsize : ℕ
bufsize = 1024

-- `struct tag_ioctl`; `buf` has `bufsize` bytes
pub record TagIoctl : Type 0 where
  pub size : ℕ
  pub off : ℕ
  pub buf : Bytes

-- `buf[i] = c`: `none` is a write out of bounds
unfoldable pub put_byte : Bytes → ℕ → ℕ → Option Bytes
put_byte [] i c = none
put_byte (x ∷ buf) zero c = some (c ∷ buf)
put_byte (x ∷ buf) (suc i) c = elim (put_byte buf i c) [ none ↦ none | some r ↦ some (x ∷ r) ]

-- _IOWR('E', 0, struct tag_ioctl), as the bit pattern of an `int`
abbrev pub tag_ioc_read_tags : ℕ
tag_ioc_read_tags = 0xc4104500

-- `flags & FUSE_IOCTL_COMPAT`
abbrev pub is_compat : ℕ → Bool
is_compat flags = flags % 2 == 1

module _ ⦃U : Uthash⦄ ⦃O : Os⦄ where
  -- what a call on a real file returns: 0, or the -1 of the system call itself
  abbrev pub raw_result : Result (Unit {0}) → ℤ
  raw_result (done _) = pos 0
  raw_result (failed e) = neg 1

  -- the temporary file can be made, and holds exactly the text of the dump
  unfoldable pub read_tag_file : ℕ → ℕ → Cmd (ℤ × Bytes)
  read_tag_file len off = do
    text ← tag_db_dump
    let bytes = take len (drop off text)
    pure (pos (length bytes), bytes ++ replicate (len - length bytes) 0)

  unfoldable pub tag_read : Ptr → ℕ → ℕ → Cmd (ℤ × Bytes)
  tag_read fh len off = do
    fd ← load_fd fh
    if fd.is_tag_file then read_tag_file len off else fd_read fd.fh len off

  unfoldable pub tag_write : Ptr → Bytes → ℕ → Cmd ℤ
  tag_write fh buffer off = do
    fd ← load_fd fh
    if fd.is_tag_file then pure (neg eperm) else fd_write fd.fh buffer off

  unfoldable pub tag_mknod : Bytes → ℕ → ℕ → Cmd ℤ
  tag_mknod user_path mode device s =
      let realpath = path_realpath user_path in
      if O.access s.world realpath
      then some (neg eremote, s)
      else (do r ← syscall (λ w. O.mknod w realpath mode device); pure (raw_result r)) s

  unfoldable pub tag_truncate : Bytes → ℕ → Cmd ℤ
  tag_truncate user_path len =
      if str_eq user_path (codes "/.tags") || str_eq user_path (codes ".tags")
      then pure (neg eperm)
      else (do r ← syscall (λ w. O.truncate w (path_realpath user_path) len); pure (raw_result r))

  unfoldable pub tag_chmod : Bytes → ℕ → Cmd ℤ
  tag_chmod user_path mode = do
    r ← syscall (λ w. O.chmod w (path_realpath user_path) mode)
    pure (raw_result r)

  unfoldable pub tag_chown : Bytes → ℕ → ℕ → Cmd ℤ
  tag_chown user_path user group = do
    r ← syscall (λ w. O.chown w (path_realpath user_path) user group)
    pure (raw_result r)

  unfoldable pub tag_utime : Bytes → ℕ → Cmd ℤ
  tag_utime user_path tb = do
    r ← syscall (λ w. O.utime w (path_realpath user_path) tb)
    pure (raw_result r)

  -- the part of `ioctl_read_tags` behind the string and its length
  unfoldable pub fill_ioctl : Bytes → ℕ → TagIoctl → Cmd (ℤ × TagIoctl)
  fill_ioctl str len arg = elim (put_byte (strncpy str bufsize) bufsize 0) [
    | none ↦ λ s. none
    | some buf ↦
        pure (pos 0, record arg { buf = buf; size = (if ltb bufsize len then bufsize else len) })
  ]

  unfoldable pub ioctl_read_tags : Ptr → TagIoctl → Cmd (ℤ × TagIoctl)
  ioctl_read_tags fh arg = do
    fd ← load_fd fh
    found ← file_get fd.path.filename
    elim found [
      | none ↦ pure (neg enoent, arg)
      | some q ↦ do (str, len) ← file_get_tags_string q; fill_ioctl str len arg
    ]

  unfoldable pub tag_ioctl : Ptr → ℕ → ℕ → TagIoctl → Cmd (ℤ × TagIoctl)
  tag_ioctl fh cmd flags arg = do
    fd ← load_fd fh
    if fd.is_tag || fd.is_tag_file
        then pure (neg einval, arg)
        else if is_compat flags
        then pure (neg enosys, arg)
        else if cmd == tag_ioc_read_tags
        then ioctl_read_tags fh arg
        else pure (neg einval, arg)

  -- the result, and what is written to `*reventsp`; `fd->file` is read whatever the descriptor is
  unfoldable pub tag_poll : Ptr → Ptr → Cmd (ℤ × ℕ)
  tag_poll fh ph = do
    fd ← load_fd fh
    elim fd.ph [ none ↦ pure tt | some old ↦ syscall (λ w. (tt, O.pollhandle_destroy w old)) ]
    store_fd fh (record fd { ph = some ph })
    elim fd.target [
      | none ↦ λ s. none
      | some q ↦ do
        f ← load_file q
        store_file q (record f { revents = 0 })
        pure (pos 0, f.revents)
    ]

  -- the part of `set_root_directory` behind the checks of the path
  unfoldable pub set_root_directory : Cmd (Unit {0})
  set_root_directory = parse_tags_db O.tagdbpath tag_getattr

  unfoldable pub save_tag_db : Cmd (Unit {0})
  save_tag_db = do
    text ← tag_db_dump
    syscall (λ w. (tt, O.write_file w (O.tagdbpath ++ codes ".new") text))
