-- ===== src/LowLevel/Callback/Content.antt =====
-- fuse_lowlevel/fuse_callback.c: opening and closing, reading and writing, ioctl.
use tag_filesystem.Base.Store.{pure, ◌>>=◌, ◌>>◌, gets}
use tag_filesystem.Base.{
  ℕ, ◌-◌, ◌%◌, ◌^◌, ◌||◌, none, some, ◌++◌, Bytes, ℤ, pos, negsuc, ltb, suc, not, ◌==◌,
  if◌then◌else◌, length, take, drop, replicate,
}
use tag_filesystem.Cutil.HashTable.{Ptr, Uthash}
use tag_filesystem.Fuse.Os.{done, failed}
use tag_filesystem.Fuse.TagFs.Attr.{strncpy}
use tag_filesystem.Fuse.TagFs.Content.{bufsize, TagIoctl, put_byte, tag_ioc_read_tags, is_compat}
use tag_filesystem.Fuse.Util.{eperm, enoent, einval, enosys}
use tag_filesystem.LowLevel.Callback.Answer.{fuse_reply_err, reply_buf_limited}
use tag_filesystem.LowLevel.File.{file_get_or_create, file_get_tags_string}
use tag_filesystem.LowLevel.FileDescriptor.{file_open, file_read, file_write, file_close}
use tag_filesystem.LowLevel.Inode.{inode_get}
use tag_filesystem.LowLevel.Os.{Os}
use tag_filesystem.LowLevel.State.{
  Cmd, reply_open, reply_write, reply_ioctl, load_file, load_inode, store_inode, not_null, reply,
}
use tag_filesystem.LowLevel.Tag.{tag_db_dump}

abbrev pub enotdir : ℕ
enotdir = 20

module _ ⦃U : Uthash⦄ ⦃O : Os⦄ where
  -- the branch of `tag_open` where the inode is there
  unfoldable pub open_inode : Ptr → ℕ → Cmd (Unit {0})
  open_inode i flags = do
    ino ← load_inode i
    name ← not_null ino.name
    q ← file_get_or_create name
    f ← load_file q
    fd ← file_open f flags
    elim fd [
      | failed e ↦ fuse_reply_err e
      | done fh ↦ do
        ino' ← load_inode i
        store_inode i (record ino' { nlookup = (suc ino'.nlookup) % 2 ^ 64 })
        reply (reply_open fh)
    ]

  -- without an inode the answer is the error number that an earlier call has left
  unfoldable pub tag_open : ℕ → ℕ → Cmd (Unit {0})
  tag_open number flags = do
    found ← inode_get number
    elim found [
      | none ↦ do e ← gets (λ s. O.errno s.world); fuse_reply_err e
      | some i ↦ open_inode i flags
    ]

  -- the handle is the address of the inode
  unfoldable pub tag_opendir : ℕ → Cmd (Unit {0})
  tag_opendir number = do
    found ← inode_get number
    elim found [
      | none ↦ fuse_reply_err enoent
      | some i ↦ do
        ino ← load_inode i
        if not ino.is_directory then fuse_reply_err enotdir else reply (reply_open i)
    ]

  unfoldable pub tag_releasedir : Cmd (Unit {0})
  tag_releasedir = fuse_reply_err 0

  -- the number n of an error -n, which is the result of `file_close`
  unfoldable pub opposite : ℤ → ℕ
  opposite (pos n) = 0
  opposite (negsuc n) = suc n

  unfoldable pub tag_release : ℕ → Cmd (Unit {0})
  tag_release fd = do res ← file_close fd; fuse_reply_err (opposite res)

  -- the result, and the bytes of `buffer`; the temporary file can be made
  unfoldable pub read_tag_file : ℕ → ℕ → Cmd (ℤ × Bytes)
  read_tag_file len off = do
    text ← tag_db_dump
    let bytes = take len (drop off text)
    pure (pos (length bytes), bytes ++ replicate (len - length bytes) 0)

  -- the answer to a read of `size` bytes
  unfoldable pub answer_read : ℤ × Bytes → ℕ → ℕ → Cmd (Unit {0})
  answer_read (negsuc e, buffer) size off = fuse_reply_err (suc e)
  answer_read (pos n, buffer) size off = reply_buf_limited buffer size off size

  unfoldable pub tag_read : ℕ → ℕ → ℕ → ℕ → Cmd (Unit {0})
  tag_read number size off fd = do
    found ← inode_get number
    elim found [
      | none ↦ fuse_reply_err enoent
      | some i ↦ do
        ino ← load_inode i
        res ← (if ino.is_tagfile then read_tag_file size off else file_read fd size off)
        answer_read res size off
    ]

  unfoldable pub answer_write : ℤ → Cmd (Unit {0})
  answer_write (negsuc e) = fuse_reply_err (suc e)
  answer_write (pos n) = reply (reply_write n)

  unfoldable pub tag_write : ℕ → Bytes → ℕ → ℕ → Cmd (Unit {0})
  tag_write number buf off fd = do
    found ← inode_get number
    elim found [
      | none ↦ fuse_reply_err enoent
      | some i ↦ do
        ino ← load_inode i
        if ino.is_tagfile
            then fuse_reply_err eperm
            else (do res ← file_write fd buf off; answer_write res)
    ]

  -- the part of `ioctl_read_tags` behind the string and its length
  unfoldable pub fill_ioctl : Bytes → ℕ → TagIoctl → Cmd (Unit {0})
  fill_ioctl str len in_buf = elim (put_byte (strncpy str bufsize) bufsize 0) [
    | none ↦ λ s. none
    | some buf ↦ reply (
        reply_ioctl 0
          (record in_buf { buf = buf; size = (if ltb bufsize len then bufsize else len) }))
  ]

  -- `len` is what the variable holds before it is set
  unfoldable pub ioctl_read_tags : ℕ → Ptr → TagIoctl → Cmd (Unit {0})
  ioctl_read_tags len f in_buf = do
    (str, len') ← file_get_tags_string f len
    fill_ioctl str len' in_buf

  unfoldable pub tag_ioctl : ℕ → ℕ → ℕ → ℕ → TagIoctl → Cmd (Unit {0})
  tag_ioctl len number cmd flags in_buf = do
    found ← inode_get number
    elim found [
      | none ↦ fuse_reply_err enoent
      | some i ↦ do
        ino ← load_inode i
        if ino.is_tagfile || ino.is_directory then fuse_reply_err einval else pure tt
        if is_compat flags then fuse_reply_err enosys else pure tt
        if cmd == tag_ioc_read_tags
            then (do
              name ← not_null ino.name
              f ← file_get_or_create name
              ioctl_read_tags len f in_buf)
            else fuse_reply_err einval
    ]
