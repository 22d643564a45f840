-- ===== src/LowLevel/Callback/Table.antt =====
-- fuse_lowlevel/fuse_callback.c: the table of the handlers, without `tag_init` and `tag_exit`, which are no
-- requests.
use tag_filesystem.Base.{ℕ, Bytes}
use tag_filesystem.Cutil.HashTable.{Ptr, Uthash}
use tag_filesystem.Fuse.TagFs.Content.{TagIoctl}
use tag_filesystem.LowLevel.Callback.Attr.{tag_forget, tag_lookup, tag_getattr, tag_setattr}
use tag_filesystem.LowLevel.Callback.Content.{
  tag_open, tag_opendir, tag_releasedir, tag_release, tag_read, tag_write, tag_ioctl,
}
use tag_filesystem.LowLevel.Callback.Dir.{tag_readdir}
use tag_filesystem.LowLevel.Callback.Linking.{tag_link, tag_rename}
use tag_filesystem.LowLevel.Callback.Making.{tag_unlink, tag_rmdir, tag_mkdir, tag_mknod}
use tag_filesystem.LowLevel.Os.{Os, Attr}
use tag_filesystem.LowLevel.State.{Cmd}

module _ ⦃U : Uthash⦄ ⦃O : Os⦄ where
  -- a request of libfuse, with the arguments of its handler
  pub data Request : Type 0 where
    lookup : ℕ → Bytes → Request
    forget : ℕ → ℕ → Request
    getattr : ℕ → Request
    setattr : ℕ → Attr → ℕ → Request
    open_file : ℕ → ℕ → Request
    read : ℕ → ℕ → ℕ → ℕ → Request
    write : ℕ → Bytes → ℕ → ℕ → Request
    release : ℕ → Request
    opendir : ℕ → Request
    readdir : ℕ → ℕ → ℕ → Ptr → Request
    releasedir : Request
    link : ℕ → ℕ → Bytes → Request
    unlink : ℕ → Bytes → Request
    rename : ℕ → Bytes → ℕ → Bytes → Request
    mkdir : ℕ → Bytes → Request
    rmdir : ℕ → Bytes → Request
    mknod : ℕ → Bytes → ℕ → ℕ → Request
    ioctl : ℕ → ℕ → ℕ → ℕ → TagIoctl → Request

  -- the table `tag_oper`
  unfoldable pub tag_oper : Request → Cmd (Unit {0})
  tag_oper (lookup parent name) = tag_lookup parent name
  tag_oper (forget number n) = tag_forget number n
  tag_oper (getattr number) = tag_getattr number
  tag_oper (setattr number attr to_set) = tag_setattr number attr to_set
  tag_oper (open_file number flags) = tag_open number flags
  tag_oper (read number size off fd) = tag_read number size off fd
  tag_oper (write number buf off fd) = tag_write number buf off fd
  tag_oper (release fd) = tag_release fd
  tag_oper (opendir number) = tag_opendir number
  tag_oper releasedir = tag_releasedir
  tag_oper (link number newparent newname) = tag_link number newparent newname
  tag_oper (unlink parent name) = tag_unlink parent name
  tag_oper (rename parent name newparent newname) = tag_rename parent name newparent newname
  tag_oper (mkdir parent name) = tag_mkdir parent name
  tag_oper (rmdir parent name) = tag_rmdir parent name
  tag_oper (mknod parent name mode rdev) = tag_mknod parent name mode rdev
  tag_oper (readdir number size off fh) = tag_readdir number size off fh
  tag_oper (ioctl len number cmd flags in_buf) = tag_ioctl len number cmd flags in_buf
