-- ===== src/Sqlite/Serving.antt =====
-- fuse_sqlite3/tagfs.c, the table `tag_oper`: its operations, as libfuse calls them, one after
-- the other.
pub mod Steps
pub mod Outside
pub mod Descriptors
pub mod Directories
pub mod Contents
pub mod Paths
pub mod Tagging
pub mod Safety
use tag_filesystem.Base.{ℕ, pos, neg, List, [], ◌∷◌, Bytes, ℤ}
use tag_filesystem.Cutil.HashTable.{Ptr, Uthash}
use tag_filesystem.Fuse.Os.{Os, Result, done, failed}
use tag_filesystem.Fuse.TagFs.Content.{TagIoctl}
use tag_filesystem.Sqlite.Database.{Sqlite}
use tag_filesystem.Sqlite.State.{Cmd, pure, ◌>>=◌}
use tag_filesystem.Sqlite.TagFs.Attr.{
  tag_getattr, tag_fgetattr, tag_open_file, tag_open_dir, tag_release_generic,
}
use tag_filesystem.Sqlite.TagFs.Content.{
  tag_mknod, tag_truncate, tag_chmod, tag_chown, tag_utime, tag_read, tag_write, tag_ioctl,
}
use tag_filesystem.Sqlite.TagFs.Dir.{tag_readdir}
use tag_filesystem.Sqlite.TagFs.Tagging.{tag_link, tag_unlink, tag_rmdir, tag_mkdir, tag_rename}

-- the entries of the table, with their arguments
pub data Call : Type 0 where
  getattr_call : Bytes → Call
  link_call : Bytes → Bytes → Call
  unlink_call : Bytes → Call
  rmdir_call : Bytes → Call
  mkdir_call : Bytes → Call
  rename_call : Bytes → Bytes → Call
  open_call : Bytes → ℕ → Call
  opendir_call : Bytes → ℕ → Call
  -- also releasedir, for the same function
  release_call : Ptr → Call
  fgetattr_call : Ptr → Call
  mknod_call : Bytes → ℕ → ℕ → Call
  truncate_call : Bytes → ℕ → Call
  chmod_call : Bytes → ℕ → Call
  chown_call : Bytes → ℕ → ℕ → Call
  utime_call : Bytes → ℕ → Call
  read_call : Ptr → ℕ → ℕ → Call
  write_call : Ptr → Bytes → ℕ → Call
  -- with the fuel for the rows of the database
  readdir_call : ℕ → Ptr → Call
  -- with the variable that `ioctl_read_tags` does not set
  ioctl_call : Ptr → ℕ → ℕ → ℕ → TagIoctl → Call

-- the result of an open, where the descriptor goes to `fi->fh`
abbrev pub open_result : Result Ptr → ℤ
open_result (done fd) = pos 0
open_result (failed e) = neg e

module _ ⦃U : Uthash⦄ ⦃O : Os⦄ ⦃Q : Sqlite⦄ where
  -- the function that the table has for the call
  unfoldable pub handle : Call → Cmd ℤ
  handle (getattr_call path) = do (res, _) ← tag_getattr path; pure res
  handle (link_call from to) = tag_link from to
  handle (unlink_call path) = tag_unlink path
  handle (rmdir_call path) = tag_rmdir path
  handle (mkdir_call path) = tag_mkdir path
  handle (rename_call from to) = tag_rename from to
  handle (open_call path flags) = do r ← tag_open_file path flags; pure (open_result r)
  handle (opendir_call path flags) = do r ← tag_open_dir path flags; pure (open_result r)
  handle (release_call fh) = tag_release_generic fh
  handle (fgetattr_call fh) = do (res, _) ← tag_fgetattr fh; pure res
  handle (mknod_call path mode device) = tag_mknod path mode device
  handle (truncate_call path len) = tag_truncate path len
  handle (chmod_call path mode) = tag_chmod path mode
  handle (chown_call path user group) = tag_chown path user group
  handle (utime_call path times) = tag_utime path times
  handle (read_call fh len off) = do (res, _) ← tag_read fh len off; pure res
  handle (write_call fh buffer off) = tag_write fh buffer off
  handle (readdir_call fuel fh) = do (res, _) ← tag_readdir fuel fh []; pure res
  handle (ioctl_call fh cmd flags len arg) = do (res, _) ← tag_ioctl fh cmd flags len arg; pure res

  -- the calls in this order
  unfoldable pub serve : List Call → Cmd (List ℤ)
  serve [] = pure []
  serve (c ∷ cs) = do r ← handle c; rs ← serve cs; pure (r ∷ rs)
