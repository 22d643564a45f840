-- ===== src/LowLevel/Callback/Making.antt =====
-- fuse_lowlevel/fuse_callback.c: the handlers that make and remove tags and files, and the start and
-- the stop of the session.
use tag_filesystem.Base.Store.{◌>>=◌, ◌>>◌, gets}
use tag_filesystem.Base.{ℕ, not, none, some, ◌++◌, Bytes, ltb, ◌==◌, if◌then◌else◌, codes, is_some}
use tag_filesystem.Cutil.HashTable.{Ptr, Uthash, ht_entry_count}
use tag_filesystem.Fuse.Os.{done, failed}
use tag_filesystem.Fuse.Util.{eperm, enoent, eexist}
use tag_filesystem.LowLevel.Callback.Answer.{fuse_reply_err, stat_into, answer_entry}
use tag_filesystem.LowLevel.Callback.Content.{enotdir}
use tag_filesystem.LowLevel.File.{file_get, file_get_or_create}
use tag_filesystem.LowLevel.Inode.{
  inode_init, tag_get, create_directory_inode, inode_get, tag_realpath, zero_attr,
}
use tag_filesystem.LowLevel.Os.{Os}
use tag_filesystem.LowLevel.Real.{realdir_add_files, realdir_parse_tags}
use tag_filesystem.LowLevel.State.{
  Cmd, invalid_tag, load_file, load_inode, store_inode, not_null, syscall,
}
use tag_filesystem.LowLevel.Tag.{tag_get_or_create, tag_remove, untag_file, tag_db_dump}

-- EIO
abbrev pub eio : ℕ
eio = 5

module _ ⦃U : Uthash⦄ ⦃O : Os⦄ where
  -- the part of `tag_unlink` behind the search for the file
  unfoldable pub unlink_file : ℕ → Ptr → Cmd (Unit {0})
  unlink_file parentnum f = do
    found ← inode_get parentnum
    i ← not_null found
    parent ← load_inode i
    if not parent.is_directory then fuse_reply_err eperm else (do
      selected ← not_null parent.selected_tags
      if ltb 1 (ht_entry_count selected) then fuse_reply_err eperm else (do
        name ← not_null parent.name
        t ← tag_get name
        if t == invalid_tag then fuse_reply_err eio else (do untag_file t f; fuse_reply_err 0)))

  unfoldable pub tag_unlink : ℕ → Bytes → Cmd (Unit {0})
  tag_unlink parentnum name = if parentnum == 1 then fuse_reply_err eperm else (do
    found ← file_get name
    elim found [ none ↦ fuse_reply_err enoent | some f ↦ unlink_file parentnum f ])

  -- the test for a missing tag is one for NULL, while `tag_get` gives INVALID_TAG
  unfoldable pub tag_rmdir : ℕ → Bytes → Cmd (Unit {0})
  tag_rmdir parentnum name = if not (parentnum == 1) then fuse_reply_err eperm else (do
    t ← tag_get name
    if t == 0
        then (do f ← file_get name; fuse_reply_err (if is_some f then enotdir else enoent))
        else (do tag_remove t; fuse_reply_err 0))

  -- the part of `tag_mkdir` behind the tests
  unfoldable pub make_tag : Bytes → Cmd (Unit {0})
  make_tag name = do
    t ← tag_get_or_create name
    root ← inode_get 1
    parent ← not_null root
    i ← create_directory_inode parent name
    res ← stat_into O.realdirpath zero_attr
    ino ← load_inode i
    answer_entry ino.number (record res.1 { st_ino = ino.number })

  unfoldable pub tag_mkdir : ℕ → Bytes → Cmd (Unit {0})
  tag_mkdir parentnum name = if not (parentnum == 1) then fuse_reply_err eperm else (do
    t ← tag_get name
    if not (t == invalid_tag) then fuse_reply_err eexist else make_tag name)

  -- the part of `tag_mknod` behind the call of `mknod`
  unfoldable pub answer_node : Bytes → Cmd (Unit {0})
  answer_node name = do
    q ← file_get_or_create name
    f ← load_file q
    ino ← load_inode f.ino
    res ← stat_into f.realpath ino.st
    let st = record res.1 { st_ino = ino.number }
    store_inode f.ino (record ino { st = st })
    answer_entry ino.number st

  unfoldable pub tag_mknod : ℕ → Bytes → ℕ → ℕ → Cmd (Unit {0})
  tag_mknod parent name mode rdev = if not (parent == 1) then fuse_reply_err eperm else (do
    t ← tag_get name
    if not (t == invalid_tag) then fuse_reply_err eexist else (do
      res ← syscall (λ w. O.mknod w (tag_realpath name) mode rdev)
      elim res [ failed e ↦ fuse_reply_err e | done _ ↦ answer_node name ]))

  -- `realdir_set_root`, which opens the directory, comes second and is left out
  unfoldable pub tag_init : Cmd (Unit {0})
  tag_init = do inode_init; realdir_add_files; realdir_parse_tags

  -- `%s` of NULL prints `(null)`
  unfoldable pub tag_exit : Cmd (Unit {0})
  tag_exit = do
    path ← gets (λ s. s.tagdbpath)
    let newtagfile = elim path [ none ↦ codes "(null)" | some p ↦ p ] ++ codes ".new"
    text ← tag_db_dump
    syscall (λ w. (tt, O.write_file w newtagfile text))
