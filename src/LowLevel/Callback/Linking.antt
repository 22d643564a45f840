-- ===== src/LowLevel/Callback/Linking.antt =====
-- fuse_lowlevel/fuse_callback.c: the handlers that give a file the tags of a directory and take them
-- from it.
use tag_filesystem.Base.Store.{pure, ◌>>=◌, ◌>>◌}
use tag_filesystem.Base.{
  ℕ, not, ◌||◌, Option, some, List, [], ◌∷◌, Bytes, ltb, ◌==◌, if◌then◌else◌, str_eq, length,
}
use tag_filesystem.Cutil.HashTable.{Ptr, Uthash}
use tag_filesystem.Fuse.Util.{eperm, enoent}
use tag_filesystem.LowLevel.Callback.Answer.{fuse_reply_err, next_gen_number}
use tag_filesystem.LowLevel.Callback.Content.{enotdir}
use tag_filesystem.LowLevel.File.{file_get, file_get_or_create}
use tag_filesystem.LowLevel.Inode.{tag_get, inode_get}
use tag_filesystem.LowLevel.Os.{Os}
use tag_filesystem.LowLevel.State.{Cmd, Inode, reply_entry, load_inode, not_null, reply}
use tag_filesystem.LowLevel.Tag.{tag_file, untag_file}

module _ ⦃U : Uthash⦄ ⦃O : Os⦄ where
  -- the part of `tag_link` behind the tests
  unfoldable pub link_file : Inode → Option Bytes → Bytes → Cmd (Unit {0})
  link_file fileino parent_name name = do
    generation ← next_gen_number
    f ← file_get_or_create name
    tag ← not_null parent_name
    t ← tag_get tag
    tag_file t f
    reply
        (reply_entry (record { ino = fileino.number; generation = generation; attr = fileino.st }))

  unfoldable pub tag_link : ℕ → ℕ → Bytes → Cmd (Unit {0})
  tag_link number newparent newname = do
    parent ← inode_get newparent
    found ← inode_get number
    i ← not_null found
    fileino ← load_inode i
    if fileino.is_directory then fuse_reply_err eperm else (do
      name ← not_null fileino.name
      if not (str_eq newname name) then fuse_reply_err eperm else (do
        pi ← not_null parent
        p ← load_inode pi
        if not p.is_directory then fuse_reply_err enotdir else link_file fileino p.name name))

  -- the two loops of `tag_rename`
  unfoldable pub untag_all : List Bytes → Ptr → Cmd (Unit {0})
  untag_all [] f = pure tt
  untag_all (tag ∷ tags) f = do t ← tag_get tag; untag_file t f; untag_all tags f

  unfoldable pub tag_all : List Bytes → Ptr → Cmd (Unit {0})
  tag_all [] f = pure tt
  tag_all (tag ∷ tags) f = do t ← tag_get tag; tag_file t f; tag_all tags f

  -- the part of `tag_rename` where both directories and the file were found
  unfoldable pub rename_file : Inode → Inode → Ptr → Cmd (Unit {0})
  rename_file op np f =
      if op.number == 1 || np.number == 1 || ltb 1 (length op.tag) || ltb 1 (length np.tag)
      then fuse_reply_err eperm
      else (do untag_all op.tag f; tag_all np.tag f; fuse_reply_err 0)

  unfoldable pub rename_found : Option Ptr → Option Ptr → Option Ptr → Cmd (Unit {0})
  rename_found (some o) (some n) (some f) = do
    op ← load_inode o
    np ← load_inode n
    rename_file op np f
  rename_found _ _ _ = fuse_reply_err enoent

  unfoldable pub tag_rename : ℕ → Bytes → ℕ → Bytes → Cmd (Unit {0})
  tag_rename parent name newparent newname =
      if parent == newparent then fuse_reply_err eperm else (do
        op ← inode_get parent
        np ← inode_get newparent
        f ← file_get name
        rename_found op np f)
