-- ===== src/Sqlite/TagFs/Tagging.antt =====
-- fuse_sqlite3/tagfs.c: the operations that give tags to files and take them away.
use tag_filesystem.Base.{
  false, not, ◌||◌, none, some, Bytes, ℤ, pos, neg, is_negative, leb, ltb, ◌==◌, if◌then◌else◌,
}
use tag_filesystem.Cutil.HashTable.{Ptr, Uthash, ht_entry_count}
use tag_filesystem.Fuse.Os.{Os}
use tag_filesystem.Fuse.Util.{get_character_count, basenamedup, eperm, enoent, eexist}
use tag_filesystem.Sqlite.Database.{Sqlite}
use tag_filesystem.Sqlite.File.{file_get, file_get_or_create}
use tag_filesystem.Sqlite.State.{UserPath, invalid_tag, Cmd, pure, ◌>>=◌, ◌>>◌, each_entry}
use tag_filesystem.Sqlite.Tag.{tag_get, tag_get_or_create, tag_remove, tag_file, untag_file}
use tag_filesystem.Sqlite.TagFs.Attr.{getattr_intra}
use tag_filesystem.Sqlite.UserPath.{path_create}

module _ ⦃U : Uthash⦄ ⦃O : Os⦄ ⦃Q : Sqlite⦄ where
  unfoldable pub path_unlink : UserPath → Cmd ℤ
  path_unlink path = do
    found ← file_get path.filename
    elim found [
      | none ↦ pure (neg enoent)
      | some q ↦ do each_entry path.selected_tags (λ _ p. untag_file p q); pure (pos 0)
    ]

  unfoldable pub tag_unlink : Bytes → Cmd ℤ
  tag_unlink user_path =
      if leb (get_character_count user_path b'/') 1
      then pure (neg eperm)
      else (do path ← path_create user_path false; path_unlink path)

  -- the test `NULL == t`, on an address
  unfoldable pub rmdir_tag : Ptr → Cmd ℤ
  rmdir_tag p = if p == 0 then pure (neg enoent) else (do tag_remove p; pure (pos 0))

  unfoldable pub tag_rmdir : Bytes → Cmd ℤ
  unfolding rmdir_tag
  tag_rmdir user_path =
      if ltb 1 (get_character_count user_path b'/')
      then pure (neg eperm)
      else (do p ← tag_get (basenamedup user_path); rmdir_tag p)

  unfoldable pub tag_mkdir : Bytes → Cmd ℤ
  tag_mkdir user_path = if ltb 1 (get_character_count user_path b'/') then pure (neg eperm) else (do
    p ← tag_get (basenamedup user_path)
    if not (p == invalid_tag)
        then pure (neg eexist)
        else (do _ ← tag_get_or_create (basenamedup user_path); pure (pos 0)))

  unfoldable pub path_link : UserPath → UserPath → Cmd ℤ
  path_link ffrom fto = do
    (res, _) ← getattr_intra ffrom
    if is_negative res then pure res else (do
      q ← file_get_or_create ffrom.filename
      each_entry fto.selected_tags (λ _ p. tag_file p q)
      pure res)

  unfoldable pub tag_link : Bytes → Bytes → Cmd ℤ
  tag_link from to = do
    ffrom ← path_create from false
    fto ← path_create to false
    path_link ffrom fto

  -- the branch of `tag_rename` where both paths select one tag
  unfoldable pub rename_linked : UserPath → UserPath → Cmd ℤ
  rename_linked ffrom fto = do _ ← path_unlink ffrom; _ ← path_link ffrom fto; pure (pos 0)

  unfoldable pub tag_rename : Bytes → Bytes → Cmd ℤ
  tag_rename from to = do
    ffrom ← path_create from false
    fto ← path_create to false
    if not (ht_entry_count ffrom.selected_tags == 1) || not (ht_entry_count fto.selected_tags == 1)
        then pure (neg eperm)
        else rename_linked ffrom fto
