-- ===== src/Fuse/TagFs/Tagging.antt =====
-- fuse/tagfs.c: the operations that give tags to files and take them away.
use tag_filesystem.Base.{
  true, false, not, ◌||◌, none, some, Bytes, ℤ, pos, neg, is_negative, leb, ltb, ◌==◌,
  if◌then◌else◌,
}
use tag_filesystem.Cutil.HashTable.{Ptr, Uthash, ht_entry_count}
use tag_filesystem.Fuse.File.{file_get, file_get_or_create}
use tag_filesystem.Fuse.Os.{Os}
use tag_filesystem.Fuse.State.{UserPath, Cmd, pure, ◌>>=◌, ◌>>◌, load_tag, store_tag, each_entry}
use tag_filesystem.Fuse.Tag.{tag_get, tag_get_or_create, tag_remove, tag_file, untag_file}
use tag_filesystem.Fuse.TagFs.Attr.{getattr_intra}
use tag_filesystem.Fuse.UserPath.{path_create, path_delete}
use tag_filesystem.Fuse.Util.{get_character_count, basenamedup, eperm, enoent, eexist}

module _ ⦃U : Uthash⦄ ⦃O : Os⦄ where
  -- `remove_tag` of `path_unlink`
  unfoldable pub unlink_tag : Ptr → Ptr → Cmd (Unit {0})
  unlink_tag q p = do
    untag_file p q
    t ← load_tag p
    if ht_entry_count t.files == 0 then tag_remove p else pure tt

  unfoldable pub path_unlink : UserPath → Cmd ℤ
  path_unlink path = do
    found ← file_get path.filename
    elim found [
      | none ↦ pure (neg enoent)
      | some q ↦ do each_entry path.selected_tags (λ _ p. unlink_tag q p); pure (pos 0)
    ]

  unfoldable pub tag_unlink : Bytes → Cmd ℤ
  tag_unlink user_path =
      if leb (get_character_count user_path b'/') 1 then pure (neg eperm) else (do
        path ← path_create user_path false
        res ← path_unlink path
        path_delete path
        pure res)

  unfoldable pub tag_rmdir_noop : Bytes → Cmd ℤ
  tag_rmdir_noop user_path = pure (pos 0)

  unfoldable pub tag_rmdir : Bytes → Cmd ℤ
  tag_rmdir user_path = if ltb 1 (get_character_count user_path b'/') then pure (neg eperm) else (do
    found ← tag_get (basenamedup user_path)
    elim found [ none ↦ pure (neg enoent) | some p ↦ do tag_remove p; pure (pos 0) ])

  unfoldable pub tag_noop_mkdir : Bytes → Cmd ℤ
  tag_noop_mkdir user_path = pure (pos 0)

  unfoldable pub tag_mkdir : Bytes → Cmd ℤ
  tag_mkdir user_path = if ltb 1 (get_character_count user_path b'/') then pure (neg eperm) else (do
    found ← tag_get (basenamedup user_path)
    elim found [
      | some p ↦ do
        t ← load_tag p
        if t.in_use
            then pure (neg eexist)
            else (do store_tag p (record t { in_use = true }); pure (pos 0))
      | none ↦ do _ ← tag_get_or_create (basenamedup user_path); pure (pos 0)
    ])

  unfoldable pub path_link : UserPath → UserPath → Cmd ℤ
  path_link ffrom fto = do
    (res, _) ← getattr_intra ffrom
    if is_negative res then pure res else (do
      q ← file_get_or_create ffrom.filename
      each_entry fto.selected_tags (λ _ p. tag_file p q)
      pure res)

  unfoldable pub tag_link : Bytes → Bytes → Cmd ℤ
  tag_link from to = do
    ffrom ← path_create from false
    fto ← path_create to false
    _ ← tag_mkdir fto.virtdirpath
    res ← path_link ffrom fto
    path_delete ffrom
    path_delete fto
    pure res

  -- the branch of `tag_rename` where both paths select one tag
  unfoldable pub rename_linked : UserPath → UserPath → Cmd ℤ
  rename_linked ffrom fto = do _ ← path_link ffrom fto; _ ← path_unlink ffrom; pure (pos 0)

  unfoldable pub tag_rename : Bytes → Bytes → Cmd ℤ
  tag_rename from to = do
    ffrom ← path_create from false
    fto ← path_create to false
    res ←
        (if not (ht_entry_count ffrom.selected_tags == 1)
            || not (ht_entry_count fto.selected_tags == 1)
          then pure (neg eperm)
          else rename_linked ffrom fto)
    path_delete ffrom
    path_delete fto
    pure res
