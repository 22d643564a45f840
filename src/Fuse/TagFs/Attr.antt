-- ===== src/Fuse/TagFs/Attr.antt =====
-- fuse/tagfs.c: whether a file has the selected tags, attributes and extended attributes, opening
-- and closing.
use tag_filesystem.Base.{
  ℕ, ◌-◌, ◌^◌, Bool, true, false, not, Option, none, some, [], ◌∷◌, ◌++◌, Bytes, ℤ, pos, neg, ltb,
  if◌then◌else◌, str_eq, length, take, replicate, codes,
}
use tag_filesystem.Cutil.HashTable.{
  Ptr, Entries, Uthash, HashTable, ht_entries, ht_entry_count, ht_has_entry,
}
use tag_filesystem.Fuse.Descriptor.{fd_open, fd_close}
use tag_filesystem.Fuse.File.{file_get_or_create, file_get_tags_string}
use tag_filesystem.Fuse.Os.{Os, Stat, Result, done, failed}
use tag_filesystem.Fuse.State.{UserPath, Cmd, pure, ◌>>=◌, ◌>>◌, gets, load_tag, load_file, load_fd}
use tag_filesystem.Fuse.UserPath.{path_create, path_delete}
use tag_filesystem.Fuse.Util.{eperm, enoent, eisdir, enodata, tag_filename}

-- LONG_MAX of a 64-bit machine
abbrev pub long_max : ℕ
long_max = 2 ^ 63 - 1

-- the bytes that `strncpy(value, str, size)` writes
unfoldable pub strncpy : Bytes → ℕ → Bytes
strncpy str size = take size str ++ replicate (size - length str) 0

module _ ⦃U : Uthash⦄ ⦃O : Os⦄ where
  -- the calls of `check_tags`, with `*match`
  unfoldable pub check_tags : Entries → Ptr → Bool → Cmd Bool
  check_tags [] q match = pure match
  check_tags ((_, p) ∷ es) q match = do
    t ← load_tag p
    f ← load_file q
    check_tags es q (if not (ht_has_entry f.tags t.value) then false else match)

  unfoldable pub file_matches_tags : Ptr → HashTable → Cmd Bool
  file_matches_tags q selected_tags = check_tags (ht_entries selected_tags) q true

  -- the branch of `getattr_intra` where the file is there
  unfoldable pub getattr_file : UserPath → Stat → Cmd (ℤ × Option Stat)
  getattr_file p st = do
    q ← file_get_or_create p.filename
    if ltb 0 (ht_entry_count p.selected_tags)
        then (do
          match ← file_matches_tags q p.selected_tags
          pure (if not match then neg enoent else pos 0, some st))
        else if str_eq p.filename tag_filename
        then pure (pos 0, some (record st { st_size = long_max }))
        else pure (pos 0, some st)

  -- the branch where it is not there or is a directory
  unfoldable pub getattr_dir : Cmd (ℤ × Option Stat)
  getattr_dir = do
    r ← gets (λ s. O.stat s.world O.realdirpath)
    elim r [ done st ↦ pure (pos 0, some st) | failed e ↦ pure (neg 1, none) ]

  -- the result, and `*stbuf` if something was written there; -1 is the result of `stat` itself
  unfoldable pub getattr_intra : UserPath → Cmd (ℤ × Option Stat)
  getattr_intra p = do
    r ← gets (λ s. O.stat s.world p.realpath)
    elim r [
      | failed e ↦ getattr_dir
      | done st ↦ if st.is_dir then getattr_dir else getattr_file p st
    ]

  unfoldable pub tag_getattr : Bytes → Cmd (ℤ × Option Stat)
  tag_getattr user_path = do
    path ← path_create user_path false
    res ← getattr_intra path
    path_delete path
    pure res

  unfoldable pub tag_fgetattr : Ptr → Cmd (ℤ × Option Stat)
  tag_fgetattr fh = do fd ← load_fd fh; getattr_intra fd.path

  unfoldable pub tag_open : Bytes → ℕ → Bool → Cmd (Result Ptr)
  tag_open user_path flags is_tag = do
    path ← path_create user_path is_tag
    fd_open path flags is_tag

  unfoldable pub tag_open_file : Bytes → ℕ → Cmd (Result Ptr)
  tag_open_file user_path flags = tag_open user_path flags false

  unfoldable pub tag_open_dir : Bytes → ℕ → Cmd (Result Ptr)
  tag_open_dir user_path flags = tag_open user_path flags true

  unfoldable pub tag_release_generic : Ptr → Cmd ℤ
  tag_release_generic fh = fd_close fh

  unfoldable pub tag_setxattr : Cmd ℤ
  tag_setxattr = pure (neg eperm)

  -- the part behind `getattr_intra`, with its result; the bytes are those written to `value`. The
  -- attributes have been written whenever the result is 0.
  unfoldable pub list_tags_of : UserPath → ℕ → ℤ × Option Stat → Cmd (ℤ × Bytes)
  list_tags_of p size (pos n, some st) = if st.is_dir then pure (neg eisdir, []) else (do
    q ← file_get_or_create p.filename
    (str, len) ← file_get_tags_string q
    pure (pos len, strncpy str size))
  list_tags_of p size (err, st) = pure (err, [])

  unfoldable pub tag_getxattr_list_tags : Bytes → ℕ → Cmd (ℤ × Bytes)
  tag_getxattr_list_tags user_path size = do
    p ← path_create user_path false
    err ← getattr_intra p
    res ← list_tags_of p size err
    path_delete p
    pure res

  unfoldable pub tag_getxattr_fs_type : ℕ → ℤ × Bytes
  tag_getxattr_fs_type size = (pos 9, strncpy (codes "fuse_tag") size)

  unfoldable pub tag_getxattr : Bytes → Bytes → ℕ → Cmd (ℤ × Bytes)
  tag_getxattr user_path name size =
      if str_eq name (codes "tags")
      then tag_getxattr_list_tags user_path size
      else if str_eq name (codes "fs_type")
      then pure (tag_getxattr_fs_type size)
      else pure (neg enodata, [])
