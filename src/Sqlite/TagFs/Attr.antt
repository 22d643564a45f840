-- ===== src/Sqlite/TagFs/Attr.antt =====
-- fuse_sqlite3/tagfs.c: attributes, opening and closing.
use tag_filesystem.Base.{
  ℕ, Bool, true, false, not, ◌&&◌, ◌||◌, Option, none, some, Bytes, ℤ, pos, neg, ltb, if◌then◌else◌,
  str_eq, codes,
}
use tag_filesystem.Cutil.HashTable.{Ptr, Uthash, HashTable, ht_entry_count, ht_has_entry}
use tag_filesystem.Fuse.Os.{Os, Stat, Result, done, failed}
use tag_filesystem.Fuse.TagFs.Attr.{long_max}
use tag_filesystem.Fuse.Util.{enoent, tag_filename}
use tag_filesystem.Sqlite.Database.{Sqlite}
use tag_filesystem.Sqlite.Descriptor.{fd_open, fd_close}
use tag_filesystem.Sqlite.File.{file_get_or_create}
use tag_filesystem.Sqlite.State.{UserPath, Cmd, pure, ◌>>=◌, gets, load_file, load_fd}
use tag_filesystem.Sqlite.Statements.{db_file_match_tags}
use tag_filesystem.Sqlite.Tag.{tag_exist}
use tag_filesystem.Sqlite.UserPath.{path_create}

module _ ⦃U : Uthash⦄ ⦃O : Os⦄ ⦃Q : Sqlite⦄ where
  unfoldable pub file_matches_tags : Ptr → HashTable → Cmd Bool
  file_matches_tags q selected_tags = do f ← load_file q; db_file_match_tags f.id selected_tags

  -- the branch of `getattr_intra` where the file is there
  unfoldable pub getattr_file : UserPath → Stat → Cmd (ℤ × Option Stat)
  getattr_file p st = do
    q ← file_get_or_create p.filename
    if ltb 0 (ht_entry_count p.selected_tags)
        then (do
          match ← file_matches_tags q p.selected_tags
          pure (if not match then neg enoent else pos 0, some st))
        else if str_eq p.filename tag_filename
        then pure (pos 0, some (record st { st_size = long_max }))
        else pure (pos 0, some st)

  -- the branch where it is not there or is a directory; `written` is what the first `stat` wrote
  unfoldable pub getattr_dir : UserPath → Option Stat → Cmd (ℤ × Option Stat)
  getattr_dir p written = do
    exist ← tag_exist p.filename
    if str_eq p.virtpath (codes "/") || (exist && not (ht_has_entry p.selected_tags p.filename))
        then (do
          r ← gets (λ s. O.stat s.world O.realdirpath)
          elim r [ done st ↦ pure (pos 0, some st) | failed e ↦ pure (neg 1, written) ])
        else pure (neg enoent, written)

  -- the result, and `*stbuf` if something was written there; -1 is the result of `stat` itself
  unfoldable pub getattr_intra : UserPath → Cmd (ℤ × Option Stat)
  getattr_intra p = do
    r ← gets (λ s. O.stat s.world p.realpath)
    elim r [
      | failed e ↦ getattr_dir p none
      | done st ↦ if st.is_dir then getattr_dir p (some st) else getattr_file p st
    ]

  unfoldable pub tag_getattr : Bytes → Cmd (ℤ × Option Stat)
  tag_getattr user_path = do path ← path_create user_path false; getattr_intra path

  unfoldable pub tag_fgetattr : Ptr → Cmd (ℤ × Option Stat)
  tag_fgetattr fh = do fd ← load_fd fh; getattr_intra fd.path

  unfoldable pub tag_open : Bytes → ℕ → Bool → Cmd (Result Ptr)
  tag_open user_path flags is_tag = do
    path ← path_create user_path is_tag
    fd_open path flags is_tag

  unfoldable pub tag_open_file : Bytes → ℕ → Cmd (Result Ptr)
  tag_open_file user_path flags = tag_open user_path flags false

  unfoldable pub tag_open_dir : Bytes → ℕ → Cmd (Result Ptr)
  tag_open_dir user_path flags = tag_open user_path flags true

  unfoldable pub tag_release_generic : Ptr → Cmd ℤ
  tag_release_generic fh = fd_close fh
