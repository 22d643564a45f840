-- ===== src/Sqlite/TagFs/Dir.antt =====
-- fuse_sqlite3/tagfs.c: the listing of a directory.
use tag_filesystem.Base.{
  ℕ, some, List, [], ◌∷◌, ◌++◌, ℤ, pos, is_negative, ltb, if◌then◌else◌, codes,
}
use tag_filesystem.Cutil.HashTable.{Ptr, Uthash}
use tag_filesystem.Fuse.Os.{Os, Dirent}
use tag_filesystem.Sqlite.Database.{Sqlite}
use tag_filesystem.Sqlite.Listing.{Names, db_list_all_tags, db_list_remaining_tags}
use tag_filesystem.Sqlite.State.{UserPath, Cmd, pure, ◌>>=◌, gets, load_fd}
use tag_filesystem.Sqlite.TagFs.Attr.{getattr_intra}
use tag_filesystem.Sqlite.UserPath.{path_set}

module _ ⦃U : Uthash⦄ ⦃O : Os⦄ ⦃Q : Sqlite⦄ where
  -- the rounds of `readdir_list_files` on the directory entries that are left
  unfoldable pub list_files : UserPath → List Dirent → Names → Cmd Names
  list_files dirpath [] buf = pure buf
  list_files dirpath (d ∷ ds) buf =
      let rest = λ (buf' : Names). list_files dirpath ds buf' in
      if d.is_dir then rest buf else (do
        (res, _) ← getattr_intra (path_set dirpath.virtpath d.d_name dirpath.selected_tags)
        rest (if is_negative res then buf else buf ++ (some d.d_name ∷ [])))

  unfoldable pub readdir_list_files : UserPath → Names → Cmd Names
  readdir_list_files dirpath buf = do ds ← gets (λ s. O.readdir s.world); list_files dirpath ds buf

  -- the fuel is for the rows of the database
  unfoldable pub tag_readdir : ℕ → Ptr → Names → Cmd (ℤ × Names)
  tag_readdir fuel fh buf = do
    fd ← load_fd fh
    let path = fd.path
    let dots = buf ++ (some (codes ".") ∷ some (codes "..") ∷ [])
    (_, tag_names) ←
        (if ltb 0 path.depth
          then db_list_remaining_tags fuel path.selected_tags dots
          else db_list_all_tags fuel dots)
    names ← readdir_list_files path tag_names
    pure (pos 0, names)
