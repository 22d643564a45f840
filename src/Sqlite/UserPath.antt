-- ===== src/Sqlite/UserPath.antt =====
-- fuse_sqlite3/path.c: a path of the user, split into the tags that it selects and a file name.
use tag_filesystem.Base.{Bool, if◌then◌else◌, Bytes}
use tag_filesystem.Cutil.HashTable.{Uthash, HashTable, ht_entry_count}
use tag_filesystem.Fuse.Os.{Os}
use tag_filesystem.Fuse.Util.{append_dir, basenamedup, dirnamedup, path_realpath}
use tag_filesystem.Sqlite.Database.{Sqlite}
use tag_filesystem.Sqlite.State.{UserPath, Cmd, pure, ◌>>=◌}
use tag_filesystem.Sqlite.Tag.{compute_selected_tags}

module _ ⦃U : Uthash⦄ ⦃O : Os⦄ where
  unfoldable pub path_create : ⦃Q : Sqlite⦄ → Bytes → Bool → Cmd UserPath
  path_create user_path is_tag = do
    selected ← compute_selected_tags (if is_tag then user_path else dirnamedup user_path)
    pure (record {
      depth = ht_entry_count selected;
      realpath = path_realpath user_path;
      virtpath = user_path;
      virtdirpath = dirnamedup user_path;
      filename = basenamedup user_path;
      selected_tags = selected;
    })

  -- `depth` is not set, and not read where a path comes from here
  unfoldable pub path_set : Bytes → Bytes → HashTable → UserPath
  path_set virtdirpath filename selected_tags = record {
    depth = 0;
    realpath = append_dir O.realdirpath filename;
    virtpath = append_dir virtdirpath filename;
    virtdirpath = virtdirpath;
    filename = filename;
    selected_tags = selected_tags;
  }
