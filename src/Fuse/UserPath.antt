-- ===== src/Fuse/UserPath.antt =====
-- fuse/path.c: a path of the user, split into the tags that it selects and a file name.
use tag_filesystem.Base.{Bool, if◌then◌else◌, Bytes}
use tag_filesystem.Cutil.HashTable.{Uthash, HashTable}
use tag_filesystem.Fuse.Os.{Os}
use tag_filesystem.Fuse.State.{UserPath, Cmd, pure, ◌>>=◌}
use tag_filesystem.Fuse.Tag.{compute_selected_tags, free_selected_tags}
use tag_filesystem.Fuse.Util.{append_dir, basenamedup, dirnamedup, path_realpath}

module _ ⦃U : Uthash⦄ ⦃O : Os⦄ where
  unfoldable pub path_create : Bytes → Bool → Cmd UserPath
  path_create user_path is_tag = do
    selected ← compute_selected_tags (if is_tag then user_path else dirnamedup user_path)
    pure (record {
      realpath = path_realpath user_path;
      virtpath = user_path;
      virtdirpath = dirnamedup user_path;
      filename = basenamedup user_path;
      selected_tags = selected;
    })

  unfoldable pub path_delete : UserPath → Cmd (Unit {0})
  path_delete path = free_selected_tags path.selected_tags

  unfoldable pub path_set : Bytes → Bytes → HashTable → UserPath
  path_set virtdirpath filename selected_tags = record {
    realpath = append_dir O.realdirpath filename;
    virtpath = append_dir virtdirpath filename;
    virtdirpath = virtdirpath;
    filename = filename;
    selected_tags = selected_tags;
  }
