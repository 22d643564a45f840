-- ===== src/LowLevel/Real.antt =====
-- fuse_lowlevel/real.c: what the start of the session reads from the real directory.
use tag_filesystem.Base.Store.{pure, ◌>>=◌, ◌>>◌, gets, modify}
use tag_filesystem.Base.{some, List, [], ◌∷◌, if◌then◌else◌}
use tag_filesystem.Cutil.HashTable.{Uthash}
use tag_filesystem.Fuse.Os.{Dirent}
use tag_filesystem.Fuse.Util.{append_dir, tag_filename}
use tag_filesystem.LowLevel.File.{file_get_or_create}
use tag_filesystem.LowLevel.Os.{Os}
use tag_filesystem.LowLevel.State.{Cmd}
use tag_filesystem.LowLevel.Tag.{parse_tags}

module _ ⦃U : Uthash⦄ ⦃O : Os⦄ where
  -- the loop of `realdir_add_files`
  unfoldable pub add_files : List Dirent → Cmd (Unit {0})
  add_files [] = pure tt
  add_files (d ∷ ds) =
      let rest = add_files ds in
      if d.is_dir then rest else (do q ← file_get_or_create d.d_name; rest)

  unfoldable pub realdir_add_files : Cmd (Unit {0})
  realdir_add_files = do ds ← gets (λ s. O.readdir s.world); add_files ds

  unfoldable pub realdir_parse_tags : Cmd (Unit {0})
  realdir_parse_tags = do
    let tag_file = append_dir O.realdirpath tag_filename
    parse_tags tag_file
    modify (λ s. record s { tagdbpath = some tag_file })
