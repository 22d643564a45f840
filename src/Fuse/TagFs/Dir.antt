-- ===== src/Fuse/TagFs/Dir.antt =====
-- fuse/tagfs.c: the listing of a directory. `filler` adds a name to what the reader sees; the
-- model returns the names in order.
use tag_filesystem.Base.{
  not, ◌&&◌, List, [], ◌∷◌, ◌++◌, Bytes, ℤ, pos, is_negative, ltb, if◌then◌else◌, codes,
}
use tag_filesystem.Cutil.HashTable.{
  Ptr, Entries, Uthash, HashTable, ht_create, ht_entries, ht_entry_count, ht_has_entry,
  ht_add_entry, ht_add_unique_entry, ht_remove_entry, ht_for_each,
}
use tag_filesystem.Fuse.Os.{Os, Dirent}
use tag_filesystem.Fuse.State.{UserPath, Cmd, pure, ◌>>=◌, gets, load_tag, load_file, load_fd}
use tag_filesystem.Fuse.Tag.{tag_list}
use tag_filesystem.Fuse.TagFs.Attr.{getattr_intra}
use tag_filesystem.Fuse.UserPath.{path_set}

module _ ⦃U : Uthash⦄ ⦃O : Os⦄ where
  -- the rounds of `readdir_list_files` on the directory entries that are left
  unfoldable pub list_files : UserPath → List Dirent → Cmd (List Bytes)
  list_files dirpath [] = pure []
  list_files dirpath (d ∷ ds) =
      let rest = list_files dirpath ds in
      if d.is_dir then rest else (do
        (res, _) ← getattr_intra (path_set dirpath.virtpath d.d_name dirpath.selected_tags)
        names ← rest
        pure (if is_negative res then names else d.d_name ∷ names))

  unfoldable pub readdir_list_files : UserPath → Cmd (List Bytes)
  readdir_list_files dirpath = do ds ← gets (λ s. O.readdir s.world); list_files dirpath ds

  unfoldable pub list_tags : List Ptr → HashTable → Cmd (List Bytes)
  list_tags [] selected_tags = pure []
  list_tags (p ∷ ps) selected_tags = do
    t ← load_tag p
    names ← list_tags ps selected_tags
    pure (if not (ht_has_entry selected_tags t.value) && t.in_use then t.value ∷ names else names)

  unfoldable pub readdir_list_tags_mode1 : HashTable → Cmd (List Bytes)
  readdir_list_tags_mode1 selected_tags = do tagl ← tag_list; list_tags tagl selected_tags

  -- `each_file` of the first step, on the files of a tag
  unfoldable pub add_files : Entries → HashTable → Cmd HashTable
  add_files [] selected_files = pure selected_files
  add_files ((_, q) ∷ es) selected_files = do
    f ← load_file q
    add_files es (ht_add_unique_entry selected_files f.name q).1

  -- `each_tag` of the first step
  unfoldable pub add_files_of : Entries → HashTable → Cmd HashTable
  add_files_of [] selected_files = pure selected_files
  add_files_of ((_, p) ∷ es) selected_files = do
    t ← load_tag p
    selected_files' ← add_files (ht_entries t.files) selected_files
    add_files_of es selected_files'

  -- `each_tag` of the second step, for one file
  unfoldable pub mark_file : Entries → Ptr → HashTable → Cmd HashTable
  mark_file [] q not_matching = pure not_matching
  mark_file ((_, p) ∷ es) q not_matching = do
    f ← load_file q
    t ← load_tag p
    mark_file es q (
        if not (ht_has_entry f.tags t.value)
        then (ht_add_entry not_matching f.name q).1
        else not_matching)

  -- `each_file` of the second step
  unfoldable pub mark_files : Entries → Entries → HashTable → Cmd HashTable
  mark_files [] tags not_matching = pure not_matching
  mark_files ((_, q) ∷ es) tags not_matching = do
    not_matching' ← mark_file tags q not_matching
    mark_files es tags not_matching'

  unfoldable pub readdir_get_selected_files : HashTable → Cmd HashTable
  readdir_get_selected_files selected_tags = do
    selected_files ← add_files_of (ht_entries selected_tags) ht_create
    not_matching ← mark_files (ht_entries selected_files) (ht_entries selected_tags) ht_create
    pure (ht_for_each not_matching (λ n _ files. (ht_remove_entry files n).1) selected_files)

  -- `each_tag`, for one file: the names so far, and `remaining_tags`
  unfoldable pub fill_tags :
      Entries → HashTable → List Bytes × HashTable → Cmd (List Bytes × HashTable)
  fill_tags [] selected_tags out = pure out
  fill_tags ((_, p) ∷ es) selected_tags (names, remaining) = do
    t ← load_tag p
    fill_tags es selected_tags (
        if not (ht_has_entry selected_tags t.value) && not (ht_has_entry remaining t.value)
        then (names ++ t.value ∷ [], (ht_add_unique_entry remaining t.value p).1)
        else (names, remaining))

  unfoldable pub fill_files :
      Entries → HashTable → List Bytes × HashTable → Cmd (List Bytes × HashTable)
  fill_files [] selected_tags out = pure out
  fill_files ((_, q) ∷ es) selected_tags out = do
    f ← load_file q
    out' ← fill_tags (ht_entries f.tags) selected_tags out
    fill_files es selected_tags out'

  unfoldable pub readdir_fill_remaining_tags : HashTable → HashTable → Cmd (List Bytes)
  readdir_fill_remaining_tags selected_tags selected_files = do
    (names, _) ← fill_files (ht_entries selected_files) selected_tags ([], ht_create)
    pure names

  unfoldable pub readdir_list_tags_mode2 : HashTable → Cmd (List Bytes)
  readdir_list_tags_mode2 selected_tags = do
    selected_files ← readdir_get_selected_files selected_tags
    readdir_fill_remaining_tags selected_tags selected_files

  unfoldable pub tag_readdir : Ptr → Cmd (ℤ × List Bytes)
  tag_readdir fh = do
    fd ← load_fd fh
    let path = fd.path
    tag_names ←
        (if ltb 0 (ht_entry_count path.selected_tags)
          then readdir_list_tags_mode2 path.selected_tags
          else readdir_list_tags_mode1 path.selected_tags)
    file_names ← readdir_list_files path
    pure (pos 0, codes "." ∷ codes ".." ∷ (tag_names ++ file_names))
