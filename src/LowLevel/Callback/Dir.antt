-- ===== src/LowLevel/Callback/Dir.antt =====
-- fuse_lowlevel/fuse_callback.c: the listing of a directory.
use tag_filesystem.Base.Store.{pure, ◌>>=◌, ◌>>◌, gets}
use tag_filesystem.Base.{
  ℕ, not, ◌||◌, none, List, [], ◌∷◌, Bytes, ◌==◌, if◌then◌else◌, length, codes,
}
use tag_filesystem.Cutil.HashTable.{
  Ptr, Entries, Uthash, HashTable, ht_create, ht_add_unique_entry, ht_has_entry, ht_entries,
}
use tag_filesystem.Fuse.Os.{Dirent, done, failed}
use tag_filesystem.Fuse.Util.{enoent, append_dir}
use tag_filesystem.LowLevel.Callback.Answer.{fuse_reply_err, dirbuf_add, reply_buf_limited}
use tag_filesystem.LowLevel.Callback.Attr.{getattr_intra}
use tag_filesystem.LowLevel.Callback.Content.{enotdir}
use tag_filesystem.LowLevel.Inode.{create_directory_inode, zero_attr}
use tag_filesystem.LowLevel.Os.{Os}
use tag_filesystem.LowLevel.State.{Cmd, load_tag, load_file, load_inode, not_null}
use tag_filesystem.LowLevel.Tag.{tag_list}

module _ ⦃U : Uthash⦄ ⦃O : Os⦄ where
  -- the loop of `readdir_list_files` on the entries that are left; what `st` holds before
  -- `getattr_intra` is never read
  unfoldable pub list_files : List Dirent → Bytes → HashTable → Cmd Bytes
  list_files [] b selected_tags = pure b
  list_files (d ∷ ds) b selected_tags =
      let next = λ (b' : Bytes). list_files ds b' selected_tags in
      if d.is_dir then next b else (do
        res ← getattr_intra zero_attr selected_tags (append_dir O.realdirpath d.d_name) d.d_name
        next (elim res [ failed e ↦ b | done st ↦ dirbuf_add b d.d_name st.st_ino ]))

  unfoldable pub readdir_list_files : Bytes → HashTable → Cmd Bytes
  readdir_list_files b selected_tags = do
    ds ← gets (λ s. O.readdir s.world)
    list_files ds b selected_tags

  -- the loop of `readdir_list_tags_mode1`; all tags have the number 2
  unfoldable pub list_tags : List Ptr → Bytes → HashTable → Cmd Bytes
  list_tags [] b selected_tags = pure b
  list_tags (p ∷ ps) b selected_tags = do
    t ← load_tag p
    list_tags ps (if ht_has_entry selected_tags t.value then b else dirbuf_add b t.value 2)
        selected_tags

  unfoldable pub readdir_list_tags_mode1 : Bytes → HashTable → Cmd Bytes
  readdir_list_tags_mode1 b selected_tags = do tagl ← tag_list; list_tags tagl b selected_tags

  -- the first two loops of `readdir_get_selected_files`: all files of all the selected tags
  unfoldable pub add_selected : Entries → HashTable → Cmd HashTable
  add_selected [] selected_files = pure selected_files
  add_selected ((_, q) ∷ es) selected_files = do
    f ← load_file q
    add_selected es (ht_add_unique_entry selected_files f.name q).1

  unfoldable pub collect_files : Entries → HashTable → Cmd HashTable
  collect_files [] selected_files = pure selected_files
  collect_files ((_, p) ∷ es) selected_files = do
    t ← load_tag p
    selected_files' ← add_selected (ht_entries t.files) selected_files
    collect_files es selected_files'

  -- The other two loops: a file without one of the tags is to be removed from the table that
  -- `ht_for_each` is visiting. That waits for the lock that the visit itself holds, for ever.
  unfoldable pub check_file : Ptr → Entries → Cmd (Unit {0})
  check_file q [] = pure tt
  check_file q ((_, p) ∷ es) =
      let rest = check_file q es in
      (do
        f ← load_file q
        t ← load_tag p
        if not (ht_has_entry f.tags t.value) then (λ s. none) else rest)

  unfoldable pub check_files : Entries → Entries → Cmd (Unit {0})
  check_files [] tags = pure tt
  check_files ((_, q) ∷ es) tags = do check_file q tags; check_files es tags

  unfoldable pub readdir_get_selected_files : HashTable → Cmd HashTable
  readdir_get_selected_files selected_tags = do
    selected_files ← collect_files (ht_entries selected_tags) ht_create
    check_files (ht_entries selected_files) (ht_entries selected_tags)
    pure selected_files

  -- the inner loop of `readdir_fill_remaining_tags`, with the buffer and `remaining_tags`
  unfoldable pub fill_file_tags :
      Ptr → HashTable → Entries → Bytes × HashTable → Cmd (Bytes × HashTable)
  fill_file_tags parent selected_tags [] acc = pure acc
  fill_file_tags parent selected_tags ((_, p) ∷ es) (b, remaining) =
      let next = fill_file_tags parent selected_tags es in
      (do
        t ← load_tag p
        if ht_has_entry selected_tags t.value || ht_has_entry remaining t.value
            then next (b, remaining)
            else (do
              i ← create_directory_inode parent t.value
              ino ← load_inode i
              next (dirbuf_add b t.value ino.number, (ht_add_unique_entry remaining t.value p).1)))

  -- the outer loop
  unfoldable pub fill_tags : Ptr → HashTable → Entries → Bytes × HashTable → Cmd (Bytes × HashTable)
  fill_tags parent selected_tags [] acc = pure acc
  fill_tags parent selected_tags ((_, q) ∷ es) acc = do
    f ← load_file q
    acc' ← fill_file_tags parent selected_tags (ht_entries f.tags) acc
    fill_tags parent selected_tags es acc'

  unfoldable pub readdir_fill_remaining_tags : Ptr → HashTable → HashTable → Bytes → Cmd Bytes
  readdir_fill_remaining_tags parent selected_tags selected_files b = do
    acc ← fill_tags parent selected_tags (ht_entries selected_files) (b, ht_create)
    pure acc.0

  unfoldable pub readdir_list_tags_mode2 : Ptr → Bytes → HashTable → Cmd Bytes
  readdir_list_tags_mode2 parent b selected_tags = do
    selected_files ← readdir_get_selected_files selected_tags
    readdir_fill_remaining_tags parent selected_tags selected_files b

  -- the part of `tag_readdir` behind the tests
  unfoldable pub readdir_list : ℕ → Ptr → Bytes → HashTable → Cmd Bytes
  readdir_list number i b selected_tags = do
    b' ←
        (if not (number == 1)
          then readdir_list_tags_mode2 i b selected_tags
          else readdir_list_tags_mode1 b selected_tags)
    readdir_list_files b' selected_tags

  -- `fh` is the address that `tag_opendir` gave out
  unfoldable pub tag_readdir : ℕ → ℕ → ℕ → Ptr → Cmd (Unit {0})
  tag_readdir number size off fh = if fh == 0 then fuse_reply_err enoent else (do
    ino ← load_inode fh
    if not ino.is_directory then fuse_reply_err enotdir else (do
      let start = dirbuf_add (dirbuf_add [] (codes ".") ino.number) (codes "..") 1
      selected ← not_null ino.selected_tags
      b ← readdir_list number fh start selected
      reply_buf_limited b (length b) off size))
