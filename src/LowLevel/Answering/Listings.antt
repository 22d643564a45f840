-- ===== src/LowLevel/Answering/Listings.antt =====
-- `tag_readdir` gives one answer.
use tag_filesystem.Base.{ℕ, some, List, [], ◌∷◌, Bytes}
use tag_filesystem.Cutil.HashTable.{Ptr, Entries, Uthash, HashTable, ht_create}
use tag_filesystem.Fuse.Os.{Dirent, failed, done}
use tag_filesystem.Fuse.Util.{append_dir, enoent}
use tag_filesystem.LowLevel.Answering.Handlers.{reply_buf_limited-AnswersOnce}
use tag_filesystem.LowLevel.Answering.Lookups.{
  stat_into-IsQuiet, file_matches_tags-IsQuiet, is_other_tag-IsQuiet,
}
use tag_filesystem.LowLevel.Answering.Quiet.{
  create_directory_inode-IsQuiet, file_get_or_create-IsQuiet,
}
use tag_filesystem.LowLevel.Answering.{
  IsQuiet, AnswersOnce, Gives-bind, Gives-if, Gives-found, Gives-stop, IsQuiet-pure, IsQuiet-gets,
  not_null-IsQuiet, reply-AnswersOnce, load_tag-IsQuiet, load_file-IsQuiet, load_inode-IsQuiet,
}
use tag_filesystem.LowLevel.Callback.Attr.{getattr_tag, getattr_file, getattr_intra}
use tag_filesystem.LowLevel.Callback.Dir.{
  list_files, readdir_list_files, list_tags, readdir_list_tags_mode1, add_selected, collect_files,
  check_file, check_files, readdir_get_selected_files, fill_file_tags, fill_tags,
  readdir_fill_remaining_tags, readdir_list_tags_mode2, readdir_list, tag_readdir,
}
use tag_filesystem.LowLevel.Inode.{zero_attr}
use tag_filesystem.LowLevel.Os.{Os, Attr}
use tag_filesystem.LowLevel.Tag.{tag_list}

module _ ⦃U : Uthash⦄ ⦃O : Os⦄ where
  getattr_tag-IsQuiet :
      (filename : Bytes) (h : HashTable) (st : Attr) → IsQuiet (getattr_tag filename h st)
  unfolding getattr_tag
  getattr_tag-IsQuiet filename h st = Gives-bind (is_other_tag-IsQuiet filename (some h)) λ other.
      Gives-if _ (IsQuiet-pure (failed enoent)) (
        Gives-bind (stat_into-IsQuiet O.realdirpath st)
          λ res. Gives-found res.0 (IsQuiet-pure (done res.1)) λ e. IsQuiet-pure (failed 1))

  getattr_file-IsQuiet :
      (f : Ptr) (h : HashTable) (filename : Bytes) (st : Attr)
      → IsQuiet (getattr_file f h filename st)
  unfolding getattr_file
  getattr_file-IsQuiet f h filename st =
      Gives-if _ (Gives-bind (file_matches_tags-IsQuiet f h) λ match. IsQuiet-pure _)
        (Gives-if _ (IsQuiet-pure _) (IsQuiet-pure _))

  getattr_intra-IsQuiet :
      (st : Attr) (h : HashTable) (realpath filename : Bytes)
      → IsQuiet (getattr_intra st h realpath filename)
  unfolding getattr_intra
  getattr_intra-IsQuiet st h realpath filename =
      Gives-bind (file_get_or_create-IsQuiet filename) λ f.
        Gives-bind (stat_into-IsQuiet realpath st) λ res.
          Gives-if _ (getattr_tag-IsQuiet filename h res.1)
            (getattr_file-IsQuiet f h filename res.1)

  list_files-IsQuiet : (ds : List Dirent) (b : Bytes) (h : HashTable) → IsQuiet (list_files ds b h)
  unfolding list_files
  list_files-IsQuiet [] b h = IsQuiet-pure b
  list_files-IsQuiet (d ∷ ds) b h = Gives-if _ (list_files-IsQuiet ds b h) (
      Gives-bind (getattr_intra-IsQuiet zero_attr h (append_dir O.realdirpath d.d_name) d.d_name)
        λ res. list_files-IsQuiet ds _ h)

  list_tags-IsQuiet : (ps : List Ptr) (b : Bytes) (h : HashTable) → IsQuiet (list_tags ps b h)
  unfolding list_tags
  list_tags-IsQuiet [] b h = IsQuiet-pure b
  list_tags-IsQuiet (p ∷ ps) b h = Gives-bind (load_tag-IsQuiet p) λ t. list_tags-IsQuiet ps _ h

  add_selected-IsQuiet : (es : Entries) (h : HashTable) → IsQuiet (add_selected es h)
  unfolding add_selected
  add_selected-IsQuiet [] h = IsQuiet-pure h
  add_selected-IsQuiet ((_, q) ∷ es) h =
      Gives-bind (load_file-IsQuiet q) λ f. add_selected-IsQuiet es _

  collect_files-IsQuiet : (es : Entries) (h : HashTable) → IsQuiet (collect_files es h)
  unfolding collect_files
  collect_files-IsQuiet [] h = IsQuiet-pure h
  collect_files-IsQuiet ((_, p) ∷ es) h =
      Gives-bind (load_tag-IsQuiet p)
        λ t. Gives-bind (add_selected-IsQuiet _ h) λ h'. collect_files-IsQuiet es h'

  check_file-IsQuiet : (q : Ptr) (es : Entries) → IsQuiet (check_file q es)
  unfolding check_file
  check_file-IsQuiet q [] = IsQuiet-pure tt
  check_file-IsQuiet q ((_, p) ∷ es) =
      Gives-bind (load_file-IsQuiet q)
        λ f. Gives-bind (load_tag-IsQuiet p) λ t. Gives-if _ Gives-stop (check_file-IsQuiet q es)

  check_files-IsQuiet : (es tags : Entries) → IsQuiet (check_files es tags)
  unfolding check_files
  check_files-IsQuiet [] tags = IsQuiet-pure tt
  check_files-IsQuiet ((_, q) ∷ es) tags =
      Gives-bind (check_file-IsQuiet q tags) λ _. check_files-IsQuiet es tags

  readdir_get_selected_files-IsQuiet : (h : HashTable) → IsQuiet (readdir_get_selected_files h)
  unfolding readdir_get_selected_files
  readdir_get_selected_files-IsQuiet h =
      Gives-bind (collect_files-IsQuiet _ ht_create)
        λ files. Gives-bind (check_files-IsQuiet _ _) λ _. IsQuiet-pure files

  fill_file_tags-IsQuiet :
      (parent : Ptr) (h : HashTable) (es : Entries) (acc : Bytes × HashTable)
      → IsQuiet (fill_file_tags parent h es acc)
  unfolding fill_file_tags
  fill_file_tags-IsQuiet parent h [] acc = IsQuiet-pure acc
  fill_file_tags-IsQuiet parent h ((_, p) ∷ es) (b, remaining) =
      Gives-bind (load_tag-IsQuiet p) λ t.
        Gives-if _ (fill_file_tags-IsQuiet parent h es (b, remaining)) (
          Gives-bind (create_directory_inode-IsQuiet parent t.value)
            λ i. Gives-bind (load_inode-IsQuiet i) λ ino. fill_file_tags-IsQuiet parent h es _)

  fill_tags-IsQuiet :
      (parent : Ptr) (h : HashTable) (es : Entries) (acc : Bytes × HashTable)
      → IsQuiet (fill_tags parent h es acc)
  unfolding fill_tags
  fill_tags-IsQuiet parent h [] acc = IsQuiet-pure acc
  fill_tags-IsQuiet parent h ((_, q) ∷ es) acc = Gives-bind (load_file-IsQuiet q) λ f.
      Gives-bind (fill_file_tags-IsQuiet parent h _ acc) λ acc'. fill_tags-IsQuiet parent h es acc'

  readdir_list-IsQuiet :
      (number : ℕ) (i : Ptr) (b : Bytes) (h : HashTable) → IsQuiet (readdir_list number i b h)
  unfolding readdir_list readdir_list_tags_mode2 readdir_list_tags_mode1 readdir_list_files
      readdir_fill_remaining_tags tag_list
  readdir_list-IsQuiet number i b h =
      Gives-bind
        (Gives-if _
          (Gives-bind (readdir_get_selected_files-IsQuiet h)
            λ files. Gives-bind (fill_tags-IsQuiet i h _ (b, ht_create)) λ acc. IsQuiet-pure _)
          (Gives-bind (IsQuiet-gets _) λ tagl. list_tags-IsQuiet tagl b h))
        λ b'. Gives-bind (IsQuiet-gets λ s. O.readdir s.world) λ ds. list_files-IsQuiet ds b' h

  pub tag_readdir-AnswersOnce :
      (number size off : ℕ) (fh : Ptr) → AnswersOnce (tag_readdir number size off fh)
  unfolding tag_readdir
  tag_readdir-AnswersOnce number size off fh = Gives-if _ (reply-AnswersOnce _) (
      Gives-bind (load_inode-IsQuiet fh) λ ino. Gives-if _ (reply-AnswersOnce _) (
        Gives-bind (not_null-IsQuiet ino.selected_tags) λ selected.
          Gives-bind (readdir_list-IsQuiet number fh _ selected)
            λ b. reply_buf_limited-AnswersOnce b _ off size))
