-- ===== src/LowLevel/Answering/Quiet.antt =====
-- The functions of inode.c, file.c, tag.c and file_descriptor.c in fuse_lowlevel/ give no answer.
use tag_filesystem.Base.Store.{for_each}
use tag_filesystem.Base.{
  ℕ, Bool, true, false, Option, none, some, List, [], ◌∷◌, ◌++◌, Bytes, refl, pos, neg, length,
  replicate, ◌-◌,
}
use tag_filesystem.Cutil.HashTable.{Ptr, Entries, Uthash, HashTable, ht_create, ht_add_entry}
use tag_filesystem.LowLevel.Answering.{
  IsQuiet, Gives-bind, Gives-if, Gives-found, Gives-result, Gives-total, IsQuiet-pure, IsQuiet-gets,
  modify-IsQuiet, not_null-IsQuiet, syscall-IsQuiet, new_tag-IsQuiet, new_file-IsQuiet,
  new_inode-IsQuiet, load_tag-IsQuiet, store_tag-IsQuiet, free_tag-IsQuiet, load_file-IsQuiet,
  store_file-IsQuiet, load_inode-IsQuiet, store_inode-IsQuiet, free_inode-IsQuiet,
}
use tag_filesystem.LowLevel.File.{file_list, file_new, file_get_or_create, file_get}
use tag_filesystem.LowLevel.FileDescriptor.{file_open, file_read, file_write, file_close}
use tag_filesystem.LowLevel.Inode.{
  next_inode_number, inode_new, inode_delete_if_noref, tag_get, select_parent_tags,
  create_directory_inode, inode_get, get_or_create_inode, get_or_create_file_inode,
}
use tag_filesystem.LowLevel.Os.{Os}
use tag_filesystem.LowLevel.State.{Cmd, File}
use tag_filesystem.LowLevel.Tag.{
  tag_new, tag_get_or_create, tag_exist, remove_from_file, tag_remove, tag_file, untag_file,
  print_tags, dump_files, tag_db_dump,
}

module _ ⦃U : Uthash⦄ ⦃O : Os⦄ where
  pub inode_get-IsQuiet : (number : ℕ) → IsQuiet (inode_get number)
  unfolding inode_get
  inode_get-IsQuiet number = IsQuiet-gets _

  pub tag_get-IsQuiet : (value : Bytes) → IsQuiet (tag_get value)
  unfolding tag_get
  tag_get-IsQuiet value = IsQuiet-gets _

  pub tag_exist-IsQuiet : (value : Bytes) → IsQuiet (tag_exist value)
  unfolding tag_exist
  tag_exist-IsQuiet value = Gives-bind (tag_get-IsQuiet value) λ p. IsQuiet-pure _

  pub file_get-IsQuiet : (value : Bytes) → IsQuiet (file_get value)
  unfolding file_get
  file_get-IsQuiet value = IsQuiet-gets _

  next_inode_number-IsQuiet : IsQuiet next_inode_number
  unfolding next_inode_number
  next_inode_number-IsQuiet = Gives-total false _ _ (λ s. refl) (λ s. refl)

  inode_new-IsQuiet : (directory : Bool) → IsQuiet (inode_new directory)
  unfolding inode_new
  inode_new-IsQuiet directory = Gives-bind next_inode_number-IsQuiet λ number.
      Gives-bind (new_inode-IsQuiet _)
        λ i. Gives-bind (modify-IsQuiet λ s. refl) λ _. IsQuiet-pure i

  pub inode_delete_if_noref-IsQuiet : (i : Ptr) → IsQuiet (inode_delete_if_noref i)
  unfolding inode_delete_if_noref
  inode_delete_if_noref-IsQuiet i = Gives-bind (load_inode-IsQuiet i) λ ino.
      Gives-if _ (Gives-bind (modify-IsQuiet λ s. refl) λ _. free_inode-IsQuiet i) (IsQuiet-pure tt)

  select_parent_tags-IsQuiet :
      (tags : List Bytes) (selected : HashTable) → IsQuiet (select_parent_tags tags selected)
  unfolding select_parent_tags
  select_parent_tags-IsQuiet [] selected = IsQuiet-pure selected
  select_parent_tags-IsQuiet (tag ∷ tags) selected =
      Gives-bind (tag_get-IsQuiet tag) λ t. select_parent_tags-IsQuiet tags _

  pub create_directory_inode-IsQuiet :
      (parent : Ptr) (name : Bytes) → IsQuiet (create_directory_inode parent name)
  unfolding create_directory_inode
  create_directory_inode-IsQuiet parent name = Gives-bind (inode_new-IsQuiet true) λ i.
      Gives-bind (load_inode-IsQuiet parent) λ p. Gives-bind (load_inode-IsQuiet i) λ ino.
        Gives-bind (not_null-IsQuiet ino.selected_tags) λ selected.
          Gives-bind (select_parent_tags-IsQuiet p.tag selected) λ selected'.
            Gives-bind (tag_get-IsQuiet name)
              λ t. Gives-bind (store_inode-IsQuiet i _) λ _. IsQuiet-pure i

  get_or_create_inode-IsQuiet :
      (parent : ℕ) (name : Bytes) (directory : Bool)
      → IsQuiet (get_or_create_inode parent name directory)
  unfolding get_or_create_inode
  get_or_create_inode-IsQuiet parent name directory = Gives-bind (inode_get-IsQuiet parent) λ found.
      Gives-found found (IsQuiet-pure none) λ pi. Gives-bind (load_inode-IsQuiet pi) λ parent_inode.
        Gives-if _ (IsQuiet-pure none) (
          Gives-bind (inode_new-IsQuiet directory) λ i.
            Gives-bind (load_inode-IsQuiet i)
              λ ino. Gives-bind (store_inode-IsQuiet i _) λ _. IsQuiet-pure (some i))

  get_or_create_file_inode-IsQuiet :
      (parent : ℕ) (name : Bytes) → IsQuiet (get_or_create_file_inode parent name)
  unfolding get_or_create_file_inode
  get_or_create_file_inode-IsQuiet parent name =
      Gives-bind (get_or_create_inode-IsQuiet parent name false) λ found.
        Gives-bind (not_null-IsQuiet found) λ i.
          Gives-bind (load_inode-IsQuiet i)
            λ ino. Gives-bind (store_inode-IsQuiet i _) λ _. IsQuiet-pure i

  file_new-IsQuiet : (name : Bytes) → IsQuiet (file_new name)
  unfolding file_new
  file_new-IsQuiet name = Gives-bind (get_or_create_file_inode-IsQuiet 1 name) λ i.
      Gives-bind (new_file-IsQuiet _) λ q.
        Gives-bind
          (Gives-if _ (Gives-bind (load_inode-IsQuiet i) λ ino. store_inode-IsQuiet i _)
            (IsQuiet-pure tt))
          λ _. IsQuiet-pure q

  pub file_get_or_create-IsQuiet : (value : Bytes) → IsQuiet (file_get_or_create value)
  unfolding file_get_or_create
  file_get_or_create-IsQuiet value = Gives-bind {A = Option Ptr} (IsQuiet-gets _) λ found.
      Gives-found found
        (Gives-bind (file_new-IsQuiet value) λ q.
          Gives-bind
            (modify-IsQuiet {g = λ s. record s { files = (ht_add_entry s.files value q).1 }}
              (λ s. refl))
            λ _. IsQuiet-pure q)
        λ q. IsQuiet-pure q

  pub tag_get_or_create-IsQuiet : (value : Bytes) → IsQuiet (tag_get_or_create value)
  unfolding tag_get_or_create tag_new
  tag_get_or_create-IsQuiet value = Gives-bind {A = Option Ptr} (IsQuiet-gets _) λ found.
      Gives-found found
        (Gives-bind (new_tag-IsQuiet (record { value = value; files = ht_create })) λ p.
          Gives-bind
            (modify-IsQuiet {g = λ s. record s { tags = (ht_add_entry s.tags value p).1 }}
              (λ s. refl))
            λ _. IsQuiet-pure p)
        λ p. IsQuiet-pure p

  for_each-IsQuiet :
      (es : Entries) (fun : Bytes → Ptr → Cmd (Unit {0}))
      → ((key : Bytes) (value : Ptr) → IsQuiet (fun key value))
      → IsQuiet (for_each es fun)
  unfolding for_each
  for_each-IsQuiet [] fun quiet = IsQuiet-pure tt
  for_each-IsQuiet ((key, value) ∷ es) fun quiet =
      Gives-bind (quiet key value) λ _. for_each-IsQuiet es fun quiet

  pub tag_remove-IsQuiet : (p : Ptr) → IsQuiet (tag_remove p)
  unfolding tag_remove remove_from_file
  tag_remove-IsQuiet p = Gives-bind (load_tag-IsQuiet p) λ t.
      Gives-bind
        (for_each-IsQuiet _ _ λ _ q.
          Gives-bind (load_file-IsQuiet q)
            λ f. Gives-bind (load_tag-IsQuiet p) λ t'. store_file-IsQuiet q _)
        λ _.
          Gives-bind (load_tag-IsQuiet p)
            λ t'. Gives-bind (modify-IsQuiet λ s. refl) λ _. free_tag-IsQuiet p

  pub tag_file-IsQuiet : (p q : Ptr) → IsQuiet (tag_file p q)
  unfolding tag_file
  tag_file-IsQuiet p q = Gives-bind (load_tag-IsQuiet p) λ t.
      Gives-bind (load_file-IsQuiet q)
        λ f. Gives-bind (store_tag-IsQuiet p _) λ _. store_file-IsQuiet q _

  pub untag_file-IsQuiet : (p q : Ptr) → IsQuiet (untag_file p q)
  unfolding untag_file
  untag_file-IsQuiet p q = Gives-bind (load_file-IsQuiet q) λ f.
      Gives-bind (load_tag-IsQuiet p)
        λ t. Gives-bind (store_file-IsQuiet q _) λ _. store_tag-IsQuiet p _

  print_tags-IsQuiet : (es : Entries) → IsQuiet (print_tags es)
  unfolding print_tags
  print_tags-IsQuiet [] = IsQuiet-pure []
  print_tags-IsQuiet ((_, p) ∷ es) =
      Gives-bind (load_tag-IsQuiet p) λ t. Gives-bind (print_tags-IsQuiet es) λ text. IsQuiet-pure _

  dump_files-IsQuiet : (qs : List Ptr) → IsQuiet (dump_files qs)
  unfolding dump_files
  dump_files-IsQuiet [] = IsQuiet-pure []
  dump_files-IsQuiet (q ∷ qs) = Gives-bind (load_file-IsQuiet q) λ f.
      Gives-if _ (dump_files-IsQuiet qs) (
        Gives-bind (print_tags-IsQuiet _)
          λ tag_lines. Gives-bind (dump_files-IsQuiet qs) λ text. IsQuiet-pure _)

  pub tag_db_dump-IsQuiet : IsQuiet tag_db_dump
  unfolding tag_db_dump file_list
  tag_db_dump-IsQuiet = Gives-bind (IsQuiet-gets _) λ l. dump_files-IsQuiet l

  pub file_open-IsQuiet : (f : File) (flags : ℕ) → IsQuiet (file_open f flags)
  unfolding file_open
  file_open-IsQuiet f flags = syscall-IsQuiet _

  pub file_read-IsQuiet : (fd len off : ℕ) → IsQuiet (file_read fd len off)
  unfolding file_read
  file_read-IsQuiet fd len off = Gives-bind (syscall-IsQuiet λ w. O.lseek w fd off) λ sought.
      Gives-result sought (λ e. IsQuiet-pure (neg e, []))
        λ _. Gives-bind (syscall-IsQuiet λ w. O.read w fd len) λ r.
          Gives-result r (λ e. IsQuiet-pure (neg e, []))
            λ bytes. IsQuiet-pure (pos (length bytes), bytes ++ replicate (len - length bytes) 0)

  pub file_write-IsQuiet : (fd : ℕ) (buffer : Bytes) (off : ℕ) → IsQuiet (file_write fd buffer off)
  unfolding file_write
  file_write-IsQuiet fd buffer off = Gives-bind (syscall-IsQuiet λ w. O.lseek w fd off) λ sought.
      Gives-result sought (λ e. IsQuiet-pure (neg e))
        λ _.
          Gives-bind (syscall-IsQuiet λ w. O.write w fd buffer)
            λ r. Gives-result r (λ e. IsQuiet-pure (neg e)) λ n. IsQuiet-pure (pos n)

  pub file_close-IsQuiet : (fd : ℕ) → IsQuiet (file_close fd)
  unfolding file_close
  file_close-IsQuiet fd =
      Gives-bind (syscall-IsQuiet λ w. O.close w fd)
        λ r. Gives-result r (λ e. IsQuiet-pure (neg e)) λ _. IsQuiet-pure (pos 0)
