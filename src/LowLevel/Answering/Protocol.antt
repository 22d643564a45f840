-- ===== src/LowLevel/Answering/Protocol.antt =====
-- The handlers of fuse_lowlevel/fuse_callback.c that change names and tags give one answer each, and
-- the statement on all handlers.
use tag_filesystem.Base.{
  ℕ, Bool, true, false, Option, none, some, List, [], ◌∷◌, ◌++◌, ◌≡◌, arith, Bytes,
}
use tag_filesystem.Cutil.HashTable.{Ptr, Uthash}
use tag_filesystem.LowLevel.Answering.Handlers.{
  tag_getattr-AnswersOnce, tag_setattr-AnswersOnce, tag_open-AnswersOnce, tag_opendir-AnswersOnce,
  tag_releasedir-AnswersOnce, tag_release-AnswersOnce, tag_read-AnswersOnce, tag_write-AnswersOnce,
}
use tag_filesystem.LowLevel.Answering.Lookups.{
  next_gen_number-IsQuiet, answer_entry-AnswersOnce, stat_into-IsQuiet, tag_forget-AnswersOnce,
  tag_lookup-AnswersOnce,
}
use tag_filesystem.LowLevel.Answering.Quiet.{
  inode_get-IsQuiet, tag_get-IsQuiet, file_get-IsQuiet, create_directory_inode-IsQuiet,
  file_get_or_create-IsQuiet, tag_get_or_create-IsQuiet, tag_remove-IsQuiet, tag_file-IsQuiet,
  untag_file-IsQuiet,
}
use tag_filesystem.LowLevel.Answering.{
  IsQuiet, AnswersOnce, Gives-bind, Gives-if, Gives-found, Gives-result, IsQuiet-pure,
  not_null-IsQuiet, syscall-IsQuiet, reply-AnswersOnce, load_file-IsQuiet, load_inode-IsQuiet,
  store_inode-IsQuiet,
}
use tag_filesystem.LowLevel.Callback.Linking.{
  link_file, tag_link, untag_all, tag_all, rename_file, rename_found, tag_rename,
}
use tag_filesystem.LowLevel.Callback.Making.{
  unlink_file, tag_unlink, tag_rmdir, make_tag, tag_mkdir, answer_node, tag_mknod,
}
use tag_filesystem.LowLevel.Callback.Table.{Request, tag_oper}
use tag_filesystem.LowLevel.Callback.Table.Request.{
  lookup, forget, getattr, setattr, open_file, read, write, release, opendir, releasedir, readdir,
  link, unlink, rename, mkdir, rmdir, mknod, ioctl,
}
use tag_filesystem.LowLevel.Answering.Listings.{tag_readdir-AnswersOnce}
use tag_filesystem.LowLevel.Inode.{zero_attr, tag_realpath}
use tag_filesystem.LowLevel.Os.{Os}
use tag_filesystem.LowLevel.State.{Inode, Reply, Session, reply_err}

module _ ⦃U : Uthash⦄ ⦃O : Os⦄ where
  unlink_file-AnswersOnce : (parentnum : ℕ) (f : Ptr) → AnswersOnce (unlink_file parentnum f)
  unfolding unlink_file
  unlink_file-AnswersOnce parentnum f = Gives-bind (inode_get-IsQuiet parentnum) λ found.
      Gives-bind (not_null-IsQuiet found) λ i. Gives-bind (load_inode-IsQuiet i) λ parent.
        Gives-if _ (reply-AnswersOnce _) (
          Gives-bind (not_null-IsQuiet parent.selected_tags) λ selected.
            Gives-if _ (reply-AnswersOnce _) (
              Gives-bind (not_null-IsQuiet parent.name) λ name.
                Gives-bind (tag_get-IsQuiet name) λ t.
                  Gives-if _ (reply-AnswersOnce _)
                    (Gives-bind (untag_file-IsQuiet t f) λ _. reply-AnswersOnce _)))

  tag_unlink-AnswersOnce : (parentnum : ℕ) (name : Bytes) → AnswersOnce (tag_unlink parentnum name)
  unfolding tag_unlink
  tag_unlink-AnswersOnce parentnum name = Gives-if _ (reply-AnswersOnce _) (
      Gives-bind (file_get-IsQuiet name)
        λ found. Gives-found found (reply-AnswersOnce _) λ f. unlink_file-AnswersOnce parentnum f)

  tag_rmdir-AnswersOnce : (parentnum : ℕ) (name : Bytes) → AnswersOnce (tag_rmdir parentnum name)
  unfolding tag_rmdir
  tag_rmdir-AnswersOnce parentnum name = Gives-if _ (reply-AnswersOnce _) (
      Gives-bind (tag_get-IsQuiet name) λ t.
        Gives-if _ (Gives-bind (file_get-IsQuiet name) λ f. reply-AnswersOnce _)
          (Gives-bind (tag_remove-IsQuiet t) λ _. reply-AnswersOnce _))

  make_tag-AnswersOnce : (name : Bytes) → AnswersOnce (make_tag name)
  unfolding make_tag
  make_tag-AnswersOnce name = Gives-bind (tag_get_or_create-IsQuiet name) λ t.
      Gives-bind (inode_get-IsQuiet 1) λ root. Gives-bind (not_null-IsQuiet root) λ parent.
        Gives-bind (create_directory_inode-IsQuiet parent name) λ i.
          Gives-bind (stat_into-IsQuiet O.realdirpath zero_attr)
            λ res. Gives-bind (load_inode-IsQuiet i) λ ino. answer_entry-AnswersOnce _ _

  tag_mkdir-AnswersOnce : (parentnum : ℕ) (name : Bytes) → AnswersOnce (tag_mkdir parentnum name)
  unfolding tag_mkdir
  tag_mkdir-AnswersOnce parentnum name = Gives-if _ (reply-AnswersOnce _) (
      Gives-bind (tag_get-IsQuiet name)
        λ t. Gives-if _ (reply-AnswersOnce _) (make_tag-AnswersOnce name))

  answer_node-AnswersOnce : (name : Bytes) → AnswersOnce (answer_node name)
  unfolding answer_node
  answer_node-AnswersOnce name = Gives-bind (file_get_or_create-IsQuiet name) λ q.
      Gives-bind (load_file-IsQuiet q) λ f. Gives-bind (load_inode-IsQuiet f.ino) λ ino.
        Gives-bind (stat_into-IsQuiet f.realpath ino.st)
          λ res. Gives-bind (store_inode-IsQuiet f.ino _) λ _. answer_entry-AnswersOnce _ _

  tag_mknod-AnswersOnce :
      (parent : ℕ) (name : Bytes) (mode rdev : ℕ) → AnswersOnce (tag_mknod parent name mode rdev)
  unfolding tag_mknod
  tag_mknod-AnswersOnce parent name mode rdev = Gives-if _ (reply-AnswersOnce _) (
      Gives-bind (tag_get-IsQuiet name) λ t. Gives-if _ (reply-AnswersOnce _) (
        Gives-bind (syscall-IsQuiet λ w. O.mknod w (tag_realpath name) mode rdev) λ res.
          Gives-result res (λ e. reply-AnswersOnce (reply_err e))
            λ _. answer_node-AnswersOnce name))

  link_file-AnswersOnce :
      (fileino : Inode) (parent : Option Bytes) (name : Bytes)
      → AnswersOnce (link_file fileino parent name)
  unfolding link_file
  link_file-AnswersOnce fileino parent name = Gives-bind next_gen_number-IsQuiet λ generation.
      Gives-bind (file_get_or_create-IsQuiet name) λ f. Gives-bind (not_null-IsQuiet parent) λ tag.
        Gives-bind (tag_get-IsQuiet tag)
          λ t. Gives-bind (tag_file-IsQuiet t f) λ _. reply-AnswersOnce _

  tag_link-AnswersOnce :
      (number newparent : ℕ) (newname : Bytes) → AnswersOnce (tag_link number newparent newname)
  unfolding tag_link
  tag_link-AnswersOnce number newparent newname = Gives-bind (inode_get-IsQuiet newparent) λ parent.
      Gives-bind (inode_get-IsQuiet number) λ found. Gives-bind (not_null-IsQuiet found) λ i.
        Gives-bind (load_inode-IsQuiet i) λ fileino. Gives-if _ (reply-AnswersOnce _) (
          Gives-bind (not_null-IsQuiet fileino.name) λ name. Gives-if _ (reply-AnswersOnce _) (
            Gives-bind (not_null-IsQuiet parent) λ pi.
              Gives-bind (load_inode-IsQuiet pi)
                λ p. Gives-if _ (reply-AnswersOnce _) (link_file-AnswersOnce fileino p.name name)))

  untag_all-IsQuiet : (tags : List Bytes) (f : Ptr) → IsQuiet (untag_all tags f)
  unfolding untag_all
  untag_all-IsQuiet [] f = IsQuiet-pure tt
  untag_all-IsQuiet (tag ∷ tags) f =
      Gives-bind (tag_get-IsQuiet tag)
        λ t. Gives-bind (untag_file-IsQuiet t f) λ _. untag_all-IsQuiet tags f

  tag_all-IsQuiet : (tags : List Bytes) (f : Ptr) → IsQuiet (tag_all tags f)
  unfolding tag_all
  tag_all-IsQuiet [] f = IsQuiet-pure tt
  tag_all-IsQuiet (tag ∷ tags) f =
      Gives-bind (tag_get-IsQuiet tag)
        λ t. Gives-bind (tag_file-IsQuiet t f) λ _. tag_all-IsQuiet tags f

  rename_found-AnswersOnce : (o n f : Option Ptr) → AnswersOnce (rename_found o n f)
  unfolding rename_found rename_file
  rename_found-AnswersOnce (some o) (some n) (some f) = Gives-bind (load_inode-IsQuiet o) λ op.
      Gives-bind (load_inode-IsQuiet n) λ np. Gives-if _ (reply-AnswersOnce _) (
        Gives-bind (untag_all-IsQuiet op.tag f)
          λ _. Gives-bind (tag_all-IsQuiet np.tag f) λ _. reply-AnswersOnce _)
  rename_found-AnswersOnce none _ _ = reply-AnswersOnce _
  rename_found-AnswersOnce (some o) none _ = reply-AnswersOnce _
  rename_found-AnswersOnce (some o) (some n) none = reply-AnswersOnce _

  tag_rename-AnswersOnce :
      (parent : ℕ) (name : Bytes) (newparent : ℕ) (newname : Bytes)
      → AnswersOnce (tag_rename parent name newparent newname)
  unfolding tag_rename
  tag_rename-AnswersOnce parent name newparent newname = Gives-if _ (reply-AnswersOnce _) (
      Gives-bind (inode_get-IsQuiet parent) λ op.
        Gives-bind (inode_get-IsQuiet newparent)
          λ np. Gives-bind (file_get-IsQuiet name) λ f. rename_found-AnswersOnce op np f)

  abbrev pub is_ioctl : Request → Bool
  is_ioctl (ioctl _ _ _ _ _) = true
  is_ioctl _ = false

  tag_oper-AnswersOnce : (r : Request) → is_ioctl r ≡ false → AnswersOnce (tag_oper r)
  unfolding tag_oper
  tag_oper-AnswersOnce (lookup parent name) _ = tag_lookup-AnswersOnce parent name
  tag_oper-AnswersOnce (forget number n) _ = tag_forget-AnswersOnce number n
  tag_oper-AnswersOnce (getattr number) _ = tag_getattr-AnswersOnce number
  tag_oper-AnswersOnce (setattr number attr to_set) _ = tag_setattr-AnswersOnce number attr to_set
  tag_oper-AnswersOnce (open_file number flags) _ = tag_open-AnswersOnce number flags
  tag_oper-AnswersOnce (read number size off fd) _ = tag_read-AnswersOnce number size off fd
  tag_oper-AnswersOnce (write number buf off fd) _ = tag_write-AnswersOnce number buf off fd
  tag_oper-AnswersOnce (release fd) _ = tag_release-AnswersOnce fd
  tag_oper-AnswersOnce (opendir number) _ = tag_opendir-AnswersOnce number
  tag_oper-AnswersOnce releasedir _ = tag_releasedir-AnswersOnce
  tag_oper-AnswersOnce (link number newparent newname) _ =
      tag_link-AnswersOnce number newparent newname
  tag_oper-AnswersOnce (unlink parent name) _ = tag_unlink-AnswersOnce parent name
  tag_oper-AnswersOnce (rename parent name newparent newname) _ =
      tag_rename-AnswersOnce parent name newparent newname
  tag_oper-AnswersOnce (mkdir parent name) _ = tag_mkdir-AnswersOnce parent name
  tag_oper-AnswersOnce (rmdir parent name) _ = tag_rmdir-AnswersOnce parent name
  tag_oper-AnswersOnce (mknod parent name mode rdev) _ = tag_mknod-AnswersOnce parent name mode rdev
  tag_oper-AnswersOnce (readdir number size off fh) _ = tag_readdir-AnswersOnce number size off fh
  tag_oper-AnswersOnce (ioctl len number cmd flags in_buf) other = absurd (ground arith)

  -- A handler of the table other than `tag_ioctl` that returns has given exactly one answer more,
  -- on every session and every branch, errors included.
  pub tag_oper-replies :
      (r : Request) (s s' : Session)
      → is_ioctl r ≡ false
      → tag_oper r s ≡ some (tt, s')
      → (a : Reply) × (s'.replies ≡ s.replies ++ a ∷ [])
  tag_oper-replies r s s' other run = (tag_oper-AnswersOnce r other).grows s s' tt run
