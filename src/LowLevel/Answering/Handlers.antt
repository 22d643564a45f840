-- ===== src/LowLevel/Answering/Handlers.antt =====
-- The other handlers of fuse_lowlevel/fuse_callback.c, but `tag_ioctl`, give one answer each.
use tag_filesystem.Base.{ℕ, Bytes, ℤ, pos, negsuc}
use tag_filesystem.Cutil.HashTable.{Ptr, Uthash}
use tag_filesystem.LowLevel.Answering.Lookups.{stat_into-IsQuiet}
use tag_filesystem.LowLevel.Answering.Quiet.{
  inode_get-IsQuiet, file_get_or_create-IsQuiet, tag_db_dump-IsQuiet, file_open-IsQuiet,
  file_read-IsQuiet, file_write-IsQuiet, file_close-IsQuiet,
}
use tag_filesystem.LowLevel.Answering.{
  IsQuiet, AnswersOnce, Gives-bind, Gives-if, Gives-stop, Gives-found, Gives-result, IsQuiet-pure,
  IsQuiet-gets, not_null-IsQuiet, syscall-IsQuiet, reply-AnswersOnce, load_file-IsQuiet,
  load_inode-IsQuiet, store_inode-IsQuiet,
}
use tag_filesystem.LowLevel.Callback.Answer.{reply_buf_limited}
use tag_filesystem.LowLevel.Callback.Attr.{
  getattr_inode, tag_getattr, setattr_file, set_times, tag_setattr,
}
use tag_filesystem.LowLevel.Callback.Content.{
  open_inode, tag_open, tag_opendir, tag_releasedir, tag_release, read_tag_file, answer_read,
  tag_read, answer_write, tag_write,
}
use tag_filesystem.LowLevel.Inode.{zero_attr}
use tag_filesystem.LowLevel.Os.{Os, Attr}
use tag_filesystem.LowLevel.State.{reply_err, reply_attr}

module _ ⦃U : Uthash⦄ ⦃O : Os⦄ where
  getattr_inode-AnswersOnce : (i : Ptr) → AnswersOnce (getattr_inode i)
  unfolding getattr_inode
  getattr_inode-AnswersOnce i = Gives-bind (load_inode-IsQuiet i) λ ino.
      Gives-bind (Gives-if _ (IsQuiet-pure O.realdirpath) (not_null-IsQuiet ino.realpath)) λ path.
        Gives-bind (stat_into-IsQuiet path zero_attr)
          λ res. Gives-found res.0 (reply-AnswersOnce _) λ e. reply-AnswersOnce _

  pub tag_getattr-AnswersOnce : (number : ℕ) → AnswersOnce (tag_getattr number)
  unfolding tag_getattr
  tag_getattr-AnswersOnce number =
      Gives-bind (inode_get-IsQuiet number)
        λ found. Gives-found found (reply-AnswersOnce _) λ i. getattr_inode-AnswersOnce i

  setattr_file-AnswersOnce :
      (q : Ptr) (attr : Attr) (to_set : ℕ) → AnswersOnce (setattr_file q attr to_set)
  unfolding setattr_file
  setattr_file-AnswersOnce q attr to_set = Gives-bind (load_file-IsQuiet q) λ f.
      Gives-bind
        (Gives-if _
          (Gives-bind (syscall-IsQuiet λ w. (tt, O.chmod w f.realpath attr.st_mode)) λ _.
            Gives-bind (load_inode-IsQuiet f.ino) λ ino.
              store_inode-IsQuiet f.ino
                (record ino { st = record ino.st { st_mode = attr.st_mode } }))
          (IsQuiet-pure tt))
        λ _. Gives-bind (load_inode-IsQuiet f.ino) λ ino.
          Gives-bind (store_inode-IsQuiet f.ino (record ino { st = set_times to_set attr ino.st }))
            λ _.
              Gives-bind
                (syscall-IsQuiet λ w. (
                  tt,
                  O.utimensat w f.realpath (set_times to_set attr ino.st).st_atim
                      (set_times to_set attr ino.st).st_mtim,
                ))
                λ _. reply-AnswersOnce (reply_attr (set_times to_set attr ino.st))

  pub tag_setattr-AnswersOnce :
      (number : ℕ) (attr : Attr) (to_set : ℕ) → AnswersOnce (tag_setattr number attr to_set)
  unfolding tag_setattr
  tag_setattr-AnswersOnce number attr to_set = Gives-bind (inode_get-IsQuiet number) λ found.
      Gives-found found (reply-AnswersOnce _) λ i. Gives-bind (load_inode-IsQuiet i) λ ino.
        Gives-if _ (reply-AnswersOnce _) (
          Gives-bind (not_null-IsQuiet ino.name) λ name.
            Gives-bind (file_get_or_create-IsQuiet name)
              λ q. setattr_file-AnswersOnce q attr to_set)

  open_inode-AnswersOnce : (i : Ptr) (flags : ℕ) → AnswersOnce (open_inode i flags)
  unfolding open_inode
  open_inode-AnswersOnce i flags = Gives-bind (load_inode-IsQuiet i) λ ino.
      Gives-bind (not_null-IsQuiet ino.name) λ name.
        Gives-bind (file_get_or_create-IsQuiet name) λ q. Gives-bind (load_file-IsQuiet q) λ f.
          Gives-bind (file_open-IsQuiet f flags) λ fd.
            Gives-result fd (λ e. reply-AnswersOnce _)
              λ fh.
                Gives-bind (load_inode-IsQuiet i)
                  λ ino'. Gives-bind (store_inode-IsQuiet i _) λ _. reply-AnswersOnce _

  pub tag_open-AnswersOnce : (number flags : ℕ) → AnswersOnce (tag_open number flags)
  unfolding tag_open
  tag_open-AnswersOnce number flags = Gives-bind (inode_get-IsQuiet number) λ found.
      Gives-found found
        (Gives-bind (IsQuiet-gets λ s. O.errno s.world) λ e. reply-AnswersOnce (reply_err e))
        λ i. open_inode-AnswersOnce i flags

  pub tag_opendir-AnswersOnce : (number : ℕ) → AnswersOnce (tag_opendir number)
  unfolding tag_opendir
  tag_opendir-AnswersOnce number = Gives-bind (inode_get-IsQuiet number) λ found.
      Gives-found found (reply-AnswersOnce _) λ i.
        Gives-bind (load_inode-IsQuiet i)
          λ ino. Gives-if _ (reply-AnswersOnce _) (reply-AnswersOnce _)

  pub tag_releasedir-AnswersOnce : AnswersOnce tag_releasedir
  unfolding tag_releasedir
  tag_releasedir-AnswersOnce = reply-AnswersOnce _

  pub tag_release-AnswersOnce : (fd : ℕ) → AnswersOnce (tag_release fd)
  unfolding tag_release
  tag_release-AnswersOnce fd = Gives-bind (file_close-IsQuiet fd) λ res. reply-AnswersOnce _

  pub reply_buf_limited-AnswersOnce :
      (buf : Bytes) (size off maxsize : ℕ) → AnswersOnce (reply_buf_limited buf size off maxsize)
  unfolding reply_buf_limited
  reply_buf_limited-AnswersOnce buf size off maxsize =
      Gives-if _ (Gives-if _ (reply-AnswersOnce _) Gives-stop) (reply-AnswersOnce _)

  answer_read-AnswersOnce :
      (res : ℤ × Bytes) (size off : ℕ) → AnswersOnce (answer_read res size off)
  unfolding answer_read
  answer_read-AnswersOnce (negsuc e, buffer) size off = reply-AnswersOnce _
  answer_read-AnswersOnce (pos n, buffer) size off =
      reply_buf_limited-AnswersOnce buffer size off size

  read_tag_file-IsQuiet : (len off : ℕ) → IsQuiet (read_tag_file len off)
  unfolding read_tag_file
  read_tag_file-IsQuiet len off = Gives-bind tag_db_dump-IsQuiet λ text. IsQuiet-pure _

  pub tag_read-AnswersOnce : (number size off fd : ℕ) → AnswersOnce (tag_read number size off fd)
  unfolding tag_read
  tag_read-AnswersOnce number size off fd = Gives-bind (inode_get-IsQuiet number) λ found.
      Gives-found found (reply-AnswersOnce _) λ i. Gives-bind (load_inode-IsQuiet i) λ ino.
        Gives-bind (Gives-if _ (read_tag_file-IsQuiet size off) (file_read-IsQuiet fd size off))
          λ res. answer_read-AnswersOnce res size off

  answer_write-AnswersOnce : (res : ℤ) → AnswersOnce (answer_write res)
  unfolding answer_write
  answer_write-AnswersOnce (negsuc e) = reply-AnswersOnce _
  answer_write-AnswersOnce (pos n) = reply-AnswersOnce _

  pub tag_write-AnswersOnce :
      (number : ℕ) (buf : Bytes) (off fd : ℕ) → AnswersOnce (tag_write number buf off fd)
  unfolding tag_write
  tag_write-AnswersOnce number buf off fd = Gives-bind (inode_get-IsQuiet number) λ found.
      Gives-found found (reply-AnswersOnce _) λ i. Gives-bind (load_inode-IsQuiet i) λ ino.
        Gives-if _ (reply-AnswersOnce _)
          (Gives-bind (file_write-IsQuiet fd buf off) λ res. answer_write-AnswersOnce res)
