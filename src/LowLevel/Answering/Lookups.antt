-- ===== src/LowLevel/Answering/Lookups.antt =====
-- The handlers of fuse_lowlevel/fuse_callback.c that look names up and forget them give one answer each.
use tag_filesystem.Base.{ℕ, Bool, true, false, Option, none, some, [], ◌∷◌, Bytes, refl}
use tag_filesystem.Cutil.HashTable.{Ptr, Entries, Uthash, HashTable}
use tag_filesystem.LowLevel.Answering.Quiet.{
  inode_get-IsQuiet, tag_exist-IsQuiet, inode_delete_if_noref-IsQuiet,
  create_directory_inode-IsQuiet, file_get_or_create-IsQuiet,
}
use tag_filesystem.LowLevel.Answering.{
  IsQuiet, AnswersOnce, Gives-bind, Gives-if, Gives-found, Gives-result, Gives-total, IsQuiet-pure,
  not_null-IsQuiet, syscall-IsQuiet, reply-AnswersOnce, load_tag-IsQuiet, load_file-IsQuiet,
  load_inode-IsQuiet, store_inode-IsQuiet,
}
use tag_filesystem.LowLevel.Callback.Answer.{
  next_gen_number, check_tags, file_matches_tags, stat_into, answer_entry,
}
use tag_filesystem.LowLevel.Callback.Attr.{
  forget_lookups, tag_forget, is_other_tag, lookup_answer, lookup_tag, lookup_file, tag_lookup,
}
use tag_filesystem.LowLevel.Inode.{zero_attr, tag_realpath}
use tag_filesystem.LowLevel.Os.{Os, Attr}

module _ ⦃U : Uthash⦄ ⦃O : Os⦄ where
  pub next_gen_number-IsQuiet : IsQuiet next_gen_number
  unfolding next_gen_number
  next_gen_number-IsQuiet = Gives-total false _ _ (λ s. refl) (λ s. refl)

  pub answer_entry-AnswersOnce : (number : ℕ) (st : Attr) → AnswersOnce (answer_entry number st)
  unfolding answer_entry
  answer_entry-AnswersOnce number st = Gives-bind next_gen_number-IsQuiet λ g. reply-AnswersOnce _

  pub stat_into-IsQuiet : (path : Bytes) (st : Attr) → IsQuiet (stat_into path st)
  unfolding stat_into
  stat_into-IsQuiet path st =
      Gives-bind (syscall-IsQuiet λ w. O.stat w path)
        λ r. Gives-result r (λ e. IsQuiet-pure (some e, st)) λ st'. IsQuiet-pure (none, st')

  check_tags-IsQuiet : (es : Entries) (q : Ptr) (match : Bool) → IsQuiet (check_tags es q match)
  unfolding check_tags
  check_tags-IsQuiet [] q match = IsQuiet-pure match
  check_tags-IsQuiet ((_, p) ∷ es) q match = Gives-if _ (check_tags-IsQuiet es q false) (
      Gives-bind (load_tag-IsQuiet p)
        λ t. Gives-bind (load_file-IsQuiet q) λ f. check_tags-IsQuiet es q _)

  pub file_matches_tags-IsQuiet : (q : Ptr) (h : HashTable) → IsQuiet (file_matches_tags q h)
  unfolding file_matches_tags
  file_matches_tags-IsQuiet q h = check_tags-IsQuiet _ q true

  pub is_other_tag-IsQuiet : (name : Bytes) (h : Option HashTable) → IsQuiet (is_other_tag name h)
  unfolding is_other_tag
  is_other_tag-IsQuiet name h = Gives-bind (tag_exist-IsQuiet name) λ exists.
      Gives-if _ (IsQuiet-pure false) (Gives-bind (not_null-IsQuiet h) λ table. IsQuiet-pure _)

  forget_lookups-IsQuiet : (i : Ptr) (n : ℕ) → IsQuiet (forget_lookups i n)
  unfolding forget_lookups
  forget_lookups-IsQuiet i n =
      Gives-bind (load_inode-IsQuiet i)
        λ ino. Gives-bind (store_inode-IsQuiet i _) λ _. inode_delete_if_noref-IsQuiet i

  pub tag_forget-AnswersOnce : (number n : ℕ) → AnswersOnce (tag_forget number n)
  unfolding tag_forget
  tag_forget-AnswersOnce number n = Gives-bind (inode_get-IsQuiet number) λ found.
      Gives-bind (Gives-found found (IsQuiet-pure tt) λ i. forget_lookups-IsQuiet i n)
        λ _. reply-AnswersOnce _

  lookup_answer-AnswersOnce : (i : Ptr) (st : Attr) → AnswersOnce (lookup_answer i st)
  unfolding lookup_answer
  lookup_answer-AnswersOnce i st =
      Gives-bind (load_inode-IsQuiet i)
        λ ino. Gives-bind (store_inode-IsQuiet i _) λ _. answer_entry-AnswersOnce _ _

  lookup_tag-AnswersOnce :
      (parent : Ptr) (name : Bytes) (st : Attr) → AnswersOnce (lookup_tag parent name st)
  unfolding lookup_tag
  lookup_tag-AnswersOnce parent name st = Gives-bind (load_inode-IsQuiet parent) λ p.
      Gives-bind (is_other_tag-IsQuiet name p.selected_tags) λ other.
        Gives-if _ (reply-AnswersOnce _) (
          Gives-bind (stat_into-IsQuiet O.realdirpath st) λ res.
            Gives-bind (create_directory_inode-IsQuiet parent name)
              λ i. lookup_answer-AnswersOnce i res.1)

  lookup_file-AnswersOnce :
      (parent : Ptr) (parentnum : ℕ) (name : Bytes) (st : Attr)
      → AnswersOnce (lookup_file parent parentnum name st)
  unfolding lookup_file
  lookup_file-AnswersOnce parent parentnum name st =
      Gives-bind (file_get_or_create-IsQuiet name) λ q. Gives-bind (load_file-IsQuiet q) λ f.
        Gives-bind (load_inode-IsQuiet f.ino) λ ino. Gives-bind (store_inode-IsQuiet f.ino _) λ _.
          Gives-if _ (lookup_answer-AnswersOnce f.ino _) (
            Gives-bind (load_inode-IsQuiet parent) λ p.
              Gives-bind (not_null-IsQuiet p.selected_tags) λ selected.
                Gives-bind (file_matches_tags-IsQuiet q selected)
                  λ match. Gives-if _ (reply-AnswersOnce _) (lookup_answer-AnswersOnce f.ino _))

  pub tag_lookup-AnswersOnce :
      (parentnum : ℕ) (name : Bytes) → AnswersOnce (tag_lookup parentnum name)
  unfolding tag_lookup
  tag_lookup-AnswersOnce parentnum name = Gives-bind (inode_get-IsQuiet parentnum) λ found.
      Gives-found found (reply-AnswersOnce _) λ parent.
        Gives-bind (stat_into-IsQuiet (tag_realpath name) zero_attr) λ res.
          Gives-if _ (lookup_tag-AnswersOnce parent name res.1)
            (lookup_file-AnswersOnce parent parentnum name res.1)
