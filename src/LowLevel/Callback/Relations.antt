-- ===== src/LowLevel/Callback/Relations.antt =====
-- `tag_unlink` and `tag_link`: what they do to the relation between files and tags, and what they
-- answer, on a session whose view is valid.
use tag_filesystem.Base.Store.{◌>>=◌, Returns, Returns-bind}
use tag_filesystem.Base.{
  ℕ, ◌+◌, ◌%◌, ◌^◌, ◌≡◌, ◌∙◌, refl, ap, Bool, true, false, ◌&&◌, some, [], ◌∷◌, ◌++◌, Bytes, ◌==◌,
  ltb, str_eq, if◌then◌else◌,
}
use tag_filesystem.Cutil.HashTable.{Ptr, Uthash, HashTable, ht_get_entry, ht_entry_count}
use tag_filesystem.Fuse.Os.{Os as FuseOs}
use tag_filesystem.Fuse.Valid.{IsValid, has_tag}
use tag_filesystem.LowLevel.Callback.Answer.{next_gen_number}
use tag_filesystem.LowLevel.Callback.Linking.{tag_link, link_file}
use tag_filesystem.LowLevel.Callback.Making.{tag_unlink, unlink_file}
use tag_filesystem.LowLevel.File.{file_get, file_get_or_create}
use tag_filesystem.LowLevel.Inode.{ino_key, inode_get, tag_get}
use tag_filesystem.LowLevel.Linking.{Retags, tag_file_lem, untag_file_lem}
use tag_filesystem.LowLevel.Os.{Os}
use tag_filesystem.LowLevel.State.Runs.{answered, reply-run, load_inode-run}
use tag_filesystem.LowLevel.State.{Inode, Reply, Session, invalid_tag, reply_err, reply_entry}
use tag_filesystem.LowLevel.Tag.{tag_file, untag_file}
use tag_filesystem.LowLevel.View.{as_fs}

module _ ⦃U : Uthash⦄ ⦃O : Os⦄ where
  pub tag_get-run :
      (s : Session) (v : Bytes) {p : Ptr}
      → ht_get_entry s.tags v ≡ some p
      → tag_get v s ≡ some (p, s)
  unfolding tag_get
  tag_get-run s v e = rw e refl

  pub inode_get-run :
      (s : Session) (m : ℕ) {i : Ptr}
      → ht_get_entry s.itable (ino_key m) ≡ some i
      → inode_get m s ≡ some (some i, s)
  unfolding inode_get
  inode_get-run s m e = rw e refl

  pub file_get-run :
      (s : Session) (n : Bytes) {q : Ptr}
      → ht_get_entry s.files n ≡ some q
      → file_get n s ≡ some (some q, s)
  unfolding file_get
  file_get-run s n e = rw e refl

  -- the generation that the next answer has
  abbrev pub generation_of : Session → ℕ
  generation_of s = if s.next_gen == 0 then 1 else s.next_gen

  module _ ⦃F : FuseOs⦄ (w : F.World) where
    -- the session is valid afterwards, has this relation, and one answer more
    pub record Answers (s : Session) (r : Reply) (view : Bytes → Bytes → Bool) (s' : Session)
        : Type 0 where
      pub valid : IsValid (as_fs w s')
      pub relation : (n v : Bytes) → has_tag (as_fs w s') n v ≡ view n v
      pub answer : s'.replies ≡ s.replies ++ r ∷ []

    -- one change of the relation, and then the answer
    retags_answer :
        {s s₁ s' : Session} {n v : Bytes} {b : Bool} {r : Reply}
        → Retags w s₁ n v b s'
        → s₁.replies ≡ s.replies
        → Answers s r
            (λ m u. if str_eq n m && str_eq v u then b else has_tag (as_fs w s₁) m u)
            (answered s' r)
    retags_answer {r = r} k e = record {
      valid = k.changes.valid;
      relation = k.changes.view;
      answer = ap (λ l. l ++ r ∷ []) (k.same_replies ∙ e);
    }

    -- `tag_unlink` in the directory of one tag that is not the root, for a known file, on a
    -- session with a valid view, does not fault, is answered with success once, keeps the view
    -- valid, and takes exactly this tag from the file.
    pub tag_unlink_lem :
        (s : Session) (parentnum : ℕ) (i : Ptr) (parent : Inode) (selected : HashTable)
        (n v : Bytes) (p q : Ptr)
        → IsValid (as_fs w s)
        → ht_get_entry s.itable (ino_key parentnum) ≡ some i
        → s.inode_at i ≡ some parent
        → parent.is_directory ≡ true
        → parent.name ≡ some v
        → parent.selected_tags ≡ some selected
        → ht_get_entry s.tags v ≡ some p
        → (p == invalid_tag) ≡ false
        → ht_get_entry s.files n ≡ some q
        → (parentnum == 1) ≡ false
        → ltb 1 (ht_entry_count selected) ≡ false
        → Returns (tag_unlink parentnum n s) (λ _ s'.
          Answers s
            (reply_err 0)
            (λ m u. if str_eq n m && str_eq v u then false else has_tag (as_fs w s) m u)
            s')
    unfolding tag_unlink unlink_file
    tag_unlink_lem s parentnum i parent selected n v p q valid known here directory named tags ev
          real en other few =
        rw
          (
            other,
            file_get-run s n en,
            ◌>>=◌,
            inode_get-run s parentnum known,
            load_inode-run s i here,
            directory,
            tags,
            few,
            named,
            tag_get-run s v ev,
            real,
          )
          (Returns-bind (untag_file p q) _ s (untag_file_lem w s valid ev en)
            λ _ s' k. (tt, _, reply-run s' _, retags_answer k refl))

    link_file_lem :
        (s : Session) (fileino : Inode) (n v : Bytes) (p q : Ptr)
        → IsValid (as_fs w s)
        → ht_get_entry s.tags v ≡ some p
        → ht_get_entry s.files n ≡ some q
        → Returns (link_file fileino (some v) n s) (λ _ s'.
          Answers s
            (reply_entry
              (record { ino = fileino.number; generation = generation_of s; attr = fileino.st }))
            (λ m u. if str_eq n m && str_eq v u then true else has_tag (as_fs w s) m u)
            s')
    unfolding link_file next_gen_number file_get_or_create
    link_file_lem s fileino n v p q valid ev en =
        let s1 : Session = record s { next_gen = (generation_of s + 1) % 2 ^ 64 } in
        rw (en, ◌>>=◌, tag_get-run s1 v ev)
          (Returns-bind (tag_file p q) _ s1 (tag_file_lem w s1 valid ev en)
            λ _ s' k. (tt, _, reply-run s' _, retags_answer k refl))

    -- `tag_link` of the inode of a known file under its own name into the directory of a tag, on a
    -- session with a valid view, does not fault, is answered once with the number, the attributes
    -- and a generation for this inode, keeps the view valid, and gives exactly this tag to the
    -- file.
    pub tag_link_lem :
        (s : Session) (number newparent : ℕ) (i j : Ptr) (fileino parent : Inode)
        (n v newname : Bytes) (p q : Ptr)
        → IsValid (as_fs w s)
        → ht_get_entry s.itable (ino_key number) ≡ some i
        → s.inode_at i ≡ some fileino
        → fileino.is_directory ≡ false
        → fileino.name ≡ some n
        → str_eq newname n ≡ true
        → ht_get_entry s.itable (ino_key newparent) ≡ some j
        → s.inode_at j ≡ some parent
        → parent.is_directory ≡ true
        → parent.name ≡ some v
        → ht_get_entry s.tags v ≡ some p
        → ht_get_entry s.files n ≡ some q
        → Returns (tag_link number newparent newname s) (λ _ s'.
          Answers s
            (reply_entry
              (record { ino = fileino.number; generation = generation_of s; attr = fileino.st }))
            (λ m u. if str_eq n m && str_eq v u then true else has_tag (as_fs w s) m u)
            s')
    unfolding tag_link
    tag_link_lem s number newparent i j fileino parent n v newname p q valid fi fh file fn same pi
          ph directory pn ev en =
        rw
          (
            inode_get-run s newparent pi,
            ◌>>=◌,
            inode_get-run s number fi,
            load_inode-run s i fh,
            file,
            fn,
            same,
            load_inode-run s j ph,
            directory,
            pn,
          )
          (link_file_lem s fileino n v p q valid ev en)
