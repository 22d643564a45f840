-- ===== src/LowLevel/Numbers.antt =====
-- The numbers of the inodes and of the generations.
use tag_filesystem.Base.Store.{◌>>=◌, Returns, write, write_at, write_elsewhere}
use tag_filesystem.Base.{
  ℕ, ◌-◌, ◌^◌, ◌≡◌, ◌≢◌, ◌≤◌, ◌<◌, ◌∙◌, ◌&&◌, refl, false, not, str_eq, Bool, none, some, [], ◌∷◌,
  ◌++◌, arith, ◌==◌, if◌then◌else◌, Bool-cases, inl, inr,
}
use tag_filesystem.Cutil.HashTable.{
  Ptr, Uthash, ht_get_entry, ht_remove_entry, IsUnique, get-remove,
}
use tag_filesystem.LowLevel.Callback.Answer.{next_gen_number}
use tag_filesystem.LowLevel.Callback.Attr.{drop_lookups, forget_lookups, tag_forget}
use tag_filesystem.LowLevel.Os.{Os}
use tag_filesystem.LowLevel.State.{Inode, Session, put_inode, free_inode, reply, reply_none}
use tag_filesystem.LowLevel.State.Runs.{load_inode-run, store_inode-run, reply-run}
use tag_filesystem.LowLevel.Inode.{ino_key, inode_delete_if_noref, inode_get}

drop_lookups_lem :
    (nlookup n : ℕ) → n ≤ nlookup → nlookup < 2 ^ 64 → drop_lookups nlookup n ≡ nlookup - n
unfolding drop_lookups
drop_lookups_lem nlookup n h b = ground arith

module _ ⦃U : Uthash⦄ ⦃O : Os⦄ where
  -- Where the counter is below 2^64, `next_gen_number` returns a number that is not 0 and is below
  -- 2^64, and leaves a counter below 2^64 that differs from it.
  pub next_gen_number_lem :
      (s : Session)
      → s.next_gen < 2 ^ 64
      → (n : ℕ) × (s' : Session) × (next_gen_number s ≡ some (n, s'))
        × (n ≢ 0)
        × (n < 2 ^ 64)
        × (s'.next_gen < 2 ^ 64)
        × (s'.next_gen ≢ n)
  unfolding next_gen_number
  next_gen_number_lem s h = (_, _, refl, ground arith, ground arith, ground arith, ground arith)

  -- whether a forgetting of `n` lookups is the last of an inode
  abbrev pub is_last : Inode → ℕ → Bool
  is_last ino n = not (ino.number == 1) && (ino.nlookup == n)

  pub ino_key-eq : (n m : ℕ) → str_eq (ino_key n) (ino_key m) ≡ (n == m)
  unfolding str_eq
  ino_key-eq n m = ground arith

  -- the session without the inode of the address `i`
  abbrev pub without_inode : Session → Ptr → Inode → Session
  without_inode s i ino = record s {
    itable = (ht_remove_entry s.itable (ino_key ino.number)).1;
    inode_at = write s.inode_at i none;
  }

  inode_delete_if_noref-run :
      (i : Ptr) (ino : Inode) (s : Session)
      → s.inode_at i ≡ some ino
      → inode_delete_if_noref i s ≡ some (tt, if is_last ino 0 then without_inode s i ino else s)
  unfolding inode_delete_if_noref free_inode
  inode_delete_if_noref-run i ino s e = elim (Bool-cases (is_last ino 0)) [
    | inl last ↦ rw (load_inode-run s i e, ◌>>=◌, last, e) refl
    | inr left ↦ rw (load_inode-run s i e, ◌>>=◌, left) refl
  ]

  -- what a forgetting of `n` lookups leaves of an inode
  pub record Forgets (s : Session) (i : Ptr) (ino : Inode) (n : ℕ) (s' : Session) : Type 0 where
    pub answer : s'.replies ≡ s.replies ++ reply_none ∷ []
    pub table :
        (m : ℕ)
        → ht_get_entry s'.itable (ino_key m)
          ≡ (if is_last ino n && (ino.number == m) then none else ht_get_entry s.itable (ino_key m))
    pub object :
        s'.inode_at i
        ≡ (if is_last ino n then none else some (record ino { nlookup = ino.nlookup - n }))
    pub others : (j : Ptr) → (j == i) ≡ false → s'.inode_at j ≡ s.inode_at j
    pub same_files : s'.files ≡ s.files
    pub same_tags : s'.tags ≡ s.tags

  -- the session after the forgetting, without the answer
  abbrev forgotten : Session → Ptr → Inode → ℕ → Session
  forgotten s i ino n =
      let ino' : Inode = record ino { nlookup = ino.nlookup - n } in
      let s1 = put_inode i (some ino') s in if is_last ino' 0 then without_inode s1 i ino' else s1

  forgets :
      (s : Session) (i : Ptr) (ino : Inode) (n : ℕ)
      → IsUnique s.itable
      → n ≤ ino.nlookup
      → Returns (reply reply_none (forgotten s i ino n)) (λ _ s'. Forgets s i ino n s')
  forgets s i ino n u enough =
      let ino' : Inode = record ino { nlookup = ino.nlookup - n } in
      let same : is_last ino' 0 ≡ is_last ino n = ground arith in
      elim (Bool-cases (is_last ino n)) [
        | inl last ↦
            rw (same, last)
              (
                tt,
                _,
                reply-run _ _,
                record {
                  answer = refl;
                  table = λ m. rw last (
                      get-remove s.itable (ino_key ino.number) (ino_key m) u
                      ∙ rw (ino_key-eq ino.number m));
                  object = rw last (write_at _ i none);
                  others = λ j e. write_elsewhere _ i j none e ∙ write_elsewhere s.inode_at i j _ e;
                  same_files = refl;
                  same_tags = refl;
                },
              )
        | inr left ↦
            rw (same, left)
              (
                tt,
                _,
                reply-run _ _,
                record {
                  answer = refl;
                  table = λ m. rw left refl;
                  object = rw left (write_at s.inode_at i _);
                  others = λ j e. write_elsewhere s.inode_at i j _ e;
                  same_files = refl;
                  same_tags = refl;
                },
              )
      ]

  -- `tag_forget` of at most as many lookups as a registered inode has, on a table in which no
  -- number stands twice, does not fault, gives the answer without content, and takes the lookups
  -- off; when none is left and the inode is not the root, the inode is freed and its number is no
  -- longer in the table. All other inodes and numbers, the files and the tags stay.
  pub tag_forget_lem :
      (n : ℕ) (i : Ptr) (ino : Inode) (s : Session)
      → IsUnique s.itable
      → ht_get_entry s.itable (ino_key ino.number) ≡ some i
      → s.inode_at i ≡ some ino
      → n ≤ ino.nlookup
      → ino.nlookup < 2 ^ 64
      → Returns (tag_forget ino.number n s) (λ _ s'. Forgets s i ino n s')
  unfolding tag_forget inode_get forget_lookups
  tag_forget_lem n i ino s u known here enough bound =
      let ino' = record ino { nlookup = ino.nlookup - n } in
      let s1 = put_inode i (some ino') s in
      rw
        (
          known,
          ◌>>=◌,
          load_inode-run s i here,
          drop_lookups_lem ino.nlookup n enough bound,
          store_inode-run s i ino' here,
          inode_delete_if_noref-run i ino' s1 (write_at s.inode_at i _),
        )
        (forgets s i ino n u enough)
