-- ===== src/LowLevel/Callback/Answer.antt =====
-- fuse_lowlevel/fuse_callback.c: the parts that the handlers share.
use tag_filesystem.Base.Store.{pure, ◌>>=◌}
use tag_filesystem.Base.{
  ℕ, ◌+◌, ◌-◌, ◌%◌, ◌^◌, Bool, true, false, not, Option, none, some, [], ◌∷◌, ◌++◌, Bytes, ltb, leb,
  ◌==◌, if◌then◌else◌, length, take, drop,
}
use tag_filesystem.Cutil.HashTable.{Ptr, Entries, Uthash, HashTable, ht_entries, ht_has_entry}
use tag_filesystem.Fuse.Os.{done, failed}
use tag_filesystem.LowLevel.Os.{Os, Attr}
use tag_filesystem.LowLevel.State.{
  Cmd, reply_err, reply_entry, reply_buf, invalid_tag, load_tag, load_file, syscall, reply,
}

-- the smaller of two sizes
abbrev pub min : ℕ → ℕ → ℕ
min a b = if ltb a b then a else b

module _ ⦃U : Uthash⦄ ⦃O : Os⦄ where
  abbrev pub fuse_reply_err : ℕ → Cmd (Unit {0})
  fuse_reply_err e = reply (reply_err e)

  -- `number` is an `unsigned long`, so it wraps around, and it skips 0
  unfoldable pub next_gen_number : Cmd ℕ
  next_gen_number s =
      let number = (if s.next_gen == 0 then 1 else s.next_gen) in
      some (number, record s { next_gen = (number + 1) % 2 ^ 64 })

  -- the buffer `b` after the call; an entry has the offset that is behind it
  unfoldable pub dirbuf_add : Bytes → Bytes → ℕ → Bytes
  dirbuf_add b name ino = b ++ O.direntry name ino (length b + O.direntry_size name)

  -- fuse_reply_buf of `size` bytes from `buf + off`: a read behind the buffer is a fault
  unfoldable pub fuse_reply_buf : Bytes → ℕ → ℕ → Cmd (Unit {0})
  fuse_reply_buf buf off size =
      if leb (off + size) (length buf) then reply (reply_buf (take size (drop off buf))) else λ s.
      none

  unfoldable pub reply_buf_limited : Bytes → ℕ → ℕ → ℕ → Cmd (Unit {0})
  unfolding fuse_reply_buf
  reply_buf_limited buf bufsize off maxsize =
      if ltb off bufsize
      then fuse_reply_buf buf off (min (bufsize - off) maxsize)
      else reply (reply_buf [])

  -- the calls of `check_tags`, with `*match`
  unfoldable pub check_tags : Entries → Ptr → Bool → Cmd Bool
  check_tags [] q match = pure match
  check_tags ((_, p) ∷ es) q match =
      let next = check_tags es q in
      if p == invalid_tag then next false else (do
        t ← load_tag p
        f ← load_file q
        next (if not (ht_has_entry f.tags t.value) then false else match))

  unfoldable pub file_matches_tags : Ptr → HashTable → Cmd Bool
  file_matches_tags q selected_tags = check_tags (ht_entries selected_tags) q true

  -- `stat`: whether it failed, with errno, and the buffer, which a failure leaves alone
  unfoldable pub stat_into : Bytes → Attr → Cmd (Option ℕ × Attr)
  stat_into path st = do
    r ← syscall (λ w. O.stat w path)
    elim r [ failed e ↦ pure (some e, st) | done st' ↦ pure (none, st') ]

  -- `res < 0 || S_ISDIR(st.st_mode)` after `stat`
  abbrev pub no_file : Option ℕ × Attr → Bool
  no_file (some e, st) = true
  no_file (none, st) = st.is_dir

  -- the end of a handler that answers with an entry: the number and the attributes of the inode
  unfoldable pub answer_entry : ℕ → Attr → Cmd (Unit {0})
  answer_entry number st = do
    generation ← next_gen_number
    reply (reply_entry (record { ino = number; generation = generation; attr = st }))
