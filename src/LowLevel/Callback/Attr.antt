-- ===== src/LowLevel/Callback/Attr.antt =====
-- fuse_lowlevel/fuse_callback.c: the handlers that look names up and that read or set attributes.
use tag_filesystem.Base.Store.{pure, ◌>>=◌, ◌>>◌}
use tag_filesystem.Base.{
  ℕ, ◌+◌, ◌-◌, ◌/◌, ◌%◌, ◌^◌, Bool, false, not, Option, none, some, Bytes, ltb, ◌==◌, if◌then◌else◌,
  str_eq,
}
use tag_filesystem.Cutil.HashTable.{Ptr, Uthash, HashTable, ht_has_entry, ht_entry_count}
use tag_filesystem.Fuse.Os.{Result, done, failed}
use tag_filesystem.Fuse.TagFs.Attr.{long_max}
use tag_filesystem.Fuse.Util.{eperm, enoent, einval, tag_filename}
use tag_filesystem.LowLevel.Callback.Answer.{
  fuse_reply_err, file_matches_tags, stat_into, no_file, answer_entry,
}
use tag_filesystem.LowLevel.File.{file_get_or_create}
use tag_filesystem.LowLevel.Inode.{
  inode_get, inode_delete_if_noref, create_directory_inode, tag_realpath, zero_attr,
}
use tag_filesystem.LowLevel.Os.{Os, Attr}
use tag_filesystem.LowLevel.State.{
  Cmd, reply_none, reply_attr, load_file, load_inode, store_inode, not_null, syscall, reply,
}
use tag_filesystem.LowLevel.Tag.{tag_exist}

-- `nlookup -= n` on the `uint64_t`
unfoldable pub drop_lookups : ℕ → ℕ → ℕ
drop_lookups nlookup n = (nlookup + (2 ^ 64 - n % 2 ^ 64)) % 2 ^ 64

-- UTIME_NOW
abbrev pub utime_now : ℕ
utime_now = 2 ^ 30 - 1

-- `to_set & (1 << bit)`
abbrev pub has_bit : ℕ → ℕ → Bool
has_bit to_set bit = (to_set / 2 ^ bit) % 2 == 1

module _ ⦃U : Uthash⦄ ⦃O : Os⦄ where
  -- what `tag_forget` does to the inode
  unfoldable pub forget_lookups : Ptr → ℕ → Cmd (Unit {0})
  forget_lookups i n = do
    ino ← load_inode i
    store_inode i (record ino { nlookup = drop_lookups ino.nlookup n })
    inode_delete_if_noref i

  unfoldable pub tag_forget : ℕ → ℕ → Cmd (Unit {0})
  tag_forget number n = do
    found ← inode_get number
    elim found [ none ↦ pure tt | some i ↦ forget_lookups i n ]
    reply reply_none

  -- `tag_exist(name) && !ht_has_entry(selected_tags, name)`, where the table may be NULL
  unfoldable pub is_other_tag : Bytes → Option HashTable → Cmd Bool
  is_other_tag name selected_tags = do
    exists ← tag_exist name
    if not exists
        then pure false
        else (do h ← not_null selected_tags; pure (not (ht_has_entry h name)))

  -- the branches of `getattr_intra`: `failed n` is the result -n, `done` has what is in `*stbuf`
  unfoldable pub getattr_tag : Bytes → HashTable → Attr → Cmd (Result Attr)
  getattr_tag filename selected_tags stbuf = do
    other ← is_other_tag filename (some selected_tags)
    if not other then pure (failed enoent) else (do
      res ← stat_into O.realdirpath stbuf
      elim res.0 [ some e ↦ pure (failed 1) | none ↦ pure (done res.1) ])

  unfoldable pub getattr_file : Ptr → HashTable → Bytes → Attr → Cmd (Result Attr)
  getattr_file f selected_tags filename stbuf =
      if ltb 0 (ht_entry_count selected_tags)
      then (do
        match ← file_matches_tags f selected_tags
        pure (if not match then failed enoent else done stbuf))
      else if str_eq filename tag_filename
      then pure (done (record stbuf { st_size = long_max }))
      else pure (done stbuf)

  unfoldable pub getattr_intra : Attr → HashTable → Bytes → Bytes → Cmd (Result Attr)
  getattr_intra stbuf selected_tags realpath filename = do
    f ← file_get_or_create filename
    res ← stat_into realpath stbuf
    if no_file res
        then getattr_tag filename selected_tags res.1
        else getattr_file f selected_tags filename res.1

  -- the end of `tag_lookup`, where the inode is known
  unfoldable pub lookup_answer : Ptr → Attr → Cmd (Unit {0})
  lookup_answer i st = do
    ino ← load_inode i
    store_inode i (record ino { nlookup = (ino.nlookup + 1) % 2 ^ 64 })
    answer_entry ino.number (record st { st_ino = ino.number })

  -- the branch where the name is no file of the real directory
  unfoldable pub lookup_tag : Ptr → Bytes → Attr → Cmd (Unit {0})
  lookup_tag parent name st = do
    p ← load_inode parent
    other ← is_other_tag name p.selected_tags
    if not other then fuse_reply_err enoent else (do
      res ← stat_into O.realdirpath st
      i ← create_directory_inode parent name
      lookup_answer i res.1)

  -- the branch where it is one
  unfoldable pub lookup_file : Ptr → ℕ → Bytes → Attr → Cmd (Unit {0})
  lookup_file parent parentnum name st = do
    q ← file_get_or_create name
    f ← load_file q
    ino ← load_inode f.ino
    let st' = record st { st_ino = ino.number }
    store_inode f.ino (record ino { st = st' })
    if parentnum == 1 then lookup_answer f.ino st' else (do
      p ← load_inode parent
      selected ← not_null p.selected_tags
      match ← file_matches_tags q selected
      if not match
          then fuse_reply_err enoent
          else lookup_answer f.ino
              (if str_eq name tag_filename then record st' { st_size = long_max } else st'))

  unfoldable pub tag_lookup : ℕ → Bytes → Cmd (Unit {0})
  tag_lookup parentnum name = do
    found ← inode_get parentnum
    elim found [
      | none ↦ fuse_reply_err einval
      | some parent ↦ do
        res ← stat_into (tag_realpath name) zero_attr
        if no_file res
            then lookup_tag parent name res.1
            else lookup_file parent parentnum name res.1
    ]

  -- the branch of `tag_getattr` where the inode is there
  unfoldable pub getattr_inode : Ptr → Cmd (Unit {0})
  getattr_inode i = do
    ino ← load_inode i
    path ← (if ino.is_directory then pure O.realdirpath else not_null ino.realpath)
    res ← stat_into path zero_attr
    let st = record res.1 { st_ino = ino.number }
    elim res.0 [
      | some e ↦ fuse_reply_err e
      | none ↦ reply (reply_attr (if ino.is_tagfile then record st { st_size = long_max } else st))
    ]

  unfoldable pub tag_getattr : ℕ → Cmd (Unit {0})
  tag_getattr number = do
    found ← inode_get number
    elim found [ none ↦ fuse_reply_err enoent | some i ↦ getattr_inode i ]

  -- the attributes of the inode after the four tests of `tag_setattr` behind the first
  unfoldable pub set_times : ℕ → Attr → Attr → Attr
  set_times to_set attr st =
      let st1 = (if has_bit to_set 4 then record st { st_atim = attr.st_atim } else st) in
      let st2 = (if has_bit to_set 5 then record st1 { st_mtim = attr.st_mtim } else st1) in
      let st3 =
        (if has_bit to_set 7
          then record st2 { st_atim = record st2.st_atim { tv_nsec = utime_now } }
          else st2) in
      if has_bit to_set 8
      then record st3 { st_mtim = record st3.st_mtim { tv_nsec = utime_now } }
      else st3

  unfoldable pub setattr_file : Ptr → Attr → ℕ → Cmd (Unit {0})
  setattr_file q attr to_set = do
    f ← load_file q
    if has_bit to_set 0
        then (do
          syscall (λ w. (tt, O.chmod w f.realpath attr.st_mode))
          ino ← load_inode f.ino
          store_inode f.ino (record ino { st = record ino.st { st_mode = attr.st_mode } }))
        else pure tt
    ino ← load_inode f.ino
    let st = set_times to_set attr ino.st
    store_inode f.ino (record ino { st = st })
    syscall (λ w. (tt, O.utimensat w f.realpath st.st_atim st.st_mtim))
    reply (reply_attr st)

  unfoldable pub tag_setattr : ℕ → Attr → ℕ → Cmd (Unit {0})
  tag_setattr number attr to_set = do
    found ← inode_get number
    elim found [
      | none ↦ fuse_reply_err eperm
      | some i ↦ do
        ino ← load_inode i
        if ino.is_directory then fuse_reply_err eperm else (do
          name ← not_null ino.name
          q ← file_get_or_create name
          setattr_file q attr to_set)
    ]
