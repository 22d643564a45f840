-- ===== src/Fuse/TagDb.antt =====
-- fuse/tag.c: the tag database, which is a text. It is read when the file system starts and written
-- when it stops, and the reader of the tag file sees it.
pub mod Loading
use tag_filesystem.Base.{
  ℕ, zero, suc, Bool, false, Option, none, some, List, [], ◌∷◌, ◌++◌, Bytes, ℤ, is_negative, ◌==◌,
  if◌then◌else◌, length,
}
use tag_filesystem.Cutil.HashTable.{Ptr, Entries, Uthash, ht_entries, ht_entry_count, ht_to_list}
use tag_filesystem.Cutil.Libc.{isspace, run_without, is_nil, tail_of}
use tag_filesystem.Fuse.File.{file_list, file_get_or_create}
use tag_filesystem.Fuse.Os.{Os, Stat}
use tag_filesystem.Fuse.State.{Cmd, pure, ◌>>=◌, ◌>>◌, gets, load_tag, load_file, syscall}
use tag_filesystem.Fuse.Tag.{tag_get_or_create, tag_file}

-- MAX_LENGTH less the terminating zero
abbrev pub max_line : ℕ
max_line = 999

-- `fgets`: at most `n` bytes, up to and with a newline; what was read, and what is left
unfoldable pub fgets : ℕ → Bytes → Bytes × Bytes
fgets zero fi = ([], fi)
fgets (suc n) [] = ([], [])
fgets (suc n) (c ∷ fi) =
    let (word, rest) = fgets n fi in if c == b'\n' then (c ∷ [], fi) else (c ∷ word, rest)

-- Without the character `end` the length is NULL - word, which is larger than any string, so the
-- whole of it is copied.
unfoldable pub copy_word_until : Bytes → ℕ → Bytes
copy_word_until word end = run_without (end ∷ []) word

unfoldable pub skip_spaces : Bytes → Bytes
skip_spaces [] = []
skip_spaces (c ∷ word) = if isspace c then skip_spaces word else c ∷ word

-- `word[0] == c`
abbrev pub begins_with : ℕ → Bytes → Bool
begins_with c [] = false
begins_with c (x ∷ word) = x == c

module _ ⦃U : Uthash⦄ ⦃O : Os⦄ where
  -- the calls of `print_tag`
  unfoldable pub print_tags : Entries → Cmd Bytes
  print_tags [] = pure []
  print_tags ((_, p) ∷ es) = do t ← load_tag p; text ← print_tags es; pure (t.value ++ b'\n' ∷ text)

  -- the rounds of `tag_db_dump` on the files that are left
  unfoldable pub dump_files : List Ptr → Cmd Bytes
  dump_files [] = pure []
  dump_files (q ∷ qs) =
      let rest = dump_files qs in
      (do
        f ← load_file q
        if ht_entry_count f.tags == 0 then rest else (do
          tag_lines ← print_tags (ht_entries f.tags)
          text ← rest
          pure (b'[' ∷ (f.name ++ b']' ∷ b'\n' ∷ (tag_lines ++ b'\n' ∷ text)))))

  -- what is written to `output`
  unfoldable pub tag_db_dump : Cmd Bytes
  tag_db_dump = do l ← file_list; dump_files l

  -- the inner loop of `update_lib`, over `ht_to_list` of the tags
  unfoldable pub print_tag_list : List Ptr → Cmd Bytes
  print_tag_list [] = pure []
  print_tag_list (p ∷ ps) = do
    t ← load_tag p
    text ← print_tag_list ps
    pure (t.value ++ b'\n' ∷ text)

  unfoldable pub update_files : List Ptr → Cmd Bytes
  update_files [] = pure []
  update_files (q ∷ qs) = do
    f ← load_file q
    tag_lines ← print_tag_list (ht_to_list f.tags)
    text ← update_files qs
    pure (b'[' ∷ (f.name ++ b']' ∷ b'\n' ∷ (tag_lines ++ text)))

  unfoldable pub update_lib : Bytes → Cmd (Unit {0})
  update_lib tag_file_name = do
    l ← file_list
    text ← update_files l
    syscall (λ w. (tt, O.write_file w tag_file_name text))

  -- the type of the parameter `getattr`
  abbrev pub Getattr : Type 0
  Getattr = Bytes → Cmd (ℤ × Option Stat)

  -- `none` is NULL
  unfoldable pub parse_file : Getattr → Bytes → Cmd (Option Ptr)
  parse_file getattr word = do
    let name = copy_word_until word b']'
    (res, _) ← getattr name
    if is_negative res then pure none else (do q ← file_get_or_create name; pure (some q))

  unfoldable pub parse_tag : Option Ptr → Bytes → Cmd (Unit {0})
  parse_tag f word =
      let name = copy_word_until word b'\n' in
      if is_nil name
      then pure tt
      else (do p ← tag_get_or_create name; elim f [ none ↦ pure tt | some q ↦ tag_file p q ])

  -- one round of the loop of `parse_tags_db2`: the new value of `f`
  unfoldable pub parse_line : Getattr → Option Ptr → Bytes → Cmd (Option Ptr)
  parse_line getattr f word =
      let w = skip_spaces word in
      if begins_with b'#' word
      then pure f
      else if begins_with b'[' w
      then parse_file getattr (tail_of w)
      else (do parse_tag f w; pure f)

  unfoldable pub parse_lines : ℕ → Getattr → Option Ptr → Bytes → Cmd (Unit {0})
  parse_lines zero getattr f fi = λ s. none
  parse_lines (suc fuel) getattr f fi =
      let (word, rest) = fgets max_line fi in
      let later = λ (f' : Option Ptr). parse_lines fuel getattr f' rest in
      if is_nil fi then pure tt else (do f' ← parse_line getattr f word; later f')

  -- the contents of the file; each round takes a byte at least
  unfoldable pub parse_tags_db2 : Bytes → Getattr → Cmd (Unit {0})
  parse_tags_db2 fi getattr = parse_lines (suc (length fi)) getattr none fi

  unfoldable pub parse_tags_db : Bytes → Getattr → Cmd (Unit {0})
  parse_tags_db filename getattr = do
    fi ← gets (λ s. O.read_file s.world filename)
    elim fi [ none ↦ pure tt | some text ↦ parse_tags_db2 text getattr ]
