-- ===== src/LowLevel/Tag.antt =====
-- fuse_lowlevel/tag.c and parse.c: the tags, and the tag database.
use tag_filesystem.Base.Store.{pure, ◌>>=◌, ◌>>◌, gets, modify, for_each}
use tag_filesystem.Base.{
  ℕ, zero, suc, not, Bool, true, false, Option, none, some, List, [], ◌∷◌, ◌++◌, Bytes, ◌==◌,
  if◌then◌else◌, str_eq, length,
}
use tag_filesystem.Cutil.HashTable.{
  Ptr, Entries, Uthash, HashTable, ht_create, ht_add_entry, ht_add_unique_entry, ht_remove_entry,
  ht_has_entry, ht_get_entry, ht_entries, ht_entry_count, ht_to_list,
}
use tag_filesystem.Cutil.Libc.{slash, run_without, is_nil, tail_of}
use tag_filesystem.Cutil.String2.{string_split}
use tag_filesystem.Fuse.TagDb.{fgets, max_line, skip_spaces, begins_with}
use tag_filesystem.LowLevel.File.{file_list, file_get_or_create}
use tag_filesystem.LowLevel.Inode.{tag_get}
use tag_filesystem.LowLevel.Os.{Os}
use tag_filesystem.LowLevel.State.{
  Cmd, invalid_tag, load_tag, store_tag, free_tag, new_tag, load_file, store_file, syscall,
}

module _ ⦃U : Uthash⦄ ⦃O : Os⦄ where
  unfoldable pub tag_new : Bytes → Cmd Ptr
  tag_new value = new_tag (record { value = value; files = ht_create })

  unfoldable pub tag_get_or_create : Bytes → Cmd Ptr
  tag_get_or_create value = do
    found ← gets (λ s. ht_get_entry s.tags value)
    elim found [
      | some p ↦ pure p
      | none ↦ do
        p ← tag_new value
        modify (λ s. record s { tags = (ht_add_entry s.tags value p).1 })
        pure p
    ]

  unfoldable pub tag_exist : Bytes → Cmd Bool
  tag_exist value = do p ← tag_get value; pure (not (p == invalid_tag))

  unfoldable pub tag_complete_match : HashTable → List Bytes → Bool
  tag_complete_match tags [] = true
  tag_complete_match tags (tag ∷ rest) =
      if not (ht_has_entry tags tag) then false else tag_complete_match tags rest

  -- `remove_tag` of `tag_remove`
  unfoldable pub remove_from_file : Ptr → Ptr → Cmd (Unit {0})
  remove_from_file p q = do
    f ← load_file q
    t ← load_tag p
    store_file q (record f { tags = (ht_remove_entry f.tags t.value).1 })

  unfoldable pub tag_remove : Ptr → Cmd (Unit {0})
  tag_remove p = do
    t ← load_tag p
    for_each (ht_entries t.files) (λ _ q. remove_from_file p q)
    t' ← load_tag p
    modify (λ s. record s { tags = (ht_remove_entry s.tags t'.value).1 })
    free_tag p

  unfoldable pub select_tags : List Bytes → HashTable → Cmd HashTable
  select_tags [] selected = pure selected
  select_tags (tag ∷ tags) selected = do
    t ← tag_get tag
    select_tags tags (ht_add_entry selected tag t).1

  unfoldable pub compute_selected_tags : Bytes → Cmd HashTable
  compute_selected_tags dirpath =
      if str_eq dirpath (b'.' ∷ []) then pure ht_create else elim (string_split dirpath slash) [
        | none ↦ λ s. none
        | some tags ↦ select_tags tags ht_create
      ]

  unfoldable pub tag_list : Cmd (List Ptr)
  tag_list = gets (λ s. ht_to_list s.tags)

  unfoldable pub tag_file : Ptr → Ptr → Cmd (Unit {0})
  tag_file p q = do
    t ← load_tag p
    f ← load_file q
    store_tag p (record t { files = (ht_add_unique_entry t.files f.name q).1 })
    store_file q (record f { tags = (ht_add_unique_entry f.tags t.value p).1 })

  unfoldable pub untag_file : Ptr → Ptr → Cmd (Unit {0})
  untag_file p q = do
    f ← load_file q
    t ← load_tag p
    store_file q (record f { tags = (ht_remove_entry f.tags t.value).1 })
    store_tag p (record t { files = (ht_remove_entry t.files f.name).1 })

  -- the calls of `print_tag`
  unfoldable pub print_tags : Entries → Cmd Bytes
  print_tags [] = pure []
  print_tags ((_, p) ∷ es) = do t ← load_tag p; text ← print_tags es; pure (t.value ++ b'\n' ∷ text)

  -- the rounds of `tag_db_dump` on the files that are left
  unfoldable pub dump_files : List Ptr → Cmd Bytes
  dump_files [] = pure []
  dump_files (q ∷ qs) =
      let rest = dump_files qs in
      (do
        f ← load_file q
        if ht_entry_count f.tags == 0 then rest else (do
          tag_lines ← print_tags (ht_entries f.tags)
          text ← rest
          pure (b'[' ∷ (f.name ++ b']' ∷ b'\n' ∷ (tag_lines ++ b'\n' ∷ text)))))

  -- what is written to `output`
  unfoldable pub tag_db_dump : Cmd Bytes
  tag_db_dump = do l ← file_list; dump_files l

  -- the inner loop of `update_lib`
  unfoldable pub print_tag_list : List Ptr → Cmd Bytes
  print_tag_list [] = pure []
  print_tag_list (p ∷ ps) = do
    t ← load_tag p
    text ← print_tag_list ps
    pure (t.value ++ b'\n' ∷ text)

  unfoldable pub update_files : List Ptr → Cmd Bytes
  update_files [] = pure []
  update_files (q ∷ qs) = do
    f ← load_file q
    tag_lines ← print_tag_list (ht_to_list f.tags)
    text ← update_files qs
    pure (b'[' ∷ (f.name ++ b']' ∷ b'\n' ∷ (tag_lines ++ text)))

  unfoldable pub update_lib : Bytes → Cmd (Unit {0})
  update_lib tag_file_name = do
    l ← file_list
    text ← update_files l
    syscall (λ w. (tt, O.write_file w tag_file_name text))

  -- Without the character `end` the length is NULL - word, which is larger than any string, so the
  -- whole of it is copied.
  unfoldable pub copy : Bytes → ℕ → Bytes
  copy word end = run_without (end ∷ []) word

  -- the branch of `parse_tags` for a line that is no file
  unfoldable pub parse_tag : Option Ptr → Bytes → Cmd (Unit {0})
  parse_tag f word =
      let name = copy word b'\n' in
      if is_nil name
      then pure tt
      else (do p ← tag_get_or_create name; elim f [ none ↦ pure tt | some q ↦ tag_file p q ])

  -- one round of the loop of `parse_tags`: the new value of `f`
  unfoldable pub parse_line : Option Ptr → Bytes → Cmd (Option Ptr)
  parse_line f word =
      let w = skip_spaces word in
      if begins_with b'#' word
      then pure f
      else if begins_with b'[' w
      then (do q ← file_get_or_create (copy (tail_of w) b']'); pure (some q))
      else (do parse_tag f w; pure f)

  unfoldable pub parse_lines : ℕ → Option Ptr → Bytes → Cmd (Unit {0})
  parse_lines zero f fi = λ s. none
  parse_lines (suc fuel) f fi =
      let (word, rest) = fgets max_line fi in
      let later = λ (f' : Option Ptr). parse_lines fuel f' rest in
      if is_nil fi then pure tt else (do f' ← parse_line f word; later f')

  -- a file that cannot be opened is closed all the same: `fclose(NULL)`
  unfoldable pub parse_tags : Bytes → Cmd (Unit {0})
  parse_tags filename = do
    fi ← gets (λ s. O.read_file s.world filename)
    elim fi [ none ↦ λ s. none | some text ↦ parse_lines (suc (length text)) none text ]
