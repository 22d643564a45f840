-- ===== src/Sqlite/Tag.antt =====
-- fuse_sqlite3/tag.c without the reader of the tag database: the tags, each with its number in the
-- database, and the tags that a path selects.
use tag_filesystem.Base.{
  ℕ, ◌+◌, ◌%◌, ◌^◌, Bool, not, none, some, List, [], ◌∷◌, Bytes, ◌==◌, if◌then◌else◌, str_eq,
}
use tag_filesystem.Cutil.HashTable.{
  Ptr, Uthash, HashTable, ht_create, ht_add_entry, ht_remove_entry, ht_get_entry, ht_to_list,
}
use tag_filesystem.Cutil.Libc.{slash}
use tag_filesystem.Cutil.String2.{string_split}
use tag_filesystem.Fuse.Os.{Os}
use tag_filesystem.Sqlite.Database.{Sqlite}
use tag_filesystem.Sqlite.State.{
  invalid_tag, Cmd, pure, ◌>>=◌, ◌>>◌, gets, modify, load_tag, free_tag, new_tag, load_file,
}
use tag_filesystem.Sqlite.Statements.{db_add_tag, db_tag_file, db_untag_file}

module _ ⦃U : Uthash⦄ ⦃O : Os⦄ ⦃Q : Sqlite⦄ where
  unfoldable pub next_tag_id : Cmd ℕ
  next_tag_id s = some (s.next_tag, record s { next_tag = (s.next_tag + 1) % 2 ^ 32 })

  unfoldable pub tag_new : Bytes → Cmd Ptr
  tag_new value = do
    id ← next_tag_id
    p ← new_tag (record { id = id; value = value })
    _ ← db_add_tag value id
    pure p

  unfoldable pub tag_get_or_create : Bytes → Cmd Ptr
  tag_get_or_create value = do
    found ← gets (λ s. ht_get_entry s.tags value)
    elim found [
      | some p ↦ pure p
      | none ↦ do
        p ← tag_new value
        modify (λ s. record s { tags = (ht_add_entry s.tags value p).1 })
        pure p
    ]

  unfoldable pub tag_get : Bytes → Cmd Ptr
  tag_get value = do
    found ← gets (λ s. ht_get_entry s.tags value)
    elim found [ some p ↦ pure p | none ↦ pure invalid_tag ]

  unfoldable pub tag_exist : Bytes → Cmd Bool
  tag_exist value = do p ← tag_get value; pure (not (p == invalid_tag))

  unfoldable pub tag_remove : Ptr → Cmd (Unit {0})
  tag_remove p = do
    t ← load_tag p
    modify (λ s. record s { tags = (ht_remove_entry s.tags t.value).1 })
    free_tag p

  -- the loop of `compute_selected_tags`
  unfoldable pub select_tags : List Bytes → HashTable → Cmd HashTable
  select_tags [] selected = pure selected
  select_tags (name ∷ names) selected = do
    p ← tag_get name
    select_tags names (ht_add_entry selected name p).1

  unfoldable pub compute_selected_tags : Bytes → Cmd HashTable
  compute_selected_tags dirpath =
      if str_eq dirpath (b'.' ∷ []) then pure ht_create else elim (string_split dirpath slash) [
        | none ↦ λ s. none
        | some names ↦ select_tags names ht_create
      ]

  unfoldable pub tag_list : Cmd (List Ptr)
  tag_list = gets (λ s. ht_to_list s.tags)

  unfoldable pub tag_file : Ptr → Ptr → Cmd (Unit {0})
  tag_file p q = do t ← load_tag p; f ← load_file q; _ ← db_tag_file t.id f.id; pure tt

  unfoldable pub untag_file : Ptr → Ptr → Cmd (Unit {0})
  untag_file p q = do t ← load_tag p; f ← load_file q; _ ← db_untag_file t.id f.id; pure tt

  -- the empty function: what it writes
  unfoldable pub tag_db_dump : Cmd Bytes
  tag_db_dump = pure []
