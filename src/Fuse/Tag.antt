-- ===== src/Fuse/Tag.antt =====
-- fuse/tag.c without the tag database: the tags, each with the table of its files and a count of
-- references, and the tags that a path selects.
use tag_filesystem.Base.{
  ◌+◌, ◌-◌, ◌%◌, ◌^◌, Bool, true, false, Option, none, some, List, [], ◌∷◌, Bytes, ◌==◌,
  if◌then◌else◌, str_eq, is_some,
}
use tag_filesystem.Cutil.HashTable.{
  Ptr, Uthash, HashTable, ht_create, ht_add_entry, ht_add_unique_entry, ht_remove_entry,
  ht_get_entry, ht_for_each, ht_to_list,
}
use tag_filesystem.Cutil.Libc.{slash}
use tag_filesystem.Cutil.String2.{string_split}
use tag_filesystem.Fuse.Os.{Os}
use tag_filesystem.Fuse.State.{
  Cmd, pure, ◌>>=◌, ◌>>◌, gets, modify, load_tag, store_tag, free_tag, new_tag, load_file,
  each_entry,
}
use tag_filesystem.Fuse.File.{file_add_tag, file_remove_tag}

module _ ⦃U : Uthash⦄ ⦃O : Os⦄ where
  -- `ht_remove_entry(tags, value)`
  unfoldable pub remove_from_tags : Bytes → Cmd (Unit {0})
  remove_from_tags value = modify (λ s. record s { tags = (ht_remove_entry s.tags value).1 })

  unfoldable pub tag_dec_ref : Ptr → Cmd (Unit {0})
  tag_dec_ref p = do
    t ← load_tag p
    let count = (t.ref_count + (2 ^ 32 - 1)) % 2 ^ 32
    store_tag p (record t { ref_count = count })
    if count == 0 then (do remove_from_tags t.value; free_tag p) else pure tt

  unfoldable pub tag_inc_ref : Ptr → Cmd (Unit {0})
  tag_inc_ref p = do
    t ← load_tag p
    store_tag p (record t { ref_count = (t.ref_count + 1) % 2 ^ 32 })

  unfoldable pub tag_new : Bytes → Bool → Cmd Ptr
  tag_new value in_use =
      new_tag (record { value = value; files = ht_create; in_use = in_use; ref_count = 0 })

  -- `tag_get_or_create__`
  unfoldable pub tag_get_or_create_in : Bytes → Bool → Cmd Ptr
  tag_get_or_create_in value in_use = do
    found ← gets (λ s. ht_get_entry s.tags value)
    elim found [
      | some p ↦ pure p
      | none ↦ do
        p ← tag_new value in_use
        modify (λ s. record s { tags = (ht_add_entry s.tags value p).1 })
        pure p
    ]

  unfoldable pub tag_get_or_create : Bytes → Cmd Ptr
  tag_get_or_create value = do p ← tag_get_or_create_in value true; tag_inc_ref p; pure p

  -- `none` is INVALID_TAG
  unfoldable pub tag_get : Bytes → Cmd (Option Ptr)
  tag_get value = gets (λ s. ht_get_entry s.tags value)

  unfoldable pub tag_exist : Bytes → Cmd Bool
  tag_exist value = do p ← tag_get value; pure (is_some p)

  unfoldable pub tag_add_file : Ptr → Ptr → Cmd (Unit {0})
  tag_add_file p q = do
    t ← load_tag p
    f ← load_file q
    store_tag p (record t { files = (ht_add_unique_entry t.files f.name q).1; in_use = true })

  unfoldable pub tag_remove_file : Ptr → Ptr → Cmd (Unit {0})
  tag_remove_file p q = do
    t ← load_tag p
    f ← load_file q
    store_tag p (record t { files = (ht_remove_entry t.files f.name).1 })

  unfoldable pub tag_remove : Ptr → Cmd (Unit {0})
  tag_remove p = do
    t ← load_tag p
    let tmp = ht_for_each t.files (λ _ q tmp. (ht_add_entry tmp t.value q).1) ht_create
    each_entry tmp (λ _ q. file_remove_tag q p)
    t' ← load_tag p
    remove_from_tags t'.value
    tag_dec_ref p

  -- the body of the loop of `compute_selected_tags`
  unfoldable pub select_tag : Bytes → HashTable → Cmd HashTable
  select_tag name selected = do
    found ← tag_get name
    p ← elim found [ some p ↦ pure p | none ↦ tag_get_or_create_in name false ]
    tag_inc_ref p
    pure (ht_add_entry selected name p).1

  unfoldable pub select_tags : List Bytes → HashTable → Cmd HashTable
  select_tags [] selected = pure selected
  select_tags (name ∷ names) selected = do
    selected' ← select_tag name selected
    select_tags names selected'

  unfoldable pub compute_selected_tags : Bytes → Cmd HashTable
  compute_selected_tags dirpath =
      if str_eq dirpath (b'.' ∷ []) then pure ht_create else elim (string_split dirpath slash) [
        | none ↦ λ s. none
        | some names ↦ select_tags names ht_create
      ]

  -- `free_tag` of `free_selected_tags`
  unfoldable pub free_selected_tag : Ptr → Cmd (Unit {0})
  free_selected_tag p = do t ← load_tag p; if t.in_use then pure tt else tag_remove p

  unfoldable pub free_selected_tags : HashTable → Cmd (Unit {0})
  free_selected_tags selected = each_entry selected (λ _ p. free_selected_tag p)

  unfoldable pub tag_list : Cmd (List Ptr)
  tag_list = gets (λ s. ht_to_list s.tags)

  unfoldable pub tag_file : Ptr → Ptr → Cmd (Unit {0})
  tag_file p q = file_add_tag q p >> tag_add_file p q

  unfoldable pub untag_file : Ptr → Ptr → Cmd (Unit {0})
  untag_file p q = file_remove_tag q p >> tag_remove_file p q
