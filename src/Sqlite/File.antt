-- ===== src/Sqlite/File.antt =====
-- fuse_sqlite3/file.c: the files that the program has met, each with its number in the database.
use tag_filesystem.Base.{ℕ, ◌+◌, ◌%◌, ◌^◌, Option, none, some, List, [], Bytes}
use tag_filesystem.Cutil.HashTable.{Ptr, Uthash, ht_add_entry, ht_get_entry, ht_to_list}
use tag_filesystem.Fuse.Os.{Os}
use tag_filesystem.Fuse.Util.{path_realpath}
use tag_filesystem.Sqlite.Database.{Sqlite}
use tag_filesystem.Sqlite.State.{Cmd, pure, ◌>>=◌, ◌>>◌, gets, modify, new_file}
use tag_filesystem.Sqlite.Statements.{db_add_file}

module _ ⦃U : Uthash⦄ ⦃O : Os⦄ ⦃Q : Sqlite⦄ where
  unfoldable pub next_file_id : Cmd ℕ
  next_file_id s = some (s.next_file, record s { next_file = (s.next_file + 1) % 2 ^ 32 })

  unfoldable pub file_list : Cmd (List Ptr)
  file_list = gets (λ s. ht_to_list s.files)

  unfoldable pub file_new : Bytes → Cmd Ptr
  file_new name = do
    id ← next_file_id
    q ← new_file (record { id = id; name = name; realpath = path_realpath name })
    _ ← db_add_file name id
    pure q

  unfoldable pub file_get_or_create : Bytes → Cmd Ptr
  file_get_or_create value = do
    found ← gets (λ s. ht_get_entry s.files value)
    elim found [
      | some q ↦ pure q
      | none ↦ do
        q ← file_new value
        modify (λ s. record s { files = (ht_add_entry s.files value q).1 })
        pure q
    ]

  -- `none` is NULL
  unfoldable pub file_get : Bytes → Cmd (Option Ptr)
  file_get value = gets (λ s. ht_get_entry s.files value)

  -- an empty string; `*size` is not set
  unfoldable pub file_get_tags_string : Ptr → Cmd Bytes
  file_get_tags_string q = pure []
