-- ===== src/Sqlite/Statements.antt =====
-- fuse_sqlite3/db.c: the functions that write rows, and the question whether a file has tags.
use tag_filesystem.Base.{
  ℕ, Bool, true, false, not, ◌||◌, none, some, [], ◌∷◌, ◌++◌, Bytes, codes, ℤ, ◌==◌, if◌then◌else◌,
}
use tag_filesystem.Cutil.HashTable.{Entries, Uthash, HashTable, ht_entries, ht_entry_count}
use tag_filesystem.Fuse.Os.{Os}
use tag_filesystem.Sqlite.Database.{is_row, is_failure, result_code, Sqlite}
use tag_filesystem.Sqlite.Number.{format_int, atoi}
use tag_filesystem.Sqlite.State.{
  Cmd, pure, ◌>>=◌, load_tag, prepare, step, db_bind_text, db_bind_int,
}

-- the text of `db_add_`
unfoldable pub insert_name_query : Bytes → Bytes → Bytes
insert_name_query table prefix =
    codes "INSERT INTO "
    ++ (table
        ++ (codes "("
            ++ (prefix ++ (codes "_id, " ++ (prefix ++ codes "_name) VALUES(:id, :name)")))))

abbrev pub insert_link_query : Bytes
insert_link_query = codes "INSERT INTO tag_file(t_id, f_id) VALUES (:tid, :fid)"

abbrev pub delete_link_query : Bytes
delete_link_query = codes "DELETE FROM tag_file WHERE t_id = :tid AND f_id = :fid"

-- the text of `db_file_match_tags`
unfoldable pub match_query : ℕ → Bytes → Bytes
unfolding format_int
match_query fid tlist =
    codes "SELECT COUNT(t_id) FROM tag_file WHERE f_id = "
    ++ (format_int fid ++ (codes " AND t_id IN (" ++ (tlist ++ codes ")")))

module _ ⦃U : Uthash⦄ ⦃O : Os⦄ ⦃Q : Sqlite⦄ where
  -- the last steps of a function that writes
  unfoldable pub run_write : Q.Stmt → Cmd ℤ
  run_write stmt = do (ret, _) ← step stmt; pure (result_code ret)

  -- `db_add_`
  unfoldable pub db_add_in : Bytes → ℕ → Bytes → Bytes → Cmd ℤ
  unfolding insert_name_query
  db_add_in name id table prefix = do
    stmt ← prepare (insert_name_query table prefix)
    named ← db_bind_text stmt (codes ":name") name
    bound ← db_bind_int named (codes ":id") id
    run_write bound

  unfoldable pub db_add_file : Bytes → ℕ → Cmd ℤ
  db_add_file name id = db_add_in name id (codes "file") (codes "f")

  unfoldable pub db_add_tag : Bytes → ℕ → Cmd ℤ
  db_add_tag name id = db_add_in name id (codes "tag") (codes "t")

  -- the statement of `db_tag_file` or `db_untag_file`, which have the same parameters
  unfoldable pub write_link : Bytes → ℕ → ℕ → Cmd ℤ
  write_link query t_id f_id = do
    stmt ← prepare query
    with_tag ← db_bind_int stmt (codes ":tid") t_id
    bound ← db_bind_int with_tag (codes ":fid") f_id
    run_write bound

  unfoldable pub db_tag_file : ℕ → ℕ → Cmd ℤ
  db_tag_file t_id f_id = write_link insert_link_query t_id f_id

  unfoldable pub db_untag_file : ℕ → ℕ → Cmd ℤ
  db_untag_file t_id f_id = write_link delete_link_query t_id f_id

  -- the calls of `append_string` of `tag_id_list_string`
  unfoldable pub append_ids : Entries → Bytes → Bool → Cmd Bytes
  unfolding format_int
  append_ids [] string first = pure string
  append_ids ((_, p) ∷ es) string first = do
    t ← load_tag p
    append_ids es (string ++ ((if first then [] else codes ", ") ++ format_int t.id)) false

  unfoldable pub tag_id_list_string : HashTable → Cmd Bytes
  tag_id_list_string selected_tags = append_ids (ht_entries selected_tags) [] true

  unfoldable pub db_file_match_tags : ℕ → HashTable → Cmd Bool
  unfolding match_query atoi
  db_file_match_tags fid selected_tags = do
    tlist ← tag_id_list_string selected_tags
    stmt ← prepare (match_query fid tlist)
    (ret, stmt') ← step stmt
    if is_failure ret || not (is_row ret) then pure false else elim (Q.column_text stmt' 0) [
      -- `atoi(NULL)`
      | none ↦ λ s. none
      | some count ↦ pure (atoi count == ht_entry_count selected_tags)
    ]
