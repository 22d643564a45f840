-- ===== src/Sqlite/Listing.antt =====
-- fuse_sqlite3/db.c: the functions that list a directory. A listing is the list of the names that
-- `filler` was called with, `none` for NULL; the loops have fuel.
pub mod Rows
use tag_filesystem.Base.{
  ℕ, zero, suc, Bool, ◌||◌, not, Option, none, some, List, [], ◌∷◌, ◌++◌, Bytes, codes, ℤ,
  if◌then◌else◌,
}
use tag_filesystem.Cutil.HashTable.{Uthash, HashTable}
use tag_filesystem.Fuse.Os.{Os}
use tag_filesystem.Sqlite.Database.{StepResult, is_row, is_failure, result_code, Sqlite}
use tag_filesystem.Sqlite.Query.{
  tag_list_string, build_selected_file_query, build_remaining_tags_query,
}
use tag_filesystem.Sqlite.State.{Cmd, pure, ◌>>=◌, prepare, step}

abbrev pub Names : Type 0
Names = List (Option Bytes)

module _ ⦃U : Uthash⦄ where
  -- the text that `db_list_remaining_tags` asks
  unfoldable pub remaining_tags_query : HashTable → Bytes
  unfolding tag_list_string build_selected_file_query build_remaining_tags_query
  remaining_tags_query selected_tags =
      let tlist = tag_list_string selected_tags in
      build_remaining_tags_query tlist (build_selected_file_query tlist selected_tags 1)

module _ ⦃U : Uthash⦄ ⦃O : Os⦄ ⦃Q : Sqlite⦄ where
  -- the loop of `db_list_all_tags` and `db_list_remaining_tags`
  unfoldable pub list_tag_rows : ℕ → Q.Stmt → Names → Cmd (StepResult × Names)
  list_tag_rows zero stmt buf = λ s. none
  list_tag_rows (suc fuel) stmt buf =
      let later =
        λ (stmt' : Q.Stmt). list_tag_rows fuel stmt' (buf ++ (Q.column_text stmt' 0 ∷ [])) in
      (do
        (ret, stmt') ← step stmt
        if is_failure ret || not (is_row ret) then pure (ret, buf) else later stmt')

  -- the loop of `db_list_selected_files`
  unfoldable pub list_file_rows : ℕ → Q.Stmt → Names → Cmd (StepResult × Names)
  list_file_rows zero stmt buf = λ s. none
  list_file_rows (suc fuel) stmt buf =
      let later =
        λ (stmt' : Q.Stmt). list_file_rows fuel stmt' (buf ++ (Q.column_text stmt' 2 ∷ [])) in
      (do
        (ret, stmt') ← step stmt
        if is_failure ret
            then pure (ret, buf)
            else if is_row ret
            then later stmt'
            else pure (ret, buf ++ (Q.column_text stmt' 2 ∷ [])))

  unfoldable pub db_list_all_tags : ℕ → Names → Cmd (ℤ × Names)
  unfolding list_tag_rows
  db_list_all_tags fuel buf = do
    stmt ← prepare (codes "SELECT t_name FROM tag")
    (ret, buf') ← list_tag_rows fuel stmt buf
    pure (result_code ret, buf')

  unfoldable pub db_list_remaining_tags : ℕ → HashTable → Names → Cmd (ℤ × Names)
  unfolding list_tag_rows remaining_tags_query
  db_list_remaining_tags fuel selected_tags buf = do
    stmt ← prepare (remaining_tags_query selected_tags)
    (ret, buf') ← list_tag_rows fuel stmt buf
    pure (result_code ret, buf')

  unfoldable pub db_list_selected_files : ℕ → HashTable → Names → Cmd (ℤ × Names)
  unfolding list_file_rows
  db_list_selected_files fuel selected_tags buf = do
    stmt ← prepare (codes "SELECT * FROM tag")
    (ret, buf') ← list_file_rows fuel stmt buf
    pure (result_code ret, buf')
