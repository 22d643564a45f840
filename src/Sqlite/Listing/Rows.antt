-- ===== src/Sqlite/Listing/Rows.antt =====
-- The listing functions of fuse_sqlite3/db.c on a statement whose rows are known.
use tag_filesystem.Base.Store.{◌>>=◌}
use tag_filesystem.Base.{
  ℕ, zero, suc, ◌<◌, ◌≡◌, ◌∙◌, refl, ap, false, Option, some, [], ◌∷◌, ◌++◌, Bytes, codes, arith,
  pos, negsuc, length, if◌then◌else◌, append_assoc, append-nil,
}
use tag_filesystem.Cutil.HashTable.{Uthash, HashTable}
use tag_filesystem.Fuse.Os.{Os}
use tag_filesystem.Sqlite.Database.{
  StepResult, row, is_row, is_done, is_failure, result_code, Sqlite,
}
use tag_filesystem.Sqlite.Listing.{
  Names, list_tag_rows, list_file_rows, db_list_selected_files, db_list_remaining_tags,
  remaining_tags_query,
}
use tag_filesystem.Sqlite.State.{Fs}

result_code_lem : (end : StepResult) → result_code end ≡ (if is_done end then pos 0 else negsuc 0)
result_code_lem end = ground arith

module _ ⦃Q : Sqlite⦄ where
  -- the statement gives rows with these texts in the column, and then this result, which is no row,
  -- and the database is then the last one
  abbrev pub Yields : ℕ → Q.Db → Q.Stmt → Names → StepResult → Q.Db → Type 0
  Yields column db stmt [] end last =
      ((Q.step db stmt).0 ≡ end) × (is_row end ≡ false) × ((Q.step db stmt).1.1 ≡ last)
  Yields column db stmt (text ∷ rows) end last =
      ((Q.step db stmt).0 ≡ row)
      × (Q.column_text (Q.step db stmt).1.0 column ≡ text)
      × Yields column (Q.step db stmt).1.1 (Q.step db stmt).1.0 rows end last

module _ ⦃U : Uthash⦄ ⦃O : Os⦄ ⦃Q : Sqlite⦄ where
  list_tag_rows_lem :
      (fuel : ℕ) (s : Fs) (stmt : Q.Stmt) (buf rows : Names) (end : StepResult) (last : Q.Db)
      → Yields 0 s.db stmt rows end last
      → length rows < fuel
      → list_tag_rows fuel stmt buf s ≡ some ((end, buf ++ rows), record s { db = last })
  unfolding list_tag_rows
  list_tag_rows_lem zero s stmt buf rows end last y h = absurd (omega arith)
  list_tag_rows_lem (suc fuel) s stmt buf [] end last (e, no_row, db) h =
      rw (e, no_row, db, append-nil) (ground arith)
  list_tag_rows_lem (suc fuel) s stmt buf (text ∷ rows) end last (e, column, y) h =
      rw (e, column)
        (list_tag_rows_lem fuel (record s { db = (Q.step s.db stmt).1.1 }) (Q.step s.db stmt).1.0
            (buf ++ (text ∷ [])) rows end last y (omega arith)
          ∙ ap (λ l. some ((end, l), record s { db = last })) (append_assoc buf (text ∷ []) rows))

  list_file_rows_lem :
      (fuel : ℕ) (s : Fs) (stmt : Q.Stmt) (buf rows : Names) (end : StepResult) (last : Q.Db)
      → Yields 2 s.db stmt rows end last
      → is_failure end ≡ false
      → length rows < fuel
      → (text : Option Bytes) × (list_file_rows fuel stmt buf s
          ≡ some ((end, buf ++ (rows ++ (text ∷ []))), record s { db = last }))
  unfolding list_file_rows
  list_file_rows_lem zero s stmt buf rows end last y fine h = absurd (omega arith)
  list_file_rows_lem (suc fuel) s stmt buf [] end last (e, no_row, db) fine h =
      (Q.column_text (Q.step s.db stmt).1.0 2, rw (e, no_row, fine, db) refl)
  list_file_rows_lem (suc fuel) s stmt buf (text ∷ rows) end last (e, column, y) fine h =
      let (extra, run) =
        list_file_rows_lem fuel (record s { db = (Q.step s.db stmt).1.1 }) (Q.step s.db stmt).1.0
          (buf ++ (text ∷ [])) rows end last y fine (omega arith) in
      (
        extra,
        rw (e, column)
            (run
              ∙ ap (λ l. some ((end, l), record s { db = last }))
                  (append_assoc buf (text ∷ []) (rows ++ (extra ∷ [])))),
      )

  -- Where the statement of the query yields these rows and then a result, with fuel for a round
  -- for each row and one more, `db_list_remaining_tags` ends, calls `filler` with the texts of the
  -- rows in order, returns 0 if the result is SQLITE_DONE and -1 if not, and changes nothing but
  -- the database.
  pub db_list_remaining_tags_lem :
      (fuel : ℕ) (s : Fs) (selected_tags : HashTable) (buf rows : Names) (end : StepResult)
      (last : Q.Db)
      → Yields 0 s.db (Q.prepare s.db (remaining_tags_query selected_tags)) rows end last
      → length rows < fuel
      → db_list_remaining_tags fuel selected_tags buf s
        ≡ some ((if is_done end then pos 0 else negsuc 0, buf ++ rows), record s { db = last })
  unfolding db_list_remaining_tags
  db_list_remaining_tags_lem fuel s selected_tags buf rows end last y h =
      rw (list_tag_rows_lem fuel s _ buf rows end last y h, ◌>>=◌, result_code_lem end) refl

  -- Where the statement over the table of tags yields these rows in column 2 and then a result
  -- other than an error, with fuel for a round for each row and one more,
  -- `db_list_selected_files` ends and calls `filler` for each row and once more behind the last
  -- one, whatever the selected tags are.
  pub db_list_selected_files_lem :
      (fuel : ℕ) (s : Fs) (selected_tags : HashTable) (buf rows : Names) (end : StepResult)
      (last : Q.Db)
      → Yields 2 s.db (Q.prepare s.db (codes "SELECT * FROM tag")) rows end last
      → is_failure end ≡ false
      → length rows < fuel
      → (text : Option Bytes) × (db_list_selected_files fuel selected_tags buf s
          ≡ some (
            (if is_done end then pos 0 else negsuc 0, buf ++ (rows ++ (text ∷ []))),
            record s { db = last },
          ))
  unfolding db_list_selected_files
  db_list_selected_files_lem fuel s selected_tags buf rows end last y fine h =
      let (text, run) = list_file_rows_lem fuel s _ buf rows end last y fine h in
      (text, rw (run, ◌>>=◌, result_code_lem end) refl)
