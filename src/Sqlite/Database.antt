-- ===== src/Sqlite/Database.antt =====
-- The functions of SQLite that fuse_sqlite3/db.c asks the database with, as a parameter.
use tag_filesystem.Base.{ℕ, Bool, true, false, not, Option, Bytes, ℤ, pos, negsuc, if◌then◌else◌}

-- what sqlite3_step returns
pub data StepResult : Type 0 where
  row : StepResult
  done : StepResult
  error : StepResult
  misuse : StepResult
  other : ℕ → StepResult

abbrev pub is_row : StepResult → Bool
is_row row = true
is_row _ = false

abbrev pub is_done : StepResult → Bool
is_done done = true
is_done _ = false

abbrev pub is_failure : StepResult → Bool
is_failure error = true
is_failure misuse = true
is_failure _ = false

-- what the functions of db.c return on the result of their last step
abbrev pub result_code : StepResult → ℤ
result_code ret = if not (is_done ret) then negsuc 0 else pos 0

-- The result code of sqlite3_prepare_v2 is only printed. A parameter is bound by its name, as
-- sqlite3_bind_parameter_index finds it, and `none` is a failure. A value of an `int` is its bit
-- pattern. A step may change the database.
pub record Sqlite : Type 1 where
  pub Db : Type 0
  pub Stmt : Type 0
  pub prepare : Db → Bytes → Stmt
  pub bind_text : Stmt → Bytes → Bytes → Option Stmt
  pub bind_int : Stmt → Bytes → ℕ → Option Stmt
  pub step : Db → Stmt → StepResult × (Stmt × Db)
  pub column_text : Stmt → ℕ → Option Bytes
