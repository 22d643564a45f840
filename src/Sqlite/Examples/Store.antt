-- ===== src/Sqlite/Examples/Store.antt =====
-- A small database: the rows of links, and the names that every query for names is answered with.
use tag_filesystem.Base.{
  ℕ, ◌≡◌, refl, ap, Bool, true, false, ◌&&◌, ◌||◌, Option, none, some, List, [], ◌∷◌, ◌++◌, Bytes,
  codes, arith, ◌==◌, str_eq, if◌then◌else◌, Option-cases, Bool-cases, inl, inr,
}
use tag_filesystem.Cutil.HashTable.Instance.{list_uthash}
use tag_filesystem.Cutil.HashTable.{ht_create}
use tag_filesystem.Fuse.Examples.Store.{small_os}
use tag_filesystem.Sqlite.State.{Fs}
use tag_filesystem.Cutil.Libc.{starts_with}
use tag_filesystem.Sqlite.Database.{StepResult, row, done, error, other, Sqlite}
use tag_filesystem.Sqlite.Examples.Numbers.{between, read_text, numbers_of, read-count_query}
use tag_filesystem.Sqlite.Links.{TagFile, Bound, AddsName, count_of, count_query}
use tag_filesystem.Sqlite.Listing.{Names}
use tag_filesystem.Sqlite.Number.{decimal}
use tag_filesystem.Sqlite.Statements.{insert_link_query, delete_link_query, insert_name_query}

pub record SmallDb : Type 0 where
  pub links : List (ℕ × ℕ)
  pub names : Names

pub data SmallStmt : Type 0 where
  -- an INSERT, or a DELETE, of these numbers
  link : Bool → ℕ → ℕ → SmallStmt
  -- the number of a file and those of tags
  count : List ℕ → SmallStmt
  answer : Bytes → SmallStmt
  -- the rows that are left, and the text of the last one
  rows : Names → Option Bytes → SmallStmt
  name_row : SmallStmt

abbrev pub has_link : List (ℕ × ℕ) → ℕ → ℕ → Bool
has_link [] t f = false
has_link ((u, g) ∷ ls) t f = ((u == t) && (g == f)) || has_link ls t f

abbrev pub without : ℕ → ℕ → List (ℕ × ℕ) → List (ℕ × ℕ)
without t f [] = []
without t f ((u, g) ∷ ls) =
    let rest = without t f ls in if (u == t) && (g == f) then rest else (u, g) ∷ rest

unfoldable pub small_prepare : SmallDb → Bytes → SmallStmt
unfolding starts_with read_text
small_prepare db query = elim (starts_with (codes "SELECT COUNT") query) [
  | some _ ↦ count (numbers_of (read_text (between []) query))
  | none ↦
      if str_eq query insert_link_query
      then link true 0 0
      else if str_eq query delete_link_query
      then link false 0 0
      else elim (starts_with (codes "SELECT") query) [
        | some _ ↦ rows db.names none
        | none ↦ name_row
      ]
]

abbrev pub small_bind_int : SmallStmt → Bytes → ℕ → Option SmallStmt
small_bind_int (link b t f) name n =
    if str_eq name (codes ":tid")
    then some (link b n f)
    else if str_eq name (codes ":fid")
    then some (link b t n)
    else none
small_bind_int name_row name n = some name_row
small_bind_int _ name n = none

abbrev pub small_bind_text : SmallStmt → Bytes → Bytes → Option SmallStmt
small_bind_text name_row name text = some name_row
small_bind_text _ name text = none

abbrev pub small_step : SmallDb → SmallStmt → StepResult × (SmallStmt × SmallDb)
small_step db (link true t f) =
    if has_link db.links t f
    then (other 19, (name_row, db))
    else (done, (name_row, record db { links = (t, f) ∷ db.links }))
small_step db (link false t f) = (done, (name_row, record db { links = without t f db.links }))
small_step db (count []) = (error, (name_row, db))
small_step db (count (f ∷ ts)) =
    (row, (answer (decimal (count_of (λ t. has_link db.links t f) ts)), db))
small_step db (answer text) = (done, (name_row, db))
small_step db (rows [] _) = (done, (rows [] none, db))
small_step db (rows (name ∷ names) _) = (row, (rows names name, db))
small_step db name_row = (done, (name_row, db))

abbrev pub small_column : SmallStmt → ℕ → Option Bytes
small_column (answer text) column = if column == 0 then some text else none
small_column (rows _ name) column = if column == 0 then name else none
small_column _ column = none

instance abbrev pub small_sqlite : Sqlite
small_sqlite = record {
  Db = SmallDb;
  Stmt = SmallStmt;
  prepare = small_prepare;
  bind_text = small_bind_text;
  bind_int = small_bind_int;
  step = small_step;
  column_text = small_column;
}

pub has_link-without :
    (t f : ℕ) (ls : List (ℕ × ℕ)) (u g : ℕ)
    → has_link (without t f ls) u g ≡ (if (t == u) && (f == g) then false else has_link ls u g)
has_link-without t f [] u g = ground arith
has_link-without t f ((x, y) ∷ ls) u g = ground (arith, has_link-without t f ls u g)

pub step-insert :
    (db : SmallDb) (t f u g : ℕ)
    → has_link (small_step db (link true t f)).1.1.links u g
      ≡ (if (t == u) && (f == g) then true else has_link db.links u g)
step-insert db t f u g = elim (Bool-cases (has_link db.links t f)) [
  | inl old ↦ rw (old, small_step) (ground (arith, old))
  | inr new ↦ rw (new, small_step) (ground arith)
]

pub prepare-count :
    (db : SmallDb) (f : ℕ) (ts : List ℕ) → small_prepare db (count_query f ts) ≡ count (f ∷ ts)
unfolding small_prepare starts_with
prepare-count db f ts = ap (λ place. count (numbers_of place)) (read-count_query f ts)

pub small_insert : (db : SmallDb) (t f : ℕ) → Bound db insert_link_query t f (link true t f)
unfolding small_prepare starts_with str_eq
small_insert db t f = (link true t 0, refl, refl)

pub small_delete : (db : SmallDb) (t f : ℕ) → Bound db delete_link_query t f (link false t f)
unfolding small_prepare starts_with str_eq
small_delete db t f = (link false t 0, refl, refl)

abbrev pub small_linked : SmallDb → ℕ → ℕ → Bool
small_linked db t f = has_link db.links t f

pub small_count :
    (db : SmallDb) (f : ℕ) (ts : List ℕ)
    → ((small_step db (small_prepare db (count_query f ts))).0 ≡ row)
      × (small_column (small_step db (small_prepare db (count_query f ts))).1.0 0
          ≡ some (decimal (count_of (λ t. small_linked db t f) ts)))
      × ((u g : ℕ)
          → small_linked (small_step db (small_prepare db (count_query f ts))).1.1 u g
            ≡ small_linked db u g)
small_count db f ts = rw (prepare-count db f ts) (refl, refl, λ u g. refl)

abbrev pub small_readonly : SmallStmt → Bool
small_readonly (link b t f) = false
small_readonly _ = true

pub small_select :
    (db : SmallDb) (rest : Bytes)
    → small_readonly (small_prepare db (codes "SELECT " ++ rest)) ≡ true
unfolding small_prepare str_eq
small_select db rest =
    elim (Option-cases (starts_with (codes "SELECT COUNT") (codes "SELECT " ++ rest))) [
      | inl e ↦ rw e refl
      | inr (x, e) ↦ rw e refl
    ]

pub small_step_readonly :
    (db : SmallDb) (stmt : SmallStmt)
    → small_readonly stmt ≡ true
    → (small_readonly (small_step db stmt).1.0 ≡ true)
      × ((u g : ℕ) → small_linked (small_step db stmt).1.1 u g ≡ small_linked db u g)
small_step_readonly db (link b t f) e = absurd (ground arith)
small_step_readonly db (count []) e = (refl, λ u g. refl)
small_step_readonly db (count (f ∷ ts)) e = (refl, λ u g. refl)
small_step_readonly db (answer text) e = (refl, λ u g. refl)
small_step_readonly db (rows [] text) e = (refl, λ u g. refl)
small_step_readonly db (rows (name ∷ names) text) e = (refl, λ u g. refl)
small_step_readonly db name_row e = (refl, λ u g. refl)

pub small_tag :
    (db : SmallDb) (name : Bytes) (id : ℕ)
    → AddsName small_linked db (insert_name_query (codes "tag") (codes "t")) name id
unfolding small_prepare starts_with str_eq insert_name_query
small_tag db name id = (name_row, name_row, refl, refl, λ u g. refl)

pub small_file :
    (db : SmallDb) (name : Bytes) (id : ℕ)
    → AddsName small_linked db (insert_name_query (codes "file") (codes "f")) name id
unfolding small_prepare starts_with str_eq insert_name_query
small_file db name id = (name_row, name_row, refl, refl, λ u g. refl)

instance abbrev pub small_links : TagFile
small_links = record {
  linked = small_linked;
  insert_link = λ db t f. (link true t f, small_insert db t f, step-insert db t f);
  delete_link = λ db t f. (link false t f, small_delete db t f, has_link-without t f db.links);
  count_links = λ db f ts small keys. small_count db f ts;
  readonly = small_readonly;
  select_readonly = small_select;
  step_readonly = small_step_readonly;
  insert_tag = small_tag;
  insert_file = small_file;
}

-- a store with nothing in it
abbrev pub empty : Fs
empty = record {
  tags = ht_create;
  files = ht_create;
  tag_at = λ p. none;
  file_at = λ q. none;
  fd_at = λ d. none;
  next = 1;
  next_tag = 0;
  next_file = 0;
  db = record { links = []; names = [] };
  world = tt;
}
