-- ===== src/Sqlite/Links.antt =====
-- What SQLite documents of the statements that fuse_sqlite3/db.c runs on the table of the links
-- between tags and files, whose primary key is the pair of numbers (schema.sql).
use tag_filesystem.Base.{
  ℕ, ◌+◌, ◌^◌, ◌<◌, ◌≡◌, Bool, true, false, ◌&&◌, some, List, [], ◌∷◌, ◌++◌, Bytes, codes, ◌==◌,
  if◌then◌else◌,
}
use tag_filesystem.Sqlite.Database.{row, Sqlite}
use tag_filesystem.Sqlite.Number.{decimal}
use tag_filesystem.Sqlite.Statements.{insert_link_query, delete_link_query, insert_name_query}

-- numbers with commas between them, behind others
abbrev pub more_numbers : List ℕ → Bytes
more_numbers [] = []
more_numbers (t ∷ ts) = codes ", " ++ (decimal t ++ more_numbers ts)

abbrev pub number_list : List ℕ → Bytes
number_list [] = []
number_list (t ∷ ts) = decimal t ++ more_numbers ts

-- how many of the numbers have the property
abbrev pub count_of : (ℕ → Bool) → List ℕ → ℕ
count_of has [] = 0
count_of has (t ∷ ts) = (if has t then 1 else 0) + count_of has ts

-- the number is none of the list
abbrev pub IsOther : ℕ → List ℕ → Type 0
IsOther t [] = Unit
IsOther t (u ∷ us) = ((t == u) ≡ false) × IsOther t us

-- numbers of positive `int`s, none of them twice
abbrev pub AreKeys : List ℕ → Type 0
AreKeys [] = Unit
AreKeys (t ∷ ts) = (t < 2 ^ 31) × IsOther t ts × AreKeys ts

abbrev pub count_query : ℕ → List ℕ → Bytes
count_query f ts =
    codes "SELECT COUNT(t_id) FROM tag_file WHERE f_id = "
    ++ (decimal f ++ (codes " AND t_id IN (" ++ (number_list ts ++ codes ")")))

module _ ⦃Q : Sqlite⦄ where
  -- the statement of this text, with these values for its two numbers
  abbrev pub Bound : Q.Db → Bytes → ℕ → ℕ → Q.Stmt → Type 0
  Bound db query t f stmt =
      (with_tag : Q.Stmt) × (Q.bind_int (Q.prepare db query) (codes ":tid") t ≡ some with_tag)
      × (Q.bind_int with_tag (codes ":fid") f ≡ some stmt)

  -- the statement of this text can be given the name and the number, and its step changes no link
  abbrev pub AddsName : (Q.Db → ℕ → ℕ → Bool) → Q.Db → Bytes → Bytes → ℕ → Type 0
  AddsName linked db query name id =
      (named : Q.Stmt) × (stmt : Q.Stmt) × (Q.bind_text (Q.prepare db query) (codes ":name") name
        ≡ some named)
      × (Q.bind_int named (codes ":id") id ≡ some stmt)
      × ((u g : ℕ) → linked (Q.step db stmt).1.1 u g ≡ linked db u g)

pub record TagFile ⦃Q : Sqlite⦄ : Type 0 where
  -- the table has a row with the number of a tag and the number of a file
  pub linked : Q.Db → ℕ → ℕ → Bool
  -- an INSERT of a row that is there violates the primary key and changes nothing
  pub insert_link :
      (db : Q.Db) (t f : ℕ)
      → (stmt : Q.Stmt) × Bound db insert_link_query t f stmt
        × ((u g : ℕ)
            → linked (Q.step db stmt).1.1 u g
              ≡ (if (t == u) && (f == g) then true else linked db u g))
  pub delete_link :
      (db : Q.Db) (t f : ℕ)
      → (stmt : Q.Stmt) × Bound db delete_link_query t f stmt
        × ((u g : ℕ)
            → linked (Q.step db stmt).1.1 u g
              ≡ (if (t == u) && (f == g) then false else linked db u g))
  -- COUNT counts the rows of the file whose tag is in the list
  pub count_links :
      (db : Q.Db) (f : ℕ) (ts : List ℕ)
      → f < 2 ^ 31
      → AreKeys ts
      → ((Q.step db (Q.prepare db (count_query f ts))).0 ≡ row)
        × (Q.column_text (Q.step db (Q.prepare db (count_query f ts))).1.0 0
            ≡ some (decimal (count_of (λ t. linked db t f) ts)))
        × ((u g : ℕ) → linked (Q.step db (Q.prepare db (count_query f ts))).1.1 u g ≡ linked db u g)
  -- sqlite3_stmt_readonly: a SELECT is, and the steps of such a statement change no row
  pub readonly : Q.Stmt → Bool
  pub select_readonly :
      (db : Q.Db) (rest : Bytes) → readonly (Q.prepare db (codes "SELECT " ++ rest)) ≡ true
  pub step_readonly :
      (db : Q.Db) (stmt : Q.Stmt)
      → readonly stmt ≡ true
      → (readonly (Q.step db stmt).1.0 ≡ true)
        × ((u g : ℕ) → linked (Q.step db stmt).1.1 u g ≡ linked db u g)
  -- an INSERT into a table of names changes no link
  pub insert_tag :
      (db : Q.Db) (name : Bytes) (id : ℕ)
      → AddsName linked db (insert_name_query (codes "tag") (codes "t")) name id
  pub insert_file :
      (db : Q.Db) (name : Bytes) (id : ℕ)
      → AddsName linked db (insert_name_query (codes "file") (codes "f")) name id
