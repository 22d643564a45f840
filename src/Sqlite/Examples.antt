-- ===== src/Sqlite/Examples.antt =====
-- The query texts and the listings of fuse_sqlite3/ at small inputs.
pub mod Numbers
pub mod Store
pub mod Handlers
use tag_filesystem.Base.{
  ◌≡◌, refl, Option, none, some, [], ◌∷◌, ◌++◌, Bytes, codes, arith, pos, negsuc, ◌==◌, str_eq,
  if◌then◌else◌,
}
use tag_filesystem.Cutil.HashTable.Instance.{list_uthash}
use tag_filesystem.Cutil.HashTable.{HashTable, ht_entries}
use tag_filesystem.Cutil.Libc.{has_char}
use tag_filesystem.Cutil.Libc.{starts_with}
use tag_filesystem.Fuse.Examples.Store.{small_os}
use tag_filesystem.Sqlite.Database.{done, is_done}
use tag_filesystem.Sqlite.Examples.Store.{small_prepare, small_sqlite, empty}
use tag_filesystem.Sqlite.State.{Fs}
use tag_filesystem.Sqlite.Listing.Rows.{db_list_remaining_tags_lem, db_list_selected_files_lem}
use tag_filesystem.Sqlite.Listing.{
  Names, remaining_tags_query, db_list_remaining_tags, db_list_selected_files,
}
use tag_filesystem.Sqlite.Query.Literals.{
  read_literals, names_of, HaveNoQuote, read_literals-tag_list_string,
}
use tag_filesystem.Sqlite.Query.{tag_list_string}

abbrev two_tags : HashTable
two_tags = (codes "red", 1) ∷ (codes "blue", 2) ∷ []

two_tags-HaveNoQuote : HaveNoQuote (ht_entries two_tags)
unfolding ht_entries has_char
two_tags-HaveNoQuote = (refl, (refl, tt))

two_tags_text : tag_list_string two_tags ≡ codes "'red', 'blue'"
unfolding tag_list_string
two_tags_text = refl

-- a name with quotes is read as two names
quoted_text :
    read_literals (tag_list_string ((codes "a', 'b", 1) ∷ [])) ≡ some (codes "a" ∷ codes "b" ∷ [])
unfolding tag_list_string read_literals
quoted_text = refl

-- a name with one quote makes no list
broken_text : read_literals (tag_list_string ((codes "it's", 1) ∷ [])) ≡ none
unfolding tag_list_string read_literals
broken_text = refl

read_literals-tag_list_string_example :
    read_literals (tag_list_string two_tags) ≡ some (names_of (ht_entries two_tags))
read_literals-tag_list_string_example = read_literals-tag_list_string two_tags two_tags-HaveNoQuote

-- a store whose database answers with two names
abbrev two_names : Names
two_names = some (codes "green") ∷ some (codes "old") ∷ []

abbrev listed : Fs
listed = record empty { db = record { links = []; names = two_names } }

db_list_remaining_tags_lem_example :
    db_list_remaining_tags 3 two_tags [] listed
    ≡ some (
      (if is_done done then pos 0 else negsuc 0, [] ++ two_names),
      record listed { db = listed.db },
    )
unfolding small_prepare starts_with remaining_tags_query str_eq
db_list_remaining_tags_lem_example =
    db_list_remaining_tags_lem 3 listed two_tags [] two_names done listed.db
      (refl, refl, (refl, refl, (refl, refl, refl))) (omega arith)

db_list_selected_files_lem_example :
    (text : Option Bytes) × (db_list_selected_files 3 two_tags [] listed
      ≡ some (
        (if is_done done then pos 0 else negsuc 0, [] ++ ((none ∷ none ∷ []) ++ (text ∷ []))),
        record listed { db = listed.db },
      ))
unfolding small_prepare starts_with str_eq
db_list_selected_files_lem_example =
    db_list_selected_files_lem 3 listed two_tags [] (none ∷ none ∷ []) done listed.db
      (refl, refl, (refl, refl, (refl, refl, refl))) refl (omega arith)
