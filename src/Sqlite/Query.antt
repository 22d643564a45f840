-- ===== src/Sqlite/Query.antt =====
-- fuse_sqlite3/db.c: the texts of the queries. xasprintf with %s is concatenation.
pub mod Literals
use tag_filesystem.Base.{ℕ, Bool, true, false, [], ◌++◌, Bytes, codes, ◌==◌, if◌then◌else◌}
use tag_filesystem.Cutil.HashTable.{Ptr, Uthash, HashTable, ht_for_each}

-- the callback of `tag_list_string`, on `string` and `first`
unfoldable pub append_string : Bytes → Ptr → Bytes × Bool → Bytes × Bool
append_string n t (string, first) =
    (string ++ ((if first then [] else codes ", ") ++ (codes "'" ++ (n ++ codes "'"))), false)

-- the text around the two arguments of xasprintf in `build_remaining_tags_query`
abbrev remaining_tags_of : Bytes
remaining_tags_of =
    codes
      "SELECT t_name FROM (SELECT t_name FROM tag WHERE t_id IN(    SELECT DISTINCT t_id FROM tag_file WHERE f_id IN    (        "

unfoldable pub build_remaining_tags_query : Bytes → Bytes → Bytes
build_remaining_tags_query tlist selected_files_query =
    remaining_tags_of
    ++ (selected_files_query ++ (codes "    ))) WHERE t_name NOT IN (" ++ (tlist ++ codes ")")))

module _ ⦃U : Uthash⦄ where
  unfoldable pub tag_list_string : HashTable → Bytes
  unfolding ht_for_each append_string
  tag_list_string selected_tags = (ht_for_each selected_tags append_string ([], true)).0

  unfoldable pub build_selected_file_query : Bytes → HashTable → ℕ → Bytes
  build_selected_file_query tlist selected_tags use_id =
      let query =
        codes
          "SELECT distinct f_id FROM tag_file WHERE t_id IN (    SELECT t_id FROM tag WHERE t_name in ("
        ++ (tlist ++ codes "))") in
      if use_id == 0
      then codes "SELECT f_name FROM file WHERE f_id in (" ++ (query ++ codes ")")
      else query
