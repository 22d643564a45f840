-- ===== src/Cutil/Examples.antt =====
-- The theorems on tables and strings at small inputs.
use tag_filesystem.Base.{◌≡◌, refl, true, false, none, some, List, [], ◌∷◌, Bytes, str_eq, codes}
use tag_filesystem.Cutil.CList.Add.{list_add-get}
use tag_filesystem.Cutil.CList.Get.{Chain, IsList, list_get_lem}
use tag_filesystem.Cutil.CList.{ListNode, CList, list_get, list_add, set_node, node_get_next, walk}
use tag_filesystem.Cutil.HashTable.Instance.{list_uthash}
use tag_filesystem.Cutil.HashTable.{HashTable, IsUnique, ht_entries}
use tag_filesystem.Cutil.Libc.{slash}
use tag_filesystem.Cutil.String2.Split.{words, string_split-words}
use tag_filesystem.Cutil.String2.Split2.{join, AreFree, string_split2-join}
use tag_filesystem.Cutil.String2.{string_split, string_split2}

abbrev a : Bytes
a = codes "a"

abbrev b : Bytes
b = codes "b"

abbrev table : HashTable
table = (a, 1) ∷ (b, 2) ∷ []

table-IsUnique : IsUnique table
unfolding ht_entries str_eq
table-IsUnique = (refl, (refl, tt))

string_split-words_example :
    string_split (codes "/red//green/") slash ≡ some (words slash (codes "/red//green/"))
string_split-words_example = string_split-words (codes "/red//green/") slash

abbrev front : ListNode
front = record { data' = none; next = some 2; is_sentinel = true }

abbrev back : ListNode
back = record { data' = none; next = none; is_sentinel = true }

abbrev seven : ListNode
seven = record { data' = some 7; next = some 1; is_sentinel = false }

-- the list of the element 7, after an access to it
abbrev one_list : CList
one_list = record {
  front_sentinel = 0;
  cursor = 2;
  size = 1;
  curpos = 1;
  nodes = set_node (set_node (set_node (λ p. none) 1 (some back)) 0 (some front)) 2 (some seven);
  fresh = 3;
}

one_list-IsList : IsList one_list (7 ∷ [])
unfolding set_node node_get_next walk
one_list-IsList = record {
  chain = (2, seven, refl, refl, refl, refl, (1, back, refl, refl, refl));
  size = refl;
  cursor = refl;
}

list_get_lem_example : (l' : CList) × (list_get one_list 1 ≡ some (some 7, l')) × IsList l' (7 ∷ [])
list_get_lem_example = list_get_lem one_list (7 ∷ []) 0 7 one_list-IsList refl

list_add-get_example :
    (l' : CList) × (list_add one_list 5 ≡ some l')
    × Chain l'.nodes l'.front_sentinel (5 ∷ 7 ∷ [])
    × (l'.size ≡ 2)
    × (list_get l' 1 ≡ some (some 7, record l' { cursor = 2; curpos = 1 }))
unfolding set_node
list_add-get_example = list_add-get one_list (7 ∷ []) 0 7 5 one_list-IsList refl refl refl

string_split2-join_example :
    (p : Bytes) × (ps : List Bytes) × (string_split2 (codes "a::b:c::") (codes "::")
      ≡ some (p ∷ ps))
    × (join (codes "::") p ps ≡ codes "a::b:c::")
    × AreFree (codes "::") (p ∷ ps)
string_split2-join_example = string_split2-join b':' (codes ":") (codes "a::b:c::")
