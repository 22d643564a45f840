-- ===== src/Cutil/CList.antt =====
-- cutil/list.c: the singly linked list between two sentinels, with a cursor that remembers the node
-- of the last access. Each list has its own heap of nodes; two lists that are passed to one function
-- are different lists. `list_free` and the free function of the elements give memory back and are
-- left out. A read through an address without a node, or of a link that was never set, is `none`.
pub mod Get
pub mod Add
use tag_filesystem.Base.{
  ℕ, zero, suc, ◌+◌, ◌-◌, ◌%◌, ◌^◌, Bool, true, false, not, ◌&&◌, Option, none, some, List, [], ◌∷◌,
  Bytes, ◌==◌, leb, if◌then◌else◌,
}
use tag_filesystem.Cutil.HashTable.{Ptr, Uthash, HashTable, ht_create, ht_add_entry}

-- `struct list_node`: `data` is `none` for NULL, and `next` is `none` as long as it was not set
pub record ListNode : Type 0 where
  pub data' : Option Ptr
  pub next : Option Ptr
  pub is_sentinel : Bool

abbrev pub Nodes : Type 0
Nodes = Ptr → Option ListNode

-- `struct list`, its nodes, and the address of the next node that is made
pub record CList : Type 0 where
  pub front_sentinel : Ptr
  pub cursor : Ptr
  pub size : ℕ
  pub curpos : ℕ
  pub nodes : Nodes
  pub fresh : Ptr

unfoldable pub set_node : Nodes → Ptr → Option ListNode → Nodes
set_node h p c q = if q == p then c else h q

unfoldable pub node_get_next : Nodes → Ptr → Option Ptr
node_get_next h p = elim (h p) [ none ↦ none | some node ↦ node.next ]

-- `node_get_next(node)` `k` times
unfoldable pub walk : Nodes → ℕ → Ptr → Option Ptr
walk h zero node = some node
walk h (suc k) node = elim (node_get_next h node) [ none ↦ none | some node' ↦ walk h k node' ]

unfoldable pub list_get_node : CList → ℕ → Option (Ptr × CList)
list_get_node list n =
    let node = if leb list.curpos n then list.cursor else list.front_sentinel in
    let k = if leb list.curpos n then n - list.curpos else n in
    elim (walk list.nodes k node) [
      | none ↦ none
      | some node' ↦ some (node', record list { cursor = node'; curpos = n })
    ]

unfoldable pub list_size : CList → ℕ
list_size list = list.size

-- `list_new(0)`
unfoldable pub list_new : CList
unfolding set_node
list_new =
    let back : ListNode = record { data' = none; next = none; is_sentinel = true } in
    let front : ListNode = record { data' = none; next = some 1; is_sentinel = true } in
    record {
      front_sentinel = 0;
      cursor = 0;
      size = 0;
      curpos = 0;
      nodes = set_node (set_node (λ p. none) 1 (some back)) 0 (some front);
      fresh = 2;
    }

unfoldable pub list_get : CList → ℕ → Option (Option Ptr × CList)
list_get list n = elim (list_get_node list n) [
  | none ↦ none
  | some (node, list') ↦ elim (list'.nodes node) [ none ↦ none | some x ↦ some (x.data', list') ]
]

-- a new node behind the node `previous`
unfoldable pub add_behind : CList → Ptr → Ptr → Option CList
unfolding set_node
add_behind list previous element = elim (list.nodes previous) [
  | none ↦ none
  | some node ↦
      let tmp : ListNode = record { data' = some element; next = node.next; is_sentinel = false } in
      let linked : ListNode = record node { next = some list.fresh } in
      some (record list {
        nodes = set_node (set_node list.nodes list.fresh (some tmp)) previous (some linked);
        size = list.size + 1;
        fresh = list.fresh + 1;
      })
]

unfoldable pub list_add : CList → Ptr → Option CList
list_add list element = add_behind list list.front_sentinel element

-- `n - 1` in `unsigned int`
abbrev pub pred_unsigned : ℕ → ℕ
pred_unsigned n = (n + (2 ^ 32 - 1)) % 2 ^ 32

unfoldable pub list_insert : CList → ℕ → Ptr → Option CList
list_insert list n element = elim (list_get_node list (pred_unsigned n)) [
  | none ↦ none
  | some (previous, list') ↦ add_behind list' previous element
]

unfoldable pub list_append : CList → Ptr → Option CList
list_append list element = list_insert list (list_size list + 1) element

unfoldable pub list_remove : CList → ℕ → Option CList
unfolding set_node
list_remove list n = elim (list_get_node list (pred_unsigned n)) [
  | none ↦ none
  | some (previous, list') ↦ elim (list'.nodes previous) [
    | none ↦ none
    | some node ↦ elim node.next [
      | none ↦ none
      | some tmp ↦ elim (list'.nodes tmp) [
        | none ↦ none
        | some removed ↦
            let linked : ListNode = record node { next = removed.next } in
            some (record list' {
              nodes = set_node (set_node list'.nodes previous (some linked)) tmp none;
              size = list'.size - 1;
            })
      ]
    ]
  ]
]

-- the test `!node_is_sentinel(next) && node_get_data(next) == value`
abbrev pub holds : ListNode → Ptr → Bool
holds node value = elim node.data' [ none ↦ false | some x ↦ not node.is_sentinel && x == value ]

-- one round of the loop of `list_remove_value` at `n`
unfoldable pub remove_next : CList → Ptr → Ptr → Option CList
unfolding set_node
remove_next l n value = elim (l.nodes n) [
  | none ↦ none
  | some node ↦ elim node.next [
    | none ↦ none
    | some next ↦ elim (l.nodes next) [
      | none ↦ none
      | some x ↦
          if holds x value
          then some (record l {
            nodes = set_node (set_node l.nodes n (some (record node { next = x.next }))) next none;
            size = l.size - 1;
          })
          else some l
    ]
  ]
]

-- at most one round for each node and one more; `none` is also out of fuel
unfoldable pub remove_value_loop : ℕ → CList → Ptr → Ptr → Option CList
remove_value_loop zero l n value = none
remove_value_loop (suc fuel) l n value = elim (remove_next l n value) [
  | none ↦ none
  | some l' ↦ elim (node_get_next l'.nodes n) [
    | none ↦ none
    | some n' ↦ elim (l'.nodes n') [
      | none ↦ none
      | some x ↦
          let rest = remove_value_loop fuel l' n' value in if x.is_sentinel then some l' else rest
    ]
  ]
]

unfoldable pub list_remove_value : CList → Ptr → Option CList
list_remove_value l value = remove_value_loop (suc l.size) l l.front_sentinel value

-- `list_get(l, i)` for `count` numbers from `i` on, and the list with its cursor moved
unfoldable pub get_from : CList → ℕ → ℕ → Option (List (Option Ptr) × CList)
get_from l i zero = some ([], l)
get_from l i (suc count) = elim (list_get l i) [
  | none ↦ none
  | some (x, l') ↦ elim (get_from l' (i + 1) count) [
    | none ↦ none
    | some (xs, l'') ↦ some (x ∷ xs, l'')
  ]
]

-- an element that is NULL is not in any list of the program
unfoldable pub append_all : CList → List (Option Ptr) → Option CList
append_all l1 [] = some l1
append_all l1 (none ∷ xs) = none
append_all l1 (some x ∷ xs) = elim (list_append l1 x) [ none ↦ none | some l1' ↦ append_all l1' xs ]

unfoldable pub list_append_list : CList → CList → Option (CList × CList)
list_append_list l1 l2 = elim (get_from l2 1 (list_size l2)) [
  | none ↦ none
  | some (xs, l2') ↦ elim (append_all l1 xs) [ none ↦ none | some l1' ↦ some (l1', l2') ]
]

unfoldable pub list_copy : CList → Option (CList × CList)
list_copy l = list_append_list list_new l

-- the array of `list_to_array`, from number 0 on
unfoldable pub list_to_array : CList → Option (List (Option Ptr) × CList)
list_to_array l = get_from l 0 l.size

-- the calls of `fun` are in the order of the list
unfoldable pub map_elements : (Ptr → Ptr) → List (Option Ptr) → Option (List (Option Ptr))
map_elements fun [] = some []
map_elements fun (none ∷ xs) = none
map_elements fun (some x ∷ xs) = elim (map_elements fun xs) [
  | none ↦ none
  | some ys ↦ some (some (fun x) ∷ ys)
]

unfoldable pub list_map_r : CList → (Ptr → Ptr) → Option (CList × CList)
list_map_r l fun = elim (get_from l 1 (list_size l)) [
  | none ↦ none
  | some (xs, l') ↦ elim (map_elements fun xs) [
    | none ↦ none
    | some ys ↦ elim (append_all list_new ys) [ none ↦ none | some ret ↦ some (ret, l') ]
  ]
]

unfoldable pub each_element : {S : Type 0} → (Ptr → S → S) → List (Option Ptr) → S → Option S
each_element fun [] s = some s
each_element fun (none ∷ xs) s = none
each_element fun (some x ∷ xs) s = each_element fun xs (fun x s)

-- `fun` acts on a state
unfoldable pub list_each_r : {S : Type 0} → CList → (Ptr → S → S) → S → Option (S × CList)
list_each_r l fun s = elim (get_from l 1 (list_size l)) [
  | none ↦ none
  | some (xs, l') ↦ elim (each_element fun xs s) [ none ↦ none | some s' ↦ some (s', l') ]
]

unfoldable pub list_map : CList → (Ptr → Ptr) → Option (CList × CList)
list_map l fun = list_map_r l fun

unfoldable pub list_each : {S : Type 0} → CList → (Ptr → S → S) → S → Option (S × CList)
list_each l fun s = list_each_r l fun s

module _ ⦃U : Uthash⦄ where
  -- `element_keyname` of NULL, the data of the front sentinel, is `none`
  unfoldable pub add_elements :
      (Option Ptr → Option Bytes) → List (Option Ptr) → HashTable → Option HashTable
  add_elements element_keyname [] ht = some ht
  add_elements element_keyname (none ∷ xs) ht = none
  add_elements element_keyname (some el ∷ xs) ht = elim (element_keyname (some el)) [
    | none ↦ none
    | some key ↦ add_elements element_keyname xs (ht_add_entry ht key el).1
  ]

  unfoldable pub list_to_hashtable :
      CList → (Option Ptr → Option Bytes) → Option (HashTable × CList)
  list_to_hashtable l element_keyname = elim (get_from l 0 l.size) [
    | none ↦ none
    | some (xs, l') ↦ elim (add_elements element_keyname xs ht_create) [
      | none ↦ none
      | some ht ↦ some (ht, l')
    ]
  ]
