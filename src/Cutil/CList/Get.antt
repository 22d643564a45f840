-- ===== src/Cutil/CList/Get.antt =====
-- The cursor of a list: an access through it finds the same node as a walk from the front.
use tag_filesystem.Base.{
  ℕ, zero, suc, ◌+◌, ◌-◌, ◌≡◌, ◌<◌, ◌∙◌, refl, sym, true, false, some, List, [], ◌∷◌, arith, leb,
  length, get_elem?, Bool-cases, Option-cases, inl, inr,
}
use tag_filesystem.Cutil.HashTable.{Ptr}
use tag_filesystem.Cutil.CList.{
  ListNode, Nodes, CList, node_get_next, walk, list_get_node, list_get,
}

-- the nodes behind `p` hold these elements, and the back sentinel follows them
abbrev pub Chain : Nodes → Ptr → List Ptr → Type 0
Chain h p [] =
    (q : Ptr) × (node : ListNode) × (node_get_next h p ≡ some q)
    × (h q ≡ some node)
    × (node.is_sentinel ≡ true)
Chain h p (x ∷ xs) =
    (q : Ptr) × (node : ListNode) × (node_get_next h p ≡ some q)
    × (h q ≡ some node)
    × (node.data' ≡ some x)
    × (node.is_sentinel ≡ false)
    × Chain h q xs

pub record IsList (l : CList) (xs : List Ptr) : Type 0 where
  pub chain : Chain l.nodes l.front_sentinel xs
  pub size : l.size ≡ length xs
  -- the cursor is the node of the number that is remembered
  pub cursor : walk l.nodes l.curpos l.front_sentinel ≡ some l.cursor

step : (a b : ℕ) → suc a + b ≡ suc (a + b)
step a b = omega arith

walk-add : (h : Nodes) (a b : ℕ) (p q : Ptr) → walk h a p ≡ some q → walk h (a + b) p ≡ walk h b q
unfolding walk
walk-add h zero b p q e = ground arith
walk-add h (suc a) b p q e = rw (step a b) (elim (Option-cases (node_get_next h p)) [
  | inl e' ↦ absurd (ground arith)
  | inr (p', e') ↦ ground (arith, walk-add h a b p' q)
])

-- the cursor saves steps, and finds the node that the walk from the front finds
pub list_get_node-walk :
    {xs : List Ptr} (l : CList) (n : ℕ) (p : Ptr)
    → IsList l xs
    → walk l.nodes n l.front_sentinel ≡ some p
    → list_get_node l n ≡ some (p, record l { cursor = p; curpos = n })
unfolding list_get_node
list_get_node-walk l n p k e = elim (Bool-cases (leb l.curpos n)) [
  | inl ahead ↦
      let sum : l.curpos + (n - l.curpos) ≡ n = ground arith in
      let short : walk l.nodes (n - l.curpos) l.cursor ≡ some p =
        sym (walk-add l.nodes l.curpos (n - l.curpos) l.front_sentinel l.cursor k.cursor)
        ∙ rw sum e in
      rw (list_get_node, ahead, short) refl
  | inr behind ↦ rw (list_get_node, behind, e) refl
]

pub Chain-walk :
    (h : Nodes) (p : Ptr) (xs : List Ptr) (i : ℕ) (x : Ptr)
    → Chain h p xs
    → get_elem? xs i ≡ some x
    → (q : Ptr) × (node : ListNode) × (walk h (suc i) p ≡ some q)
      × (h q ≡ some node)
      × (node.data' ≡ some x)
      × ((ys : List Ptr) × Chain h q ys × (length ys < length xs))
unfolding walk
Chain-walk h p [] i x c e = absurd (ground arith)
Chain-walk h p (y ∷ xs) zero x (q, node, next, here, data', _, c) e =
    (q, node, ground arith, here, ground arith, (xs, c, omega arith))
Chain-walk h p (y ∷ xs) (suc i) x (q, node, next, here, data', _, c) e =
    let (r, node', w, here', data'', (ys, d, less)) = Chain-walk h q xs i x c e in
    (r, node', ground (arith, w), here', data'', (ys, d, omega arith))

-- On a list that holds `xs`, wherever its cursor is, `list_get` of the number `i + 1` does not fault
-- and returns the element `i` of `xs`; the list holds `xs` afterwards.
pub list_get_lem :
    (l : CList) (xs : List Ptr) (i : ℕ) (x : Ptr)
    → IsList l xs
    → get_elem? xs i ≡ some x
    → (l' : CList) × (list_get l (suc i) ≡ some (some x, l')) × IsList l' xs
unfolding list_get
list_get_lem l xs i x k e =
    let (q, node, w, here, data', _) = Chain-walk l.nodes l.front_sentinel xs i x k.chain e in
    (
      record l { cursor = q; curpos = suc i },
      rw (list_get, list_get_node-walk l (suc i) q k w, here, data') refl,
      record { chain = k.chain; size = k.size; cursor = w },
    )
