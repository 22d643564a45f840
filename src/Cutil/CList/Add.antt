-- ===== src/Cutil/CList/Add.antt =====
-- `list_add`, which puts a node in front, and the cursor.
use tag_filesystem.Cutil.CList.Get.{Chain, IsList, Chain-walk}
use tag_filesystem.Base.{
  ℕ, suc, ◌+◌, ◌≡◌, ◌<◌, ◌≤◌, ap, ◌∙◌, refl, sym, false, none, some, List, [], ◌∷◌, arith, length,
  get_elem?, ◌==◌, ==_iff, Bool-cases, Option-cases, inl, inr,
}
use mathlib.Core.Option.{some-injective}
use mathlib.Core.Path.{subst}
use tag_filesystem.Cutil.HashTable.{Ptr}
use tag_filesystem.Cutil.CList.{
  ListNode, Nodes, CList, node_get_next, walk, list_get_node, list_get, list_add, add_behind,
  set_node,
}

no_next : (h : Nodes) (p : Ptr) (xs : List Ptr) → Chain h p xs → h p ≡ none → ⊥
unfolding node_get_next
no_next h p [] (q, node, next, _, _) e = ground arith
no_next h p (x ∷ xs) (q, node, next, _, _, _, _) e = ground arith

-- the front sentinel is a node
front_here :
    (l : CList) (xs : List Ptr)
    → IsList l xs
    → (node : ListNode) × (l.nodes l.front_sentinel ≡ some node)
unfolding node_get_next
front_here l xs k = elim (Option-cases (l.nodes l.front_sentinel)) [
  | inr found ↦ found
  | inl e ↦ absurd (no_next l.nodes l.front_sentinel xs k.chain e)
]

abbrev after_add : CList → Ptr → ListNode → CList
after_add list element front =
    let tmp : ListNode = record { data' = some element; next = front.next; is_sentinel = false } in
    let linked : ListNode = record front { next = some list.fresh } in
    record list {
      nodes =
          set_node (set_node list.nodes list.fresh (some tmp)) list.front_sentinel (some linked);
      size = list.size + 1;
      fresh = list.fresh + 1;
    }

list_add-run :
    (l : CList) (element : Ptr) (front : ListNode)
    → l.nodes l.front_sentinel ≡ some front
    → list_add l element ≡ some (after_add l element front)
unfolding list_add add_behind
list_add-run l element front e = rw (e, add_behind, list_add) refl

-- the nodes behind an address determine how many elements there are
Chain-length :
    (h : Nodes) (p : Ptr) (xs ys : List Ptr) → Chain h p xs → Chain h p ys → length xs ≡ length ys
Chain-length h p [] [] c d = refl
Chain-length h p [] (y ∷ ys) (q, node, next, here, last) (q', node', next', here', _, inner, _) =
    absurd (ground arith)
Chain-length h p (x ∷ xs) [] (q, node, next, here, _, inner, _) (q', node', next', here', last) =
    absurd (ground arith)
Chain-length h p (x ∷ xs) (y ∷ ys) (q, _, next, _, _, _, c) (q', _, next', _, _, _, d) =
    let same : q ≡ q' = some-injective q q' (sym next ∙ next') in
    ap suc (Chain-length h q xs ys c (subst (λ r. Chain h r ys) (sym same) d))

module _ (l : CList) (xs : List Ptr) (element : Ptr) (front : ListNode) (k : IsList l xs)
    (e_front : l.nodes l.front_sentinel ≡ some front) (unused : l.nodes l.fresh ≡ none) where
  -- the nodes after `list_add`
  abbrev added : Nodes
  added = (after_add l element front).nodes

  added_elsewhere :
      (q : Ptr) → (q == l.front_sentinel) ≡ false → (q == l.fresh) ≡ false → added q ≡ l.nodes q
  unfolding set_node
  added_elsewhere q other new = ground arith

  added-front : added l.front_sentinel ≡ some (record front { next = some l.fresh })
  unfolding set_node
  added-front = ground (arith, ==_iff l.front_sentinel l.front_sentinel)

  not_fresh : (q : Ptr) (node : ListNode) → l.nodes q ≡ some node → (q == l.fresh) ≡ false
  not_fresh q node here = elim (Bool-cases (q == l.fresh)) [
    | inl same ↦ absurd (ground (arith, ==_iff q l.fresh))
    | inr other ↦ other
  ]

  added_fresh :
      added l.fresh ≡ some (record { data' = some element; next = front.next; is_sentinel = false })
  unfolding set_node
  added_fresh = ground (
    arith,
    ==_iff l.fresh l.fresh,
    not_fresh l.front_sentinel front e_front,
    ==_iff l.fresh l.front_sentinel,
    ==_iff l.front_sentinel l.fresh,
  )

  next_elsewhere : (q : Ptr) → added q ≡ l.nodes q → node_get_next added q ≡ node_get_next l.nodes q
  unfolding node_get_next
  next_elsewhere q e = rw (e, node_get_next) refl

  -- a node of the chain that is no sentinel is not the front
  not_front :
      (q : Ptr) (ys : List Ptr)
      → Chain l.nodes q ys
      → length ys < length xs
      → (q == l.front_sentinel) ≡ false
  not_front q ys c less = elim (Bool-cases (q == l.front_sentinel)) [
    | inl same ↦
        let at_front : Chain l.nodes l.front_sentinel ys =
          subst (λ p. Chain l.nodes p ys) ((==_iff q l.front_sentinel).0 same) c in
        absurd (omega (arith, Chain-length l.nodes l.front_sentinel xs ys k.chain at_front))
    | inr other ↦ other
  ]

  Chain-added :
      (p p' : Ptr) (ys : List Ptr)
      → node_get_next added p' ≡ node_get_next l.nodes p
      → Chain l.nodes p ys
      → length ys ≤ length xs
      → Chain added p' ys
  Chain-added p p' [] same (q, node, next, here, last) less =
      elim (Bool-cases (q == l.front_sentinel)) [
        | inl at_front ↦ (
          q,
          record front { next = some l.fresh },
          same ∙ next,
          rw ((==_iff q l.front_sentinel).0 at_front) added-front,
          ground (arith, ==_iff q l.front_sentinel),
        )
        | inr other ↦
            (q, node, same ∙ next, added_elsewhere q other (not_fresh q node here) ∙ here, last)
      ]
  Chain-added p p' (y ∷ ys) same (q, node, next, here, data', inner, c) less =
      let other = not_front q ys c (omega arith) in
      let here' = added_elsewhere q other (not_fresh q node here) in
      (
        q,
        node,
        same ∙ next,
        here' ∙ here,
        data',
        inner,
        Chain-added q q ys (next_elsewhere q here') c (omega arith),
      )

  after_add-IsChain : Chain added l.front_sentinel (element ∷ xs)
  unfolding node_get_next
  after_add-IsChain = (
    l.fresh,
    record { data' = some element; next = front.next; is_sentinel = false },
    rw (added-front, node_get_next) refl,
    added_fresh,
    refl,
    refl,
    Chain-added l.front_sentinel l.fresh xs (rw (added_fresh, node_get_next, e_front) refl) k.chain
        (omega arith),
  )

-- On a list that holds `xs`, where nothing is at the address of the next node, after an access to the
-- number `i + 1`, `list_add` does not fault; the nodes then hold the element and `xs` behind it, and the
-- size has grown by one, so that the element `i` of `xs` has the number `i + 2`; but `list_get` of
-- `i + 1` still returns it, through the cursor that was left.
pub list_add-get :
    (l : CList) (xs : List Ptr) (i : ℕ) (x element : Ptr)
    → IsList l xs
    → get_elem? xs i ≡ some x
    → l.curpos ≡ suc i
    → l.nodes l.fresh ≡ none
    → (l' : CList) × (list_add l element ≡ some l')
      × Chain l'.nodes l'.front_sentinel (element ∷ xs)
      × (l'.size ≡ length (element ∷ xs))
      × (list_get l' (suc i) ≡ some (some x, record l' { cursor = l.cursor; curpos = suc i }))
unfolding set_node list_get list_get_node walk
list_add-get l xs i x element k e at unused =
    let (q, node, w, here, data', (ys, c, less)) =
      Chain-walk l.nodes l.front_sentinel xs i x k.chain e in
    let (front, e_front) = front_here l xs k in
    let same : l.cursor ≡ q = some-injective l.cursor q (ground (arith, k.cursor)) in
    let other : (l.cursor == l.front_sentinel) ≡ false =
      rw same (not_front l xs element front k e_front unused q ys c less) in
    let new : (l.cursor == l.fresh) ≡ false =
      rw same (not_fresh l xs element front k e_front unused q node here) in
    (
      after_add l element front,
      list_add-run l element front e_front,
      after_add-IsChain l xs element front k e_front unused,
      omega (arith, k.size),
      ground (arith, ==_iff (suc i) (suc i)),
    )
