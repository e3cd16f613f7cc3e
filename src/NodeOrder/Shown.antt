-- ===== src/NodeOrder/Shown.antt =====
-- The editor shows every node once.
use amnezia_shared_panel.Base.{
  ℕ, ◌≡◌, refl, ap, true, false, not, ◌&&◌, ◌||◌, List, [], ◌∷◌, ◌++◌, ◌==◌, String, any-append,
  keep, Bool-cases, inl, inr, arith,
}
use amnezia_shared_panel.PolicyLists.{has}
use amnezia_shared_panel.PolicyLists.Prefix.{IsDistinct}
use amnezia_shared_panel.Panel.Create.{Order, is_more}
use amnezia_shared_panel.NodeOrder.{
  OrderableNode, ids_of, positioned, compare_nodes, insert_node, sort_nodes, materialize_node_order,
}
use amnezia_shared_panel.NodeOrder.Moves.{Rearranges}

pub has-same : (id x : ℕ) (ids : List ℕ) → (id == x) ≡ true → has id ids ≡ has x ids
has-same id x ids e = let same : id ≡ x = ground (arith, e) in ap (λ y. has y ids) same

has-positioned :
    (known seen order : List ℕ) (x : ℕ)
    → has x (positioned known seen order) ≡ (has x order && (has x known && not (has x seen)))
unfolding positioned
has-positioned known seen [] x = refl
has-positioned known seen (id ∷ order) x = elim (Bool-cases (not (has id known) || has id seen)) [
  | inl e ↦ rw e (
      ground (arith, e, has-positioned known seen order x, has-same id x known, has-same id x seen))
  | inr e ↦ rw e (
      ground (
        arith,
        e,
        has-positioned known (id ∷ seen) order x,
        has-same id x known,
        has-same id x seen,
      ))
]

positioned-IsDistinct : (known seen order : List ℕ) → IsDistinct (positioned known seen order)
unfolding positioned
positioned-IsDistinct known seen [] = tt
positioned-IsDistinct known seen (id ∷ order) =
    elim (Bool-cases (not (has id known) || has id seen)) [
      | inl e ↦ rw e (positioned-IsDistinct known seen order)
      | inr e ↦ rw e (
        ground (arith, has-positioned known (id ∷ seen) order id),
        positioned-IsDistinct known (id ∷ seen) order,
      )
    ]

module _ (compare : String → String → Order) where
  has-insert_node :
      (n : OrderableNode) (ms : List OrderableNode) (x : ℕ)
      → has x (ids_of (insert_node compare n ms)) ≡ ((n.id == x) || has x (ids_of ms))
  unfolding insert_node
  has-insert_node n [] x = refl
  has-insert_node n (m ∷ ms) x = elim (Bool-cases (is_more (compare_nodes compare n m))) [
    | inl e ↦ rw e (ground (arith, has-insert_node n ms x))
    | inr e ↦ rw e refl
  ]

  insert_node-IsDistinct :
      (n : OrderableNode) (ms : List OrderableNode)
      → has n.id (ids_of ms) ≡ false
      → IsDistinct (ids_of ms)
      → IsDistinct (ids_of (insert_node compare n ms))
  unfolding insert_node
  insert_node-IsDistinct n [] new d = (refl, tt)
  insert_node-IsDistinct n (m ∷ ms) new (apart, d) =
      elim (Bool-cases (is_more (compare_nodes compare n m))) [
        | inl e ↦ rw e (
          ground (arith, new, apart, has-insert_node n ms m.id),
          insert_node-IsDistinct n ms (ground (arith, new)) d,
        )
        | inr e ↦ rw e (new, (apart, d))
      ]

  has-sort_nodes :
      (ns : List OrderableNode) (x : ℕ) → has x (ids_of (sort_nodes compare ns)) ≡ has x (ids_of ns)
  unfolding sort_nodes
  has-sort_nodes [] x = refl
  has-sort_nodes (n ∷ ns) x =
      ground (arith, has-insert_node n (sort_nodes compare ns) x, has-sort_nodes ns x)

  sort_nodes-IsDistinct :
      (ns : List OrderableNode)
      → IsDistinct (ids_of ns)
      → IsDistinct (ids_of (sort_nodes compare ns))
  unfolding sort_nodes
  sort_nodes-IsDistinct [] d = tt
  sort_nodes-IsDistinct (n ∷ ns) (new, d) =
      insert_node-IsDistinct n (sort_nodes compare ns) (ground (arith, has-sort_nodes ns n.id, new))
        (sort_nodes-IsDistinct ns d)

  has-rest :
      (first_ids : List ℕ) (ns : List OrderableNode) (x : ℕ)
      → has x (ids_of (keep (λ n. not (has n.id first_ids)) ns))
        ≡ (has x (ids_of ns) && not (has x first_ids))
  has-rest first_ids [] x = refl
  has-rest first_ids (n ∷ ns) x = elim (Bool-cases (not (has n.id first_ids))) [
    | inl e ↦ rw e (ground (arith, e, has-rest first_ids ns x, has-same n.id x first_ids))
    | inr e ↦ rw e (ground (arith, e, has-rest first_ids ns x, has-same n.id x first_ids))
  ]

  rest-IsDistinct :
      (first_ids : List ℕ) (ns : List OrderableNode)
      → IsDistinct (ids_of ns)
      → IsDistinct (ids_of (keep (λ n. not (has n.id first_ids)) ns))
  rest-IsDistinct first_ids [] d = tt
  rest-IsDistinct first_ids (n ∷ ns) (new, d) = elim (Bool-cases (not (has n.id first_ids))) [
    | inl e ↦ rw e (ground (arith, has-rest first_ids ns n.id, new), rest-IsDistinct first_ids ns d)
    | inr e ↦ rw e (rest-IsDistinct first_ids ns d)
  ]

  append-IsDistinct :
      (xs ys : List ℕ)
      → IsDistinct xs
      → IsDistinct ys
      → ((x : ℕ) → has x xs ≡ true → has x ys ≡ false)
      → IsDistinct (xs ++ ys)
  append-IsDistinct [] ys dx dy apart = dy
  append-IsDistinct (x ∷ xs) ys (new, dx) dy apart = (
    ground (arith, any-append (λ y. y == x) xs ys, new, apart x),
    append-IsDistinct xs ys dx dy (λ y h. apart y (ground (arith, h))),
  )

  -- Whatever order is saved, the editor shows every node, and none twice.
  pub materialize_node_order-Rearranges :
      (nodes : List OrderableNode) (order : List ℕ)
      → IsDistinct (ids_of nodes)
      → Rearranges (ids_of nodes) (materialize_node_order compare nodes order)
  unfolding materialize_node_order
  materialize_node_order-Rearranges nodes order d =
      let first_ids = positioned (ids_of nodes) [] order in
      let rest = keep (λ n. not (has n.id first_ids)) nodes in
      (
        append-IsDistinct first_ids (ids_of (sort_nodes compare rest))
            (positioned-IsDistinct (ids_of nodes) [] order)
            (sort_nodes-IsDistinct rest (rest-IsDistinct first_ids nodes d))
            (λ x h. ground (arith, h, has-sort_nodes rest x, has-rest first_ids nodes x)),
        λ x. ground (
          arith,
          any-append (λ y. y == x) first_ids (ids_of (sort_nodes compare rest)),
          has-sort_nodes rest x,
          has-rest first_ids nodes x,
          has-positioned (ids_of nodes) [] order x,
        ),
      )
