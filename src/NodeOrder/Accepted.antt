-- ===== src/NodeOrder/Accepted.antt =====
-- What the editor hands to the form is what the control API accepts.
use mathlib.Core.Path.{subst}
use amnezia_shared_panel.Base.{
  ℕ, zero, suc, ◌+◌, ◌-◌, min, ◌≡◌, refl, sym, ap, ◌∙◌, List, [], ◌∷◌, ◌++◌, some, String, ◌==◌,
  ltb, leb, length, take, drop, or_else, Bool-cases, inl, inr, arith,
}
use amnezia_shared_panel.PolicyLists.{prefix, check_recommended_prefix}
use amnezia_shared_panel.PolicyLists.Prefix.{IsDistinct, check_recommended_prefix-front}
use amnezia_shared_panel.Panel.Create.{Order}
use amnezia_shared_panel.NodeOrder.{
  OrderableNode, NodeOrderChange, ids_of, materialize_node_order, index_of, move_node_in_order,
  move_node_to_index, recommended_count_from_ids, settle_order, recommend_node, unrecommend_node,
  Edit, tick, untick, shift_by, drop_on, apply_edit, edit_node_order,
}
use amnezia_shared_panel.NodeOrder.Moves.{
  Rearranges, index_of-get, move_node_to_index-Rearranges, move_node_in_order-Rearranges,
}
use amnezia_shared_panel.NodeOrder.Shown.{materialize_node_order-Rearranges}

-- A change that the control API stores as it is, of all the nodes.
abbrev pub IsAccepted : List ℕ → NodeOrderChange → Type 0
IsAccepted ids change =
    (check_recommended_prefix change.recommended_node_ids change.node_order
      ≡ prefix change.recommended_node_ids)
    × Rearranges ids change.node_order

take-drop : (n : ℕ) (xs : List ℕ) → take n xs ++ drop n xs ≡ xs
take-drop zero xs = refl
take-drop (suc n) [] = refl
take-drop (suc n) (x ∷ xs) = ap (λ l. x ∷ l) (take-drop n xs)

module _ (ids : List ℕ) where
  settle_order-IsAccepted :
      (after : List ℕ) (count : ℕ)
      → Rearranges ids after
      → IsAccepted ids (settle_order after count)
  settle_order-IsAccepted after count (d, same) =
      let k = min count (length after) in
      let whole = take-drop k after in
      (
        subst (λ order. check_recommended_prefix (take k after) order ≡ prefix (take k after)) whole
            (check_recommended_prefix-front (take k after) (take k after) (drop k after)
              (subst IsDistinct (sym whole) d) (λ x. refl)),
        (d, same),
      )

  follow :
      (ordered after : List ℕ)
      → Rearranges ids ordered
      → Rearranges ordered after
      → Rearranges ids after
  follow ordered after (d, same) (d', moved) = (d', λ x. moved x ∙ same x)

  recommend_node-IsAccepted :
      (ordered : List ℕ) (count id : ℕ)
      → Rearranges ids ordered
      → IsAccepted ids (recommend_node ordered count id)
  unfolding recommend_node
  recommend_node-IsAccepted ordered count id r = elim (index_of-get id ordered) [
    | inl (e, out) ↦ rw (e, recommend_node) (settle_order-IsAccepted ordered count r)
    | inr (from, e, at, there) ↦ elim (Bool-cases (ltb from count)) [
      | inl early ↦ rw (e, early, recommend_node) (settle_order-IsAccepted ordered count r)
      | inr late ↦
          rw (e, late, recommend_node)
            (settle_order-IsAccepted (move_node_to_index ordered id count) (count + 1) (
              follow ordered (move_node_to_index ordered id count) r
                (move_node_to_index-Rearranges ordered id count r.0)))
    ]
  ]

  unrecommend_node-IsAccepted :
      (ordered : List ℕ) (count id : ℕ)
      → Rearranges ids ordered
      → IsAccepted ids (unrecommend_node ordered count id)
  unfolding unrecommend_node
  unrecommend_node-IsAccepted ordered count id r = elim (index_of-get id ordered) [
    | inl (e, out) ↦ rw (e, unrecommend_node) (settle_order-IsAccepted ordered count r)
    | inr (from, e, at, there) ↦ elim (Bool-cases (leb count from)) [
      | inl late ↦ rw (e, late, unrecommend_node) (settle_order-IsAccepted ordered count r)
      | inr early ↦
          rw (e, early, unrecommend_node)
            (settle_order-IsAccepted (move_node_to_index ordered id (count - 1)) (count - 1) (
              follow ordered (move_node_to_index ordered id (count - 1)) r
                (move_node_to_index-Rearranges ordered id (count - 1) r.0)))
    ]
  ]

  made : (p q : NodeOrderChange) → IsAccepted ids p → some p ≡ some q → IsAccepted ids q
  made p q h e = subst (IsAccepted ids) (ap (λ o. or_else o p) e) h

  apply_edit-IsAccepted :
      (ordered : List ℕ) (count : ℕ) (edit : Edit) (change : NodeOrderChange)
      → Rearranges ids ordered
      → apply_edit ordered count edit ≡ some change
      → IsAccepted ids change
  apply_edit-IsAccepted ordered count (tick id) change r e =
      made (recommend_node ordered count id) change (recommend_node-IsAccepted ordered count id r) e
  apply_edit-IsAccepted ordered count (untick id) change r e =
      made (unrecommend_node ordered count id) change
        (unrecommend_node-IsAccepted ordered count id r) e
  apply_edit-IsAccepted ordered count (shift_by direction id) change r e =
      let after = move_node_in_order ordered id direction in
      made (settle_order after count) change
        (settle_order-IsAccepted after count
          (follow ordered after r (move_node_in_order-Rearranges ordered id direction r.0)))
        e
  apply_edit-IsAccepted ordered count (drop_on dragging target) change r e =
      let after = move_node_to_index ordered dragging (or_else (index_of target ordered) 0) in
      elim (Bool-cases (dragging == target)) [
        | inl same ↦ absurd (ground (arith, e, same))
        | inr apart ↦
            made (settle_order after count) change
              (settle_order-IsAccepted after count (
                follow ordered after r (
                  move_node_to_index-Rearranges ordered dragging
                    (or_else (index_of target ordered) 0) r.0)))
              (ground (arith, e, apart))
      ]

-- Whatever lists are stored and whatever the administrator does in the editor: if the nodes' ids
-- differ, the change that it hands to the form orders exactly the nodes, without repetitions, and
-- the control API accepts its recommended ids as they are, as a prefix of that order.
pub edit_node_order-IsAccepted :
    (compare : String → String → Order) (nodes : List OrderableNode) (edit : Edit)
    (draft change : NodeOrderChange)
    → IsDistinct (ids_of nodes)
    → edit_node_order compare nodes edit draft ≡ some change
    → IsAccepted (ids_of nodes) change
unfolding edit_node_order
edit_node_order-IsAccepted compare nodes edit draft change d e =
    let ordered = materialize_node_order compare nodes draft.node_order in
    apply_edit-IsAccepted (ids_of nodes) ordered
      (recommended_count_from_ids ordered draft.recommended_node_ids) edit change
      (materialize_node_order-Rearranges compare nodes draft.node_order d) e
