-- ===== src/NodeOrder.antt =====
-- The administrator's editor of the server order: apps/web/lib/node-order.ts, and how
-- apps/web/components/node-order-list.tsx applies it to the lists that the form holds. An index of
-- -1 is `none`, and a `Set` is the list of its members.
mod Moves
mod Shown
pub mod Accepted
mod Cuts
pub mod Ticks
mod Tests
use amnezia_shared_panel.Base.{
  ℕ, zero, suc, ◌+◌, ◌-◌, min, Bool, true, false, not, ◌||◌, List, [], ◌∷◌, ◌++◌, map, Option, none,
  some, String, if◌then◌else◌, ◌==◌, ltb, leb, any, keep, length, get_elem?, take, or_else,
}
use amnezia_shared_panel.PolicyLists.{has}
use amnezia_shared_panel.Panel.Create.{Order, less, same, more, compare_numbers, or_then, is_more}

pub record OrderableNode : Type 0 where
  pub id : ℕ
  pub name : String

pub record NodeOrderChange : Type 0 where
  pub node_order : List ℕ
  pub recommended_node_ids : List ℕ

abbrev pub ids_of : List OrderableNode → List ℕ
ids_of nodes = map (λ n. n.id) nodes

-- The loop over the saved order: ids of no node, and ids seen before, are dropped.
unfoldable pub positioned : List ℕ → List ℕ → List ℕ → List ℕ
positioned known seen [] = []
positioned known seen (id ∷ order) =
    let dropped = not (has id known) || has id seen in
    let rest = positioned known (if dropped then seen else id ∷ seen) order in
    if dropped then rest else id ∷ rest

module _ (compare : String → String → Order) where
  abbrev pub compare_nodes : OrderableNode → OrderableNode → Order
  compare_nodes a b = or_then (compare a.name b.name) (compare_numbers a.id b.id)

  unfoldable pub insert_node : OrderableNode → List OrderableNode → List OrderableNode
  insert_node n [] = n ∷ []
  insert_node n (m ∷ ms) = if is_more (compare_nodes n m) then m ∷ insert_node n ms else n ∷ m ∷ ms

  unfoldable pub sort_nodes : List OrderableNode → List OrderableNode
  unfolding insert_node
  sort_nodes [] = []
  sort_nodes (n ∷ ns) = insert_node n (sort_nodes ns)

  unfoldable pub materialize_node_order : List OrderableNode → List ℕ → List ℕ
  unfolding positioned sort_nodes
  materialize_node_order nodes order =
      let first_ids = positioned (ids_of nodes) [] order in
      first_ids ++ ids_of (sort_nodes (keep (λ n. not (has n.id first_ids)) nodes))

-- `ids.indexOf(id)`
unfoldable pub index_of : ℕ → List ℕ → Option ℕ
index_of id [] = none
index_of id (x ∷ xs) =
    if x == id then some 0 else elim (index_of id xs) [ none ↦ none | some i ↦ some (suc i) ]

-- `xs[i] = x` within the list.
abbrev pub set : List ℕ → ℕ → ℕ → List ℕ
set [] i x = []
set (y ∷ ys) zero x = x ∷ ys
set (y ∷ ys) (suc i) x = y ∷ set ys i x

abbrev exchange : ℕ → ℕ → Option ℕ → Option ℕ → List ℕ → List ℕ
exchange from to none displaced ids = ids
exchange from to (some moved) none ids = ids
exchange from to (some moved) (some displaced) ids = set (set ids from displaced) to moved

-- The exchange of two positions; nothing if one is outside the list.
unfoldable pub swap : ℕ → ℕ → List ℕ → List ℕ
swap from to ids = exchange from to (get_elem? ids from) (get_elem? ids to) ids

pub data Direction : Type 0 where
  up down : Direction

abbrev shift_row : Direction → ℕ → List ℕ → List ℕ
shift_row up zero ids = ids
shift_row up (suc to) ids = swap (suc to) to ids
shift_row down from ids = if leb (length ids) (suc from) then ids else swap from (suc from) ids

unfoldable pub move_node_in_order : List ℕ → ℕ → Direction → List ℕ
unfolding index_of swap
move_node_in_order ids id direction = elim (index_of id ids) [
  | none ↦ ids
  | some from ↦ shift_row direction from ids
]

-- `xs.splice(i, 1)` and `xs.splice(i, 0, x)`
abbrev pub remove_at : ℕ → List ℕ → List ℕ
remove_at i [] = []
remove_at zero (x ∷ xs) = xs
remove_at (suc i) (x ∷ xs) = x ∷ remove_at i xs

abbrev pub insert_at : ℕ → ℕ → List ℕ → List ℕ
insert_at zero x ys = x ∷ ys
insert_at (suc i) x [] = x ∷ []
insert_at (suc i) x (y ∷ ys) = y ∷ insert_at i x ys

abbrev pub move_from : List ℕ → ℕ → ℕ → ℕ → List ℕ
move_from ids id from to = if to == from then ids else insert_at to id (remove_at from ids)

unfoldable pub move_node_to_index : List ℕ → ℕ → ℕ → List ℕ
unfolding index_of
move_node_to_index ids id target = elim (index_of id ids) [
  | none ↦ ids
  | some from ↦ move_from ids id from (min target (length ids - 1))
]

unfoldable pub recommended_count_from_ids : List ℕ → List ℕ → ℕ
recommended_count_from_ids [] recommended = 0
recommended_count_from_ids (id ∷ ids) recommended =
    if has id recommended then suc (recommended_count_from_ids ids recommended) else 0

abbrev pub recommended_prefix : List ℕ → ℕ → List ℕ
recommended_prefix ids count = take (min count (length ids)) ids

abbrev pub settle_order : List ℕ → ℕ → NodeOrderChange
settle_order ids count = record {
  node_order = ids;
  recommended_node_ids = recommended_prefix ids count;
}

unfoldable pub recommend_node : List ℕ → ℕ → ℕ → NodeOrderChange
unfolding index_of move_node_to_index
recommend_node ids count id = elim (index_of id ids) [
  | none ↦ settle_order ids count
  | some from ↦
      if ltb from count
      then settle_order ids count
      else settle_order (move_node_to_index ids id count) (count + 1)
]

unfoldable pub unrecommend_node : List ℕ → ℕ → ℕ → NodeOrderChange
unfolding index_of move_node_to_index
unrecommend_node ids count id = elim (index_of id ids) [
  | none ↦ settle_order ids count
  | some from ↦
      if leb count from
      then settle_order ids count
      else settle_order (move_node_to_index ids id (count - 1)) (count - 1)
]

-- What an administrator does in the editor.
pub data Edit : Type 0 where
  tick untick : ℕ → Edit
  shift_by : Direction → ℕ → Edit
  drop_on : ℕ → ℕ → Edit

-- The call of `onChange` that an edit makes. A drop on the dragged row itself makes none.
abbrev pub apply_edit : List ℕ → ℕ → Edit → Option NodeOrderChange
apply_edit ordered count (tick id) = some (recommend_node ordered count id)
apply_edit ordered count (untick id) = some (unrecommend_node ordered count id)
apply_edit ordered count (shift_by direction id) =
    some (settle_order (move_node_in_order ordered id direction) count)
apply_edit ordered count (drop_on dragging target) =
    if dragging == target
    then none
    else some (
        settle_order (move_node_to_index ordered dragging (or_else (index_of target ordered) 0))
          count)

-- NodeOrderList: what an edit of the lists that the form holds hands to `onChange`.
unfoldable pub edit_node_order :
    (String → String → Order) → List OrderableNode → Edit → NodeOrderChange → Option NodeOrderChange
unfolding materialize_node_order recommended_count_from_ids recommend_node unrecommend_node
    move_node_in_order move_node_to_index index_of
edit_node_order compare nodes edit draft =
    let ordered = materialize_node_order compare nodes draft.node_order in
    apply_edit ordered (recommended_count_from_ids ordered draft.recommended_node_ids) edit
