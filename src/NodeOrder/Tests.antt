-- ===== src/NodeOrder/Tests.antt =====
-- The editor of the server order on small inputs.
use amnezia_shared_panel.Base.{
  ℕ, ◌≡◌, refl, not, ◌&&◌, ◌||◌, List, [], ◌∷◌, none, some, String, ◌==◌,
}
use amnezia_shared_panel.PolicyLists.{has}
use amnezia_shared_panel.Panel.Create.{Order, same}
use amnezia_shared_panel.NodeOrder.{
  OrderableNode, NodeOrderChange, ids_of, materialize_node_order, move_node_in_order,
  move_node_to_index, recommended_count_from_ids, recommended_prefix, recommend_node,
  unrecommend_node, tick, drop_on, up, edit_node_order,
}
use amnezia_shared_panel.NodeOrder.Accepted.{IsAccepted, edit_node_order-IsAccepted}
use amnezia_shared_panel.NodeOrder.Ticks.{recommend_node-has}

-- A collator for which all names are alike.
abbrev alike : String → String → Order
alike a b = same

abbrev server : ℕ → OrderableNode
server id = record { id = id; name = "node" }

abbrev servers : List OrderableNode
servers = server 4 ∷ server 2 ∷ server 3 ∷ server 1 ∷ []

-- Node 9 was removed, and the administrator has positioned 3 and 1.
abbrev stored : NodeOrderChange
stored = record { node_order = 9 ∷ 3 ∷ 1 ∷ 3 ∷ []; recommended_node_ids = 3 ∷ [] }

abbrev after_tick : NodeOrderChange
after_tick = record { node_order = 3 ∷ 4 ∷ 1 ∷ 2 ∷ []; recommended_node_ids = 3 ∷ 4 ∷ [] }

shows_all : materialize_node_order alike servers stored.node_order ≡ 3 ∷ 1 ∷ 2 ∷ 4 ∷ []
unfolding materialize_node_order
shows_all = refl

ticks_the_last : edit_node_order alike servers (tick 4) stored ≡ some after_tick
unfolding edit_node_order
ticks_the_last = refl

edit_node_order-IsAccepted_example : IsAccepted (ids_of servers) after_tick
unfolding edit_node_order
edit_node_order-IsAccepted_example =
    edit_node_order-IsAccepted alike servers (tick 4) stored after_tick
      (refl, (refl, (refl, (refl, tt)))) refl

recommend_node-has_example :
    (has 4
        (recommend_node
          (3 ∷ 1 ∷ 2 ∷ 4 ∷ [])
          (recommended_count_from_ids (3 ∷ 1 ∷ 2 ∷ 4 ∷ []) (3 ∷ []))
          4).recommended_node_ids
      ≡ (has 4 (
            recommended_prefix
              (3 ∷ 1 ∷ 2 ∷ 4 ∷ [])
              (recommended_count_from_ids (3 ∷ 1 ∷ 2 ∷ 4 ∷ []) (3 ∷ [])))
          || ((4 == 4) && has 4 (3 ∷ 1 ∷ 2 ∷ 4 ∷ []))))
    × (has 4
          (unrecommend_node
            (3 ∷ 1 ∷ 2 ∷ 4 ∷ [])
            (recommended_count_from_ids (3 ∷ 1 ∷ 2 ∷ 4 ∷ []) (3 ∷ []))
            4).recommended_node_ids
        ≡ (has 4 (
              recommended_prefix
                (3 ∷ 1 ∷ 2 ∷ 4 ∷ [])
                (recommended_count_from_ids (3 ∷ 1 ∷ 2 ∷ 4 ∷ []) (3 ∷ [])))
            && not (4 == 4)))
recommend_node-has_example =
    recommend_node-has (3 ∷ 1 ∷ 2 ∷ 4 ∷ []) (3 ∷ []) 4 4 (refl, (refl, (refl, (refl, tt))))

-- A drop on the dragged row makes no call; a drop on the last row moves to the end.
no_call : edit_node_order alike servers (drop_on 2 2) stored ≡ none
unfolding edit_node_order
no_call = refl

drops_at_the_end : move_node_to_index (3 ∷ 1 ∷ 2 ∷ []) 3 9 ≡ 1 ∷ 2 ∷ 3 ∷ []
unfolding move_node_to_index
drops_at_the_end = refl

moves_up : move_node_in_order (3 ∷ 1 ∷ 2 ∷ []) 2 up ≡ 3 ∷ 2 ∷ 1 ∷ []
unfolding move_node_in_order
moves_up = refl
