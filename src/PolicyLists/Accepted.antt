-- ===== src/PolicyLists/Accepted.antt =====
-- Which lists the control API accepts, and what its answers mean.
use amnezia_shared_panel.Base.{ℕ, ◌≡◌, ◌∙◌, List, [], ◌∷◌, length, take, arith}
use amnezia_shared_panel.PolicyLists.{dedupe_node_ids, walk, check_recommended_prefix}
use amnezia_shared_panel.PolicyLists.Prefix.{
  IsDistinct, has-delete, IsRight, check_recommended_prefix-IsRight,
}
use amnezia_shared_panel.PolicyLists.Snapshot.Among.{among, delete-IsDistinct}
use amnezia_shared_panel.PolicyLists.Snapshot.Agreed.{is_prefix, verdict-accepted, walk-among}

dedupe-IsDistinct : (ids : List ℕ) → IsDistinct (dedupe_node_ids ids)
unfolding dedupe_node_ids
dedupe-IsDistinct [] = tt
dedupe-IsDistinct (id ∷ ids) = (
  ground (arith, has-delete id id (dedupe_node_ids ids)),
  delete-IsDistinct id (dedupe_node_ids ids) (dedupe-IsDistinct ids),
)

-- Without repetitions: a list is accepted exactly if each recommended id is among the first of the
-- order, as many of them as there are recommended ids. What is accepted is a prefix of the order
-- with the recommended ids; an id that is refused is recommended, and stands at the position that
-- the answer names or is not in the order.
pub check_recommended_prefix-decides :
    (recommended order : List ℕ)
    → (is_prefix (check_recommended_prefix recommended order)
        ≡ among (dedupe_node_ids recommended) (take (length (dedupe_node_ids recommended)) order))
      × IsRight recommended order (check_recommended_prefix recommended order)
unfolding check_recommended_prefix
check_recommended_prefix-decides recommended order = (
  verdict-accepted recommended order (walk order (dedupe_node_ids recommended))
      ∙ walk-among order (dedupe_node_ids recommended) (dedupe-IsDistinct recommended),
  check_recommended_prefix-IsRight recommended order,
)
