-- ===== src/PolicyLists/Tests.antt =====
-- Concrete orders.
use amnezia_shared_panel.Base.{◌≡◌, refl, length, take, [], ◌∷◌}
use amnezia_shared_panel.PolicyLists.{
  dedupe_node_ids, check_recommended_prefix, behind, unpositioned,
}
use amnezia_shared_panel.PolicyLists.Snapshot.{check_stored_prefix, in_prefix, offender, behind_id}
use amnezia_shared_panel.PolicyLists.Snapshot.Agreed.{
  is_fine, is_prefix, check_stored_prefix-agrees,
}
use amnezia_shared_panel.PolicyLists.Prefix.{IsRight}
use amnezia_shared_panel.PolicyLists.Snapshot.Among.{among}
use amnezia_shared_panel.PolicyLists.Accepted.{check_recommended_prefix-decides}

left_behind : check_recommended_prefix (3 ∷ 1 ∷ []) (1 ∷ 2 ∷ 3 ∷ []) ≡ behind 3 3
unfolding check_recommended_prefix
left_behind = refl

without_position : check_recommended_prefix (9 ∷ 1 ∷ []) (1 ∷ 2 ∷ 3 ∷ []) ≡ unpositioned 9
unfolding check_recommended_prefix
without_position = refl

check_recommended_prefix-decides_example :
    (is_prefix (check_recommended_prefix (3 ∷ 1 ∷ []) (1 ∷ 2 ∷ 3 ∷ []))
      ≡ among
          (dedupe_node_ids (3 ∷ 1 ∷ []))
          (take (length (dedupe_node_ids (3 ∷ 1 ∷ []))) (1 ∷ 2 ∷ 3 ∷ [])))
    × IsRight (3 ∷ 1 ∷ []) (1 ∷ 2 ∷ 3 ∷ []) (check_recommended_prefix (3 ∷ 1 ∷ []) (1 ∷ 2 ∷ 3 ∷ []))
check_recommended_prefix-decides_example =
    check_recommended_prefix-decides (3 ∷ 1 ∷ []) (1 ∷ 2 ∷ 3 ∷ [])

-- The recommended ids of a row that passes may stand in any sequence.
snapshot_passes : check_stored_prefix (2 ∷ 1 ∷ []) (1 ∷ 2 ∷ 3 ∷ []) ≡ in_prefix
unfolding check_stored_prefix
snapshot_passes = refl

-- The two checks may name different offenders: the command line counts places, and the control API
-- stops at the first gap.
api_names_two : check_recommended_prefix (1 ∷ 2 ∷ 3 ∷ []) (1 ∷ 4 ∷ 2 ∷ 3 ∷ []) ≡ behind 2 3
unfolding check_recommended_prefix
api_names_two = refl

snapshot_names_three :
    check_stored_prefix (1 ∷ 2 ∷ 3 ∷ []) (1 ∷ 4 ∷ 2 ∷ 3 ∷ []) ≡ offender 3 behind_id
unfolding check_stored_prefix
snapshot_names_three = refl

-- With a repeated id the command line has one place too many.
snapshot_counts_twice : check_stored_prefix (1 ∷ 1 ∷ 3 ∷ []) (1 ∷ 2 ∷ 3 ∷ []) ≡ in_prefix
unfolding check_stored_prefix
snapshot_counts_twice = refl

api_counts_once : check_recommended_prefix (1 ∷ 1 ∷ 3 ∷ []) (1 ∷ 2 ∷ 3 ∷ []) ≡ behind 3 3
unfolding check_recommended_prefix
api_counts_once = refl

check_stored_prefix-agrees_example :
    is_fine (check_stored_prefix (3 ∷ 1 ∷ []) (1 ∷ 2 ∷ 3 ∷ []))
    ≡ is_prefix (check_recommended_prefix (3 ∷ 1 ∷ []) (1 ∷ 2 ∷ 3 ∷ []))
check_stored_prefix-agrees_example =
    check_stored_prefix-agrees (3 ∷ 1 ∷ []) (1 ∷ 2 ∷ 3 ∷ []) (refl, (refl, tt))
