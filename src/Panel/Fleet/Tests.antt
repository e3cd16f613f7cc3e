-- ===== src/Panel/Fleet/Tests.antt =====
-- Quota requests, node removal and node lists on small inputs.
use amnezia_shared_panel.Base.{
  ℕ, ◌≡◌, refl, true, false, [], ◌∷◌, map, any, none, some, first, ◌==◌, arith, Option,
}
use amnezia_shared_panel.Quota.{per_node, global}
use amnezia_shared_panel.Panel.{Node, err, recommended_not_prefix}
use amnezia_shared_panel.Panel.Fleet.{
  RequestRow, approved, rejected, cancelled, Member, Fleet, new_request, create_quota_request,
  approve, review_request, delete_node, update_node_lists, settled_fleet,
}
use amnezia_shared_panel.Panel.Fleet.Kept.{IsKept}
use amnezia_shared_panel.Panel.Fleet.Runs.{
  FleetSteps, at_first, and_then, is_requested, is_dropped, fleet_steps-IsKept,
}
use amnezia_shared_panel.Panel.Fleet.Ended.{ended_as}
use amnezia_shared_panel.Panel.Fleet.Decided.{fleet_steps-final}
use amnezia_shared_panel.Panel.Fleet.Granted.{InForce, review_request-grants}

abbrev node_of : ℕ → Node
node_of id = record {
  id = id;
  enabled = true;
  last_sync_at = none;
  agent_update_image = none;
  capacity_requested_peers = none;
}

abbrev member : Member
member = record { id = 7; key_limit_override = none; node_key_limits = some ((2, 3) ∷ []) }

-- User 7 waits for more keys on node 2, after a refusal.
abbrev waiting_for : Option ℕ → RequestRow
waiting_for target = new_request 12 7 9 target

abbrev fleet : Fleet
fleet = record {
  db = record { users = []; keys = []; nodes = node_of 1 ∷ node_of 2 ∷ []; jobs = []; audit = [] };
  members = member ∷ [];
  requests = record (new_request 11 7 20 none) { status = rejected } ∷ waiting_for (some 2) ∷ [];
  lists = some (record { recommended = 2 ∷ []; order = 2 ∷ 1 ∷ [] });
}

fleet-IsKept : IsKept fleet
fleet-IsKept = record {
  one_open = λ u. ground arith;
  targets = ((λ h. tt), ((λ h. refl), tt));
  in_order = ((1 ∷ [], refl), (refl, (refl, tt)));
  hosted = tt;
  ids = (refl, (refl, tt));
}

abbrev without_two : Fleet
without_two = settled_fleet (delete_node 2 false fleet) fleet

abbrev asked_again : Fleet
asked_again =
    settled_fleet
      (create_quota_request 13 7 (record { allowed_node_ids = none; key_limit_mode = global }) 8
        none without_two)
      without_two

abbrev run : FleetSteps fleet asked_again
unfolding delete_node
run =
    and_then without_two asked_again (and_then fleet without_two at_first (is_dropped 2 false))
      (is_requested 13 7 (record { allowed_node_ids = none; key_limit_mode = global }) 8 none refl)

fleet_steps-IsKept_example : IsKept asked_again
unfolding delete_node
fleet_steps-IsKept_example = fleet_steps-IsKept fleet asked_again run fleet-IsKept

fleet_steps-final_example : any (ended_as 11 rejected) asked_again.requests ≡ true
unfolding delete_node
fleet_steps-final_example = fleet_steps-final 11 rejected fleet asked_again run fleet-IsKept refl

abbrev after_approval : Fleet
after_approval = settled_fleet (review_request approve (λ u. per_node) 1 12 fleet) fleet

review_request-grants_example :
    any (ended_as 12 approved) after_approval.requests ≡ true
    × ((after : Member) × (first (λ m. m.id == 7) after_approval.members ≡ some after)
        × InForce per_node 5 9 (some 2) after)
review_request-grants_example =
    review_request-grants (λ u. per_node) 1 12 5 fleet (waiting_for (some 2)) member refl refl

-- The removal of node 2 cancels the request, and the lists close up.
closes_up :
    (map (λ r. r.status) without_two.requests ≡ rejected ∷ cancelled ∷ [])
    × (without_two.lists ≡ some (record { recommended = []; order = 1 ∷ [] }))
unfolding delete_node
closes_up = (refl, refl)

refuses_the_second : update_node_lists (some (1 ∷ [])) none fleet ≡ err recommended_not_prefix
unfolding update_node_lists
refuses_the_second = refl

stores_the_order :
    (settled_fleet
      (update_node_lists (some (1 ∷ 2 ∷ 1 ∷ [])) (some (2 ∷ 1 ∷ [])) fleet)
      fleet).lists
    ≡ some (record { recommended = 2 ∷ 1 ∷ []; order = 2 ∷ 1 ∷ [] })
unfolding update_node_lists
stores_the_order = refl
