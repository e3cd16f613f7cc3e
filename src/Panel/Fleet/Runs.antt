-- ===== src/Panel/Fleet/Runs.antt =====
-- Runs of the calls on requests, nodes and lists.
use amnezia_shared_panel.Base.{ℕ, ◌≡◌, Bool, false, List, Option}
use amnezia_shared_panel.Quota.{Mode}
use amnezia_shared_panel.PolicyLists.{has}
use amnezia_shared_panel.Panel.Fleet.{
  Fleet, NodePolicy, create_quota_request, Decision, review_request, delete_node, update_node_lists,
  settled_fleet,
}
use amnezia_shared_panel.Panel.Fleet.Rows.{request_ids}
use amnezia_shared_panel.Panel.Fleet.Kept.{IsKept}
use amnezia_shared_panel.Panel.Fleet.Calls.{
  create_quota_request-IsKept, review_request-IsKept, delete_node-IsKept, update_node_lists-IsKept,
}

-- A call, with the uuids it draws new; one that ends in an error leaves the rows.
pub data FleetStep (f : Fleet) : Fleet → Type 0 where
  is_requested :
      (fresh actor : ℕ) (policy : NodePolicy) (limit : ℕ) (target : Option ℕ)
      → has fresh (request_ids f.requests) ≡ false
      → FleetStep f (settled_fleet (create_quota_request fresh actor policy limit target f) f)
  is_reviewed :
      (decision : Decision) (mode : ℕ → Mode) (actor id : ℕ)
      → FleetStep f (settled_fleet (review_request decision mode actor id f) f)
  is_dropped :
      (id : ℕ) (delete_keys : Bool) → FleetStep f (settled_fleet (delete_node id delete_keys f) f)
  are_ordered :
      (recommended order : Option (List ℕ))
      → FleetStep f (settled_fleet (update_node_lists recommended order f) f)

pub data FleetSteps (f : Fleet) : Fleet → Type 0 where
  at_first : FleetSteps f f
  and_then : (g h : Fleet) → FleetSteps f g → FleetStep g h → FleetSteps f h

fleet_step-IsKept : (f g : Fleet) → FleetStep f g → IsKept f → IsKept g
fleet_step-IsKept f g (is_requested fresh actor policy limit target new) kept =
    create_quota_request-IsKept f kept fresh actor policy limit target new
fleet_step-IsKept f g (is_reviewed decision mode actor id) kept =
    review_request-IsKept f kept decision mode actor id
fleet_step-IsKept f g (is_dropped id delete_keys) kept = delete_node-IsKept f kept id delete_keys
fleet_step-IsKept f g (are_ordered recommended order) kept =
    update_node_lists-IsKept f kept recommended order

-- Whatever users request, administrators decide and order, and whichever nodes are removed: a user
-- has one open request at most, the node that an open request names exists, so does each key's and
-- each of the order's, and the recommended nodes are the first of the order.
pub fleet_steps-IsKept : (f g : Fleet) → FleetSteps f g → IsKept f → IsKept g
fleet_steps-IsKept f g at_first kept = kept
fleet_steps-IsKept f g (and_then before after earlier last) kept =
    fleet_step-IsKept before after last (fleet_steps-IsKept f before earlier kept)
