-- ===== src/Panel/Fleet/Decided.antt =====
-- A decision on a request is final.
use amnezia_shared_panel.Base.{
  ℕ, ◌≡◌, refl, Bool, true, false, not, ◌&&◌, List, [], ◌∷◌, Option, none, some, ◌==◌, any, first,
  Bool-cases, inl, inr, arith,
}
use amnezia_shared_panel.Quota.{Mode, is_node_available}
use amnezia_shared_panel.PolicyLists.Prefix.{IsDistinct}
use amnezia_shared_panel.Panel.{Answer, ok, err, update_where, is_some_of}
use amnezia_shared_panel.Panel.Rows.{
  any-update_where, any-update_where_off, any-append_left, All-imp,
}
use amnezia_shared_panel.Panel.Fleet.{
  RequestRow, RequestStatus, approved, rejected, is_awaiting, cancel, Member, NodeLists, Fleet,
  NodePolicy, new_request, file_request, create_quota_request, is_usable_node, Decision, approve,
  reject, close_request, granted, reviewed, review_request, forget_node, delete_node, with_lists,
  checked_lists, update_node_lists, settled_fleet, is_global, known_ids, deduped, stored_lists,
}
use amnezia_shared_panel.Panel.Fleet.Rows.{request_ids}
use amnezia_shared_panel.Panel.Fleet.Kept.{IsKept}
use amnezia_shared_panel.Panel.Fleet.Runs.{
  FleetStep, is_requested, is_reviewed, is_dropped, are_ordered, FleetSteps, at_first, and_then,
  fleet_steps-IsKept,
}
use amnezia_shared_panel.Panel.Fleet.Ended.{ended_as, not_awaiting, all_rows, ended_apart}

module _ (id : ℕ) (status : RequestStatus) where
  abbrev Stays : List RequestRow → List RequestRow → Type 0
  Stays before after =
      any (ended_as id status) before ≡ true → any (ended_as id status) after ≡ true

  cancel-Stays :
      (p : RequestRow → Bool) (rs : List RequestRow)
      → ((r : RequestRow) → is_awaiting r.status ≡ false → p r ≡ false)
      → Stays rs (update_where p cancel rs)
  cancel-Stays p rs k = any-update_where_off (ended_as id status) p cancel rs (
      all_rows (λ r. ended_as id status r ≡ true → p r ≡ false) rs
        (λ r e. k r (not_awaiting status r.status (ground (arith, e)))))

  file-Stays :
      (fresh actor limit : ℕ) (target : Option ℕ) (f : Fleet)
      → Stays f.requests (file_request fresh actor limit target f).requests
  file-Stays fresh actor limit target f h =
      any-append_left (ended_as id status)
        (update_where (λ r. r.user_id == actor && is_awaiting r.status) cancel f.requests)
        (new_request fresh actor limit target ∷ [])
        (cancel-Stays (λ r. r.user_id == actor && is_awaiting r.status) f.requests
          (λ r done. ground (arith, done)) h)

  forget-Stays : (node : ℕ) (rs : List RequestRow) → Stays rs (forget_node node rs)
  forget-Stays node rs h =
      any-update_where (ended_as id status) (λ r. is_some_of r.node_id node)
        (λ r. record r { node_id = none })
        (update_where (λ r. is_some_of r.node_id node && is_awaiting r.status) cancel rs) (λ r e. e)
        (cancel-Stays (λ r. is_some_of r.node_id node && is_awaiting r.status) rs
          (λ r done. ground (arith, done)) h)

  close-Stays :
      (to : RequestStatus) (actor target : ℕ) (f : Fleet) (r : RequestRow)
      → IsDistinct (request_ids f.requests)
      → first (λ x. x.id == target && is_awaiting x.status) f.requests ≡ some r
      → Stays f.requests (close_request to actor r.id f).requests
  close-Stays to actor target f r d e =
      any-update_where_off (ended_as id status) (λ x. x.id == r.id)
        (λ x. record x { status = to; reviewed_by = some actor }) f.requests
        (All-imp (λ x. is_awaiting x.status ≡ false → (x.id == r.id) ≡ false)
          (λ x. ended_as id status x ≡ true → (x.id == r.id) ≡ false) f.requests
          (λ x k h. k (not_awaiting status x.status (ground (arith, h))))
          (ended_apart target f.requests r d e))

  granted-Stays :
      (mode : Mode) (actor target : ℕ) (f : Fleet) (r : RequestRow) (o : Option Member)
      → IsDistinct (request_ids f.requests)
      → first (λ x. x.id == target && is_awaiting x.status) f.requests ≡ some r
      → Stays f.requests (settled_fleet (granted mode actor r o f) f).requests
  granted-Stays mode actor target f r none d e h = h
  granted-Stays mode actor target f r (some owner) d e h =
      close-Stays approved actor target f r d e h

  reviewed-Stays :
      (decision : Decision) (mode : ℕ → Mode) (actor target : ℕ) (f : Fleet) (o : Option RequestRow)
      → IsDistinct (request_ids f.requests)
      → first (λ x. x.id == target && is_awaiting x.status) f.requests ≡ o
      → Stays f.requests (settled_fleet (reviewed decision mode actor o f) f).requests
  reviewed-Stays approve mode actor target f none d e h = h
  reviewed-Stays reject mode actor target f none d e h = h
  reviewed-Stays reject mode actor target f (some r) d e h =
      close-Stays rejected actor target f r d e h
  reviewed-Stays approve mode actor target f (some r) d e h =
      granted-Stays (mode r.user_id) actor target f r (first (λ m. m.id == r.user_id) f.members) d e
        h

  created-Stays :
      (fresh actor : ℕ) (policy : NodePolicy) (limit : ℕ) (target : Option ℕ) (f : Fleet)
      → Stays f.requests
          (settled_fleet (create_quota_request fresh actor policy limit target f) f).requests
  unfolding create_quota_request
  created-Stays fresh actor policy limit none f h = file-Stays fresh actor limit none f h
  created-Stays fresh actor policy limit (some n) f h = elim (Bool-cases (is_usable_node n f.db)) [
    | inr e ↦ rw (e, create_quota_request) h
    | inl e ↦ elim (Bool-cases (is_node_available policy.allowed_node_ids n)) [
      | inr a ↦ rw (e, a, create_quota_request) h
      | inl a ↦ elim (Bool-cases (is_global policy.key_limit_mode)) [
        | inl g ↦ rw (e, a, g, create_quota_request) h
        | inr g ↦ rw (e, a, g, create_quota_request) (file-Stays fresh actor limit (some n) f h)
      ]
    ]
  ]

  dropped-Stays :
      (node : ℕ) (delete_keys : Bool) (f : Fleet)
      → Stays f.requests (settled_fleet (delete_node node delete_keys f) f).requests
  unfolding delete_node
  dropped-Stays node delete_keys f h = elim (Bool-cases (any (λ n. n.id == node) f.db.nodes)) [
    | inr e ↦ rw (e, delete_node) h
    | inl e ↦ elim (Bool-cases (any (λ k. k.node_id == node) f.db.keys && not delete_keys)) [
      | inl keys ↦ rw (e, keys, delete_node) h
      | inr free ↦ rw (e, free, delete_node) (forget-Stays node f.requests h)
    ]
  ]

  listed-Stays :
      (f : Fleet) (answer : Answer NodeLists)
      → Stays f.requests (settled_fleet (with_lists f answer) f).requests
  listed-Stays f (ok l) h = h
  listed-Stays f (err e) h = h

  ordered-Stays :
      (recommended order : Option (List ℕ)) (f : Fleet)
      → Stays f.requests (settled_fleet (update_node_lists recommended order f) f).requests
  unfolding update_node_lists
  ordered-Stays recommended order f h =
      elim (Bool-cases (known_ids f.db (deduped recommended) && known_ids f.db (deduped order))) [
        | inl e ↦
            rw (e, update_node_lists)
              (listed-Stays f (checked_lists (deduped recommended) (deduped order) (stored_lists f))
                h)
        | inr e ↦ rw (e, update_node_lists) h
      ]

  step-Stays : (f g : Fleet) → FleetStep f g → IsKept f → Stays f.requests g.requests
  unfolding review_request
  step-Stays f g (is_requested fresh actor policy limit target new) kept h =
      created-Stays fresh actor policy limit target f h
  step-Stays f g (is_reviewed decision mode actor target) kept h =
      reviewed-Stays decision mode actor target f
        (first (λ x. x.id == target && is_awaiting x.status) f.requests) kept.ids refl h
  step-Stays f g (is_dropped node delete_keys) kept h = dropped-Stays node delete_keys f h
  step-Stays f g (are_ordered recommended order) kept h = ordered-Stays recommended order f h

  -- A request that was approved, rejected or cancelled is so for good, whatever is requested,
  -- decided, ordered and removed afterwards.
  pub fleet_steps-final :
      (f g : Fleet)
      → FleetSteps f g
      → IsKept f
      → any (ended_as id status) f.requests ≡ true
      → any (ended_as id status) g.requests ≡ true
  fleet_steps-final f g at_first kept h = h
  fleet_steps-final f g (and_then before after earlier last) kept h =
      step-Stays before after last (fleet_steps-IsKept f before earlier kept)
        (fleet_steps-final f before earlier kept h)
