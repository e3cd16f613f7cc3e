-- ===== src/Panel/Fleet/Calls.antt =====
-- Every call keeps the invariant of requests, nodes and lists.
use amnezia_shared_panel.Base.{
  ℕ, ◌≡◌, refl, sym, ap, ◌∙◌, Bool, true, false, not, ◌&&◌, List, [], ◌∷◌, ◌++◌, Option, none, some,
  ◌==◌, any, first, All, Bool-cases, or_else, inl, inr, arith,
}
use amnezia_shared_panel.Quota.{Mode, is_node_available}
use amnezia_shared_panel.PolicyLists.{
  has, Check, prefix, behind, unpositioned, check_recommended_prefix,
}
use amnezia_shared_panel.PolicyLists.Prefix.{IsRight, check_recommended_prefix-IsRight, nothing}
use amnezia_shared_panel.Panel.{Node, Answer, ok, err, request_approved, request_rejected}
use amnezia_shared_panel.Panel.Fleet.{
  RequestRow, approved, rejected, is_awaiting, Member, NodeLists, Fleet, NodePolicy,
  create_quota_request, is_usable_node, Decision, approve, reject, granted, reviewed,
  review_request, delete_node, known_ids, deduped, stored_lists, canonical_or, store_lists,
  checked_lists, with_lists, update_node_lists, settled_fleet, is_global,
}
use amnezia_shared_panel.Panel.Fleet.Rows.{request_ids, every-All}
use amnezia_shared_panel.Panel.Fleet.Kept.{
  has_node, AreInOrder, ListsAreKept, IsKept, closed, filed, stored, dropped,
}

usable_is_there :
    (id : ℕ) (nodes : List Node)
    → any (λ n. n.id == id && n.enabled) nodes ≡ true
    → has_node nodes id ≡ true
usable_is_there id [] h = h
usable_is_there id (n ∷ ns) h = ground (arith, h, usable_is_there id ns)

-- The lists.
module _ (nodes : List Node) where
  abbrev AllThere : Option (List ℕ) → Type 0
  AllThere none = Unit
  AllThere (some ids) = All (λ id. has_node nodes id ≡ true) ids

  order_is_there :
      (order : Option (List ℕ)) (l : NodeLists)
      → AllThere order
      → AreInOrder nodes l
      → All (λ id. has_node nodes id ≡ true) (or_else order l.order)
  order_is_there none l there h = h.1
  order_is_there (some ids) l there h = there

  abbrev AnswerInOrder : Answer NodeLists → Type 0
  AnswerInOrder (ok l) = AreInOrder nodes l
  AnswerInOrder (err e) = Unit

  canonical_is_first :
      (recommended : Option (List ℕ)) (canonical named order rest : List ℕ)
      → canonical ++ rest ≡ order
      → ((x : ℕ) → has x canonical ≡ has x (or_else recommended named))
      → (after : List ℕ) × (canonical_or recommended canonical named ++ after ≡ order)
  canonical_is_first (some ids) canonical named order rest e same = (rest, e)
  canonical_is_first none [] named order rest e same =
      (rest, ap (λ l. l ++ rest) (nothing named (λ x. sym (same x))) ∙ e)
  canonical_is_first none (id ∷ ids) named order rest e same = (rest, e)

  store_lists-InOrder :
      (recommended order : Option (List ℕ)) (l : NodeLists) (check : Check)
      → AllThere order
      → AreInOrder nodes l
      → IsRight (or_else recommended l.recommended) (or_else order l.order) check
      → AnswerInOrder (store_lists recommended order check l)
  store_lists-InOrder recommended order l (prefix canonical) there h ((rest, e), same) = (
    canonical_is_first recommended canonical l.recommended (or_else order l.order) rest e same,
    order_is_there order l there h,
  )
  store_lists-InOrder recommended order l (behind id position) there h right = tt
  store_lists-InOrder recommended order l (unpositioned id) there h right = tt

  checked_lists-InOrder :
      (recommended order : Option (List ℕ)) (l : NodeLists)
      → AllThere order
      → AreInOrder nodes l
      → AnswerInOrder (checked_lists recommended order l)
  checked_lists-InOrder none none l there h = h
  checked_lists-InOrder none (some order) l there h =
      store_lists-InOrder none (some order) l (check_recommended_prefix l.recommended order) there h
        (check_recommended_prefix-IsRight l.recommended order)
  checked_lists-InOrder (some ids) none l there h =
      store_lists-InOrder (some ids) none l (check_recommended_prefix ids l.order) there h
        (check_recommended_prefix-IsRight ids l.order)
  checked_lists-InOrder (some ids) (some order) l there h =
      store_lists-InOrder (some ids) (some order) l (check_recommended_prefix ids order) there h
        (check_recommended_prefix-IsRight ids order)

  stored_lists-InOrder :
      (o : Option NodeLists)
      → ListsAreKept nodes o
      → AreInOrder nodes (or_else o (record { recommended = []; order = [] }))
  stored_lists-InOrder none h = (([], refl), tt)
  stored_lists-InOrder (some l) h = h

known-AllThere : (f : Fleet) (o : Option (List ℕ)) → known_ids f.db o ≡ true → AllThere f.db.nodes o
known-AllThere f none h = tt
known-AllThere f (some ids) h = every-All (has_node f.db.nodes) ids h

module _ (f : Fleet) (kept : IsKept f) where
  with_lists-IsKept :
      (answer : Answer NodeLists)
      → AnswerInOrder f.db.nodes answer
      → IsKept (settled_fleet (with_lists f answer) f)
  with_lists-IsKept (ok l) h = stored f kept l h
  with_lists-IsKept (err e) h = kept

  pub update_node_lists-IsKept :
      (recommended order : Option (List ℕ))
      → IsKept (settled_fleet (update_node_lists recommended order f) f)
  unfolding update_node_lists
  update_node_lists-IsKept recommended order =
      elim (Bool-cases (known_ids f.db (deduped recommended) && known_ids f.db (deduped order))) [
        | inl e ↦
            rw (e, update_node_lists)
              (with_lists-IsKept
                (checked_lists (deduped recommended) (deduped order) (stored_lists f))
                (checked_lists-InOrder f.db.nodes (deduped recommended) (deduped order)
                  (stored_lists f) (known-AllThere f (deduped order) (ground (arith, e)))
                  (stored_lists-InOrder f.db.nodes f.lists kept.in_order)))
        | inr e ↦ rw (e, update_node_lists) kept
      ]

  pub create_quota_request-IsKept :
      (fresh actor : ℕ) (policy : NodePolicy) (limit : ℕ) (target : Option ℕ)
      → has fresh (request_ids f.requests) ≡ false
      → IsKept (settled_fleet (create_quota_request fresh actor policy limit target f) f)
  unfolding create_quota_request
  create_quota_request-IsKept fresh actor policy limit none new =
      filed f kept fresh actor limit none new tt
  create_quota_request-IsKept fresh actor policy limit (some n) new =
      elim (Bool-cases (is_usable_node n f.db)) [
        | inr e ↦ rw (e, create_quota_request) kept
        | inl e ↦ elim (Bool-cases (is_node_available policy.allowed_node_ids n)) [
          | inr a ↦ rw (e, a, create_quota_request) kept
          | inl a ↦ elim (Bool-cases (is_global policy.key_limit_mode)) [
            | inl g ↦ rw (e, a, g, create_quota_request) kept
            | inr g ↦
                rw (e, a, g, create_quota_request)
                  (filed f kept fresh actor limit (some n) new (usable_is_there n f.db.nodes e))
          ]
        ]
      ]

  granted-IsKept :
      (mode : Mode) (actor : ℕ) (r : RequestRow) (o : Option Member)
      → IsKept (settled_fleet (granted mode actor r o f) f)
  granted-IsKept mode actor r none = kept
  granted-IsKept mode actor r (some owner) =
      closed f kept approved actor r.id request_approved _ refl

  reviewed-IsKept :
      (decision : Decision) (mode : ℕ → Mode) (actor : ℕ) (o : Option RequestRow)
      → IsKept (settled_fleet (reviewed decision mode actor o f) f)
  reviewed-IsKept approve mode actor none = kept
  reviewed-IsKept reject mode actor none = kept
  reviewed-IsKept reject mode actor (some r) =
      closed f kept rejected actor r.id request_rejected f.members refl
  reviewed-IsKept approve mode actor (some r) =
      granted-IsKept (mode r.user_id) actor r (first (λ m. m.id == r.user_id) f.members)

  pub review_request-IsKept :
      (decision : Decision) (mode : ℕ → Mode) (actor id : ℕ)
      → IsKept (settled_fleet (review_request decision mode actor id f) f)
  unfolding review_request
  review_request-IsKept decision mode actor id =
      reviewed-IsKept decision mode actor
        (first (λ r. r.id == id && is_awaiting r.status) f.requests)

  pub delete_node-IsKept :
      (id : ℕ) (delete_keys : Bool) → IsKept (settled_fleet (delete_node id delete_keys f) f)
  unfolding delete_node
  delete_node-IsKept id delete_keys = elim (Bool-cases (any (λ n. n.id == id) f.db.nodes)) [
    | inr e ↦ rw (e, delete_node) kept
    | inl e ↦ elim (Bool-cases (any (λ k. k.node_id == id) f.db.keys && not delete_keys)) [
      | inl keys ↦ rw (e, keys, delete_node) kept
      | inr free ↦ rw (e, free, delete_node) (dropped f kept id)
    ]
  ]
