-- ===== src/Panel/Fleet/Granted.antt =====
-- An approved request is granted.
use mathlib.Core.Path.{subst}
use amnezia_shared_panel.Base.{
  ℕ, suc, ◌≡◌, refl, ap, ◌≢◌, Bool, true, ◌&&◌, List, [], ◌∷◌, Option, none, some, ◌==◌, any, first,
  Bool-cases, inl, inr, arith,
}
use amnezia_shared_panel.Quota.{
  Mode, per_node, global, QuotaContext, resolve_quota_approval, resolve_node_key_limit,
  resolve_pool_key_limit,
}
use amnezia_shared_panel.Quota.Approval.{approval_holds}
use amnezia_shared_panel.Panel.{update_where}
use amnezia_shared_panel.Panel.Fleet.Ended.{same_decision, ended_as}
use amnezia_shared_panel.Panel.Fleet.{
  RequestRow, approved, is_awaiting, Member, Fleet, grant, approve, review_request, settled_fleet,
}

abbrev pub context_of : ℕ → Member → QuotaContext
context_of default_limit m = record {
  default_key_limit = default_limit;
  key_limit_override = m.key_limit_override;
  node_key_limits = m.node_key_limits;
}

-- The limit that a grant for a target puts in force: of the pool, of every node, or of one node.
abbrev pub InForce : Mode → ℕ → ℕ → Option ℕ → Member → Type 0
InForce global default_limit limit target m =
    resolve_pool_key_limit (context_of default_limit m) ≡ limit
InForce per_node default_limit limit none m =
    (node : ℕ) → resolve_node_key_limit (context_of default_limit m) node ≡ limit
InForce per_node default_limit limit (some target) m =
    resolve_node_key_limit (context_of default_limit m) target ≡ limit

first-update :
    (id : ℕ) (f : Member → Member) (ms : List Member) (m : Member)
    → ((x : Member) → (f x).id ≡ x.id)
    → first (λ x. x.id == id) ms ≡ some m
    → first (λ x. x.id == id) (update_where (λ x. x.id == id) f ms) ≡ some (f m)
first-update id f [] m k h = absurd (ground (arith, h))
first-update id f (x ∷ xs) m k h = elim (Bool-cases (x.id == id)) [
  | inl e ↦ let it : x ≡ m = ground (arith, e, h) in rw e (ground (arith, k x, e, ap f it))
  | inr e ↦ rw e (ground (arith, e, first-update id f xs m k (ground (arith, e, h))))
]

differs_from_next : (n : ℕ) → n ≢ suc n
differs_from_next n = omega arith

module _ (default_limit : ℕ) (owner : Member) (limit : ℕ) where
  grant-InForce :
      (mode : Mode) (target : Option ℕ)
      → InForce mode default_limit limit target (
          grant
            (resolve_quota_approval owner.key_limit_override owner.node_key_limits
              (record { requested_limit = limit; node = target })
              mode)
            owner)
  unfolding resolve_quota_approval resolve_pool_key_limit resolve_node_key_limit
  grant-InForce global none = refl
  grant-InForce global (some target) = refl
  grant-InForce per_node none = λ node. refl
  grant-InForce per_node (some target) =
      (approval_holds default_limit owner.key_limit_override owner.node_key_limits limit target
        (suc target) (differs_from_next target)).3

closes :
    (id : ℕ) (actor : ℕ) (rs : List RequestRow)
    → any (λ r. r.id == id) rs ≡ true
    → any
        (λ r. r.id == id && same_decision approved r.status)
        (update_where
          (λ r. r.id == id)
          (λ r. record r { status = approved; reviewed_by = some actor })
          rs)
      ≡ true
closes id actor [] h = absurd (ground (arith, h))
closes id actor (r ∷ rs) h = ground (arith, h, closes id actor rs)

is_among :
    (p : RequestRow → Bool) (rs : List RequestRow) (r : RequestRow)
    → first p rs ≡ some r
    → any (λ x. x.id == r.id) rs ≡ true
is_among p [] r h = absurd (ground (arith, h))
is_among p (x ∷ xs) r h = elim (Bool-cases (p x)) [
  | inl e ↦
      let it : x ≡ r = ground (arith, e, h) in
      subst (λ y. any (λ z. z.id == y.id) (x ∷ xs) ≡ true) it (ground arith)
  | inr e ↦ ground (arith, is_among p xs r (ground (arith, e, h)))
]

-- An administrator who approves an open request of a user closes it as approved, and the limit that
-- was requested is in force for that user: of the shared pool if the mode is global, else of the
-- node that the request names, or of every node if it names none.
pub review_request-grants :
    (mode : ℕ → Mode) (actor id default_limit : ℕ) (f : Fleet) (r : RequestRow) (owner : Member)
    → first (λ x. x.id == id && is_awaiting x.status) f.requests ≡ some r
    → first (λ m. m.id == r.user_id) f.members ≡ some owner
    → let g = settled_fleet (review_request approve mode actor id f) f in
      any (ended_as r.id approved) g.requests ≡ true
      × ((after : Member) × (first (λ m. m.id == r.user_id) g.members ≡ some after)
          × InForce (mode r.user_id) default_limit r.requested_limit r.node_id after)
unfolding review_request
review_request-grants mode actor id default_limit f r owner found owned =
    let approval =
      resolve_quota_approval owner.key_limit_override owner.node_key_limits
        (record { requested_limit = r.requested_limit; node = r.node_id }) (mode r.user_id) in
    rw (found, owned, review_request)
      (
        closes r.id actor f.requests
            (is_among (λ x. x.id == id && is_awaiting x.status) f.requests r found),
        (
          grant approval owner,
          first-update r.user_id (grant approval) f.members owner (λ x. refl) owned,
          grant-InForce default_limit owner r.requested_limit (mode r.user_id) r.node_id,
        ),
      )
