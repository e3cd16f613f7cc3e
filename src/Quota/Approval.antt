-- ===== src/Quota/Approval.antt =====
-- What an approved quota request grants.
use amnezia_shared_panel.Base.{ℕ, ◌≡◌, ◌≢◌, refl, [], ◌∷◌, Option, none, some, arith, or_else}
use amnezia_shared_panel.Quota.{
  per_node, global, Limits, limit_of, set_limit, QuotaContext, QuotaApproval,
  resolve_node_key_limit, resolve_pool_key_limit, resolve_quota_approval,
}

-- The user's limits once the approval is written.
abbrev pub approved : ℕ → QuotaApproval → QuotaContext
approved default_limit a = record {
  default_key_limit = default_limit;
  key_limit_override = a.key_limit_override;
  node_key_limits = a.node_key_limits;
}

set_limit_same : (id limit : ℕ) (ls : Limits) → limit_of id (set_limit id limit ls) ≡ some limit
set_limit_same id limit [] = ground arith
set_limit_same id limit ((node, old) ∷ ls) = ground (arith, set_limit_same id limit ls)

set_limit_other :
    (id other limit : ℕ) (ls : Limits)
    → id ≢ other
    → limit_of other (set_limit id limit ls) ≡ limit_of other ls
set_limit_other id other limit [] h = ground arith
set_limit_other id other limit ((node, old) ∷ ls) h =
    ground (arith, set_limit_other id other limit ls h)

-- The granted number holds: on the shared pool in global mode; on every node for a request that
-- names none; and on the named node for one that does, whose other nodes keep their limits.
pub approval_holds :
    (default_limit : ℕ) (override : Option ℕ) (limits : Option Limits) (limit target node : ℕ)
    → target ≢ node
    → (resolve_pool_key_limit (
          approved default_limit (
            resolve_quota_approval override limits
              (record { requested_limit = limit; node = some target })
              global))
        ≡ limit)
      × (resolve_pool_key_limit (
            approved default_limit (
              resolve_quota_approval override limits
                (record { requested_limit = limit; node = none })
                global))
          ≡ limit)
      × (resolve_node_key_limit
            (approved default_limit (
              resolve_quota_approval override limits
                (record { requested_limit = limit; node = none })
                per_node))
            node
          ≡ limit)
      × (resolve_node_key_limit
            (approved default_limit (
              resolve_quota_approval override limits
                (record { requested_limit = limit; node = some target })
                per_node))
            target
          ≡ limit)
      × (resolve_node_key_limit
            (approved default_limit (
              resolve_quota_approval override limits
                (record { requested_limit = limit; node = some target })
                per_node))
            node
          ≡ resolve_node_key_limit
              (record {
                default_key_limit = default_limit;
                key_limit_override = override;
                node_key_limits = limits;
              })
              node)
unfolding resolve_quota_approval resolve_pool_key_limit resolve_node_key_limit
approval_holds default_limit override limits limit target node h = (
  refl,
  refl,
  refl,
  rw (set_limit_same target limit (or_else limits [])) refl,
  rw (set_limit_other target node limit (or_else limits []) h) refl,
)
