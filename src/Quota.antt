-- ===== src/Quota.antt =====
-- Key limits: apps/control-api/src/nodeQuota.ts, with `effectiveKeyLimit` of
-- packages/db/src/index.ts. A node id is a number; the object `nodeKeyLimits` is an association
-- list, read at its first entry.
pub mod Approval
use amnezia_shared_panel.Base.{
  ℕ, Bool, true, false, List, [], ◌∷◌, Option, none, some, if◌then◌else◌, ◌==◌, ltb, any, length,
  or_else,
}

pub data Mode : Type 0 where
  per_node global : Mode

abbrev pub Limits : Type 0
Limits = List (ℕ × ℕ)

pub record QuotaContext : Type 0 where
  pub default_key_limit : ℕ
  pub key_limit_override : Option ℕ
  pub node_key_limits : Option Limits

abbrev pub limit_of : ℕ → Limits → Option ℕ
limit_of id [] = none
limit_of id ((node, limit) ∷ ls) = if node == id then some limit else limit_of id ls

-- `{ ...limits, [id]: limit }`: an entry that is there is replaced in its place.
abbrev pub set_limit : ℕ → ℕ → Limits → Limits
set_limit id limit [] = (id, limit) ∷ []
set_limit id limit ((node, old) ∷ ls) =
    if node == id then (node, limit) ∷ ls else (node, old) ∷ set_limit id limit ls

unfoldable pub effective_key_limit : ℕ → Option ℕ → ℕ
effective_key_limit global_limit override = or_else override global_limit

unfoldable pub resolve_node_key_limit : QuotaContext → ℕ → ℕ
unfolding effective_key_limit
resolve_node_key_limit c node =
    or_else (limit_of node (or_else c.node_key_limits []))
      (effective_key_limit c.default_key_limit c.key_limit_override)

unfoldable pub resolve_pool_key_limit : QuotaContext → ℕ
unfolding effective_key_limit
resolve_pool_key_limit c = effective_key_limit c.default_key_limit c.key_limit_override

pub record KeyUsage : Type 0 where
  pub keys_on_node : ℕ
  pub keys_total : ℕ

unfoldable pub has_room_for_key : QuotaContext → Mode → ℕ → KeyUsage → Bool
unfolding resolve_node_key_limit resolve_pool_key_limit
has_room_for_key c global node usage = ltb usage.keys_total (resolve_pool_key_limit c)
has_room_for_key c per_node node usage = ltb usage.keys_on_node (resolve_node_key_limit c node)

unfoldable pub is_node_available : Option (List ℕ) → ℕ → Bool
is_node_available none node = true
is_node_available (some ids) node = any (λ id. id == node) ids

pub record QuotaRequest : Type 0 where
  pub requested_limit : ℕ
  pub node : Option ℕ

pub record QuotaApproval : Type 0 where
  pub key_limit_override : Option ℕ
  pub node_key_limits : Option Limits
  pub cleared_node_limit_count : ℕ
  pub target_coerced : Bool

abbrev is_some : Option ℕ → Bool
is_some none = false
is_some (some _) = true

approve_per_node : Option ℕ → Limits → ℕ → Option ℕ → QuotaApproval
approve_per_node override existing limit none = record {
  key_limit_override = some limit;
  node_key_limits = none;
  cleared_node_limit_count = length existing;
  target_coerced = false;
}
approve_per_node override existing limit (some node) = record {
  key_limit_override = override;
  node_key_limits = some (set_limit node limit existing);
  cleared_node_limit_count = 0;
  target_coerced = false;
}

-- `override` and `limits` are the user's current columns.
unfoldable pub resolve_quota_approval :
    Option ℕ → Option Limits → QuotaRequest → Mode → QuotaApproval
unfolding approve_per_node
resolve_quota_approval override limits request global = record {
  key_limit_override = some request.requested_limit;
  node_key_limits = limits;
  cleared_node_limit_count = 0;
  target_coerced = is_some request.node;
}
resolve_quota_approval override limits request per_node =
    approve_per_node override (or_else limits []) request.requested_limit request.node
