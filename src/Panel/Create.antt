-- ===== src/Panel/Create.antt =====
-- `createProvisioningKey` of apps/control-api/src/postgresRepository.ts, one try of its
-- serializable transaction (a conflict repeats it, ten times at most), and the node order of
-- apps/control-api/src/nodeOrder.ts. A server is the row of a node that the search reads.
-- `policy` is the resolved policy, and `compare` the collator on display names. The deterministic
-- peer label and the key number, which no decision reads, are left out: the label is an argument.
pub mod Choice
pub mod Ordering
pub mod Bounds
use amnezia_shared_panel.Base.{
  ℕ, Bool, true, false, not, ◌&&◌, ◌||◌, List, [], ◌∷◌, ◌++◌, Option, none, some, String,
  if◌then◌else◌, ◌==◌, ltb, leb, any, keep, length, first, or_else, ◌+◌,
}
use amnezia_shared_panel.Keys.{KeyState, provisioning, counts_for_quota}
use amnezia_shared_panel.Quota.{
  Mode, per_node, global, QuotaContext, has_room_for_key, is_node_available,
}
use amnezia_shared_panel.Panel.{
  Db, Key, Answer, ok, err, ApiError, user_disabled, policy_denied, route_profile_unavailable,
  quota_exceeded, node_at_capacity, protocol_not_allowed, node_not_allowed, node_unavailable,
  RouteProfile, full_tunnel, ru_blacklist, new_job, provision, provision_of, log, add_jobs,
  create_requested,
}
use amnezia_shared_panel.Panel.Accounts.{is_enabled}

pub data Protocol : Type 0 where
  awg2 awg3 : Protocol

abbrev pub same_protocol : Protocol → Protocol → Bool
same_protocol awg2 awg2 = true
same_protocol awg3 awg3 = true
same_protocol _ _ = false

pub record Server : Type 0 where
  pub id : ℕ
  pub name : String
  pub public_name : Option String
  pub enabled : Bool
  pub protocol : Protocol
  pub capabilities : Protocol → Bool
  pub enabled_protocols : Option (List Protocol)
  pub max_peers : ℕ

pub record Policy : Type 0 where
  pub allow_key_creation : Bool
  pub allow_route_profile_selection : Bool
  pub allow_node_selection : Bool
  pub allowed_node_ids : Option (List ℕ)
  pub allowed_protocols : List Protocol
  pub key_limit_mode : Mode

pub record KeyRequest : Type 0 where
  pub node_id : ℕ
  pub protocol : Protocol
  pub route_profile : RouteProfile
  pub device_label : String

pub includes : Protocol → List Protocol → Bool
includes p ps = any (same_protocol p) ps

or_primary : Protocol → List Protocol → List Protocol
or_primary primary [] = primary ∷ []
or_primary primary (p ∷ ps) = p ∷ ps

derive_supported_protocols : Protocol → (Protocol → Bool) → List Protocol
unfolding or_primary
derive_supported_protocols primary capabilities =
    or_primary primary (keep capabilities (awg2 ∷ awg3 ∷ []))

order_protocols : List Protocol → List Protocol
unfolding includes
order_protocols ps = keep (λ p. includes p ps) (awg3 ∷ awg2 ∷ [])

offered : List Protocol → Option (List Protocol) → List Protocol
unfolding includes
offered supported none = supported
offered supported (some []) = supported
offered supported (some (p ∷ ps)) = keep (λ q. includes q (p ∷ ps)) supported

compute_selectable_protocols :
    List Protocol → Option (List Protocol) → List Protocol → List Protocol
unfolding order_protocols offered includes
compute_selectable_protocols supported enabled allowed =
    order_protocols (keep (λ p. includes p allowed) (offered supported enabled))

-- The position of an id in the admin's order.
pub position : ℕ → List ℕ → Option ℕ
position id [] = none
position id (x ∷ xs) =
    if x == id then some 0 else elim (position id xs) [ none ↦ none | some n ↦ some (n + 1) ]

pub data Order : Type 0 where
  less same more : Order

abbrev pub compare_numbers : ℕ → ℕ → Order
compare_numbers a b = if ltb a b then less else if a == b then same else more

-- Every positioned node is before every other.
compare_positions : Option ℕ → Option ℕ → Order
compare_positions none none = same
compare_positions none (some n) = more
compare_positions (some m) none = less
compare_positions (some m) (some n) = compare_numbers m n

abbrev pub or_then : Order → Order → Order
or_then less next = less
or_then same next = next
or_then more next = more

abbrev pub is_more : Order → Bool
is_more less = false
is_more same = false
is_more more = true

module _ (compare : String → String → Order) where
  unfoldable pub compare_servers : List ℕ → Server → Server → Order
  unfolding position compare_positions
  compare_servers order a b =
      or_then (compare_positions (position a.id order) (position b.id order)) (
        or_then (compare (or_else a.public_name a.name) (or_else b.public_name b.name))
          (compare_numbers a.id b.id))

  insert_server : List ℕ → Server → List Server → List Server
  unfolding compare_servers
  insert_server order s [] = s ∷ []
  insert_server order s (t ∷ ts) =
      if is_more (compare_servers order s t) then t ∷ insert_server order s ts else s ∷ t ∷ ts

  unfoldable pub order_nodes_for_users : List ℕ → List Server → List Server
  unfolding insert_server
  order_nodes_for_users order [] = []
  order_nodes_for_users order (s ∷ ss) = insert_server order s (order_nodes_for_users order ss)

-- The keys that count for the quota of an owner, of an owner on a node, and of a node.
abbrev pub owned : ℕ → Key → Bool
owned owner k = k.owner_id == owner && counts_for_quota k.state

abbrev pub owned_on : ℕ → ℕ → Key → Bool
owned_on owner node k = k.owner_id == owner && (k.node_id == node && counts_for_quota k.state)

abbrev pub hosted : ℕ → Key → Bool
hosted node k = k.node_id == node && counts_for_quota k.state

abbrev pub count : (Key → Bool) → List Key → ℕ
count p ks = length (keep p ks)

-- Why a candidate is passed over.
pub data Obstacle : Type 0 where
  availability protocol_block user_quota node_capacity : Obstacle

total_of : Mode → ℕ → List Key → ℕ
total_of global owner keys = count (owned owner) keys
total_of per_node owner keys = 0

module _ (quota : QuotaContext) (policy : Policy) (request : KeyRequest) (owner : ℕ)
    (keys : List Key) where
  -- The tests of the loop's body, in its order.
  unfoldable pub obstacle : Server → Option Obstacle
  unfolding compute_selectable_protocols derive_supported_protocols includes total_of
      has_room_for_key is_node_available
  obstacle s =
      if not (is_node_available policy.allowed_node_ids s.id)
      then some availability
      else if not (
          includes request.protocol (
            compute_selectable_protocols (derive_supported_protocols s.protocol s.capabilities)
              s.enabled_protocols policy.allowed_protocols))
      then some protocol_block
      else if not (
          has_room_for_key quota policy.key_limit_mode s.id (record {
            keys_on_node = count (owned_on owner s.id) keys;
            keys_total = total_of policy.key_limit_mode owner keys;
          }))
      then some user_quota
      else if leb s.max_peers (count (hosted s.id) keys)
      then some node_capacity
      else none

pub record Blocked : Type 0 where
  pub by_quota : Bool
  pub by_capacity : Bool
  pub by_protocol : Bool
  pub by_availability : Bool

mark : Obstacle → Blocked → Blocked
mark availability b = record b { by_availability = true }
mark protocol_block b = record b { by_protocol = true }
mark user_quota b = record b { by_quota = true }
mark node_capacity b = record b { by_capacity = true }

explain : Blocked → ApiError
explain b =
    if b.by_quota
    then quota_exceeded
    else if b.by_capacity
    then node_at_capacity
    else if b.by_protocol
    then protocol_not_allowed
    else if b.by_availability
    then node_not_allowed
    else node_unavailable

-- The loop over the candidates, with its flags.
select : (Server → Option Obstacle) → List Server → Blocked → Answer Server
unfolding mark explain
select obstacle_of [] b = err (explain b)
select obstacle_of (s ∷ ss) b = elim (obstacle_of s) [
  | none ↦ ok s
  | some o ↦ select obstacle_of ss (mark o b)
]

unfoldable pub select_server : (Server → Option Obstacle) → List Server → Answer Server
unfolding select
select_server obstacle_of ss =
    select obstacle_of ss (record {
      by_quota = false;
      by_capacity = false;
      by_protocol = false;
      by_availability = false;
    })

-- The candidate rows: enabled, serving the protocol and, if users choose their node, the chosen.
unfoldable pub is_candidate : Policy → KeyRequest → Server → Bool
is_candidate policy request s =
    s.enabled
    && (same_protocol s.protocol request.protocol || s.capabilities request.protocol)
    && (not policy.allow_node_selection || s.id == request.node_id)

unfoldable pub route_rule : Policy → RouteProfile → (RouteProfile → Option ℕ) → Answer (Option ℕ)
route_rule policy full_tunnel active_rule = ok none
route_rule policy ru_blacklist active_rule =
    if policy.allow_route_profile_selection
    then elim (active_rule ru_blacklist) [
      | none ↦ err route_profile_unavailable
      | some v ↦ ok (some v)
    ]
    else err policy_denied

abbrev pub fresh_key : ℕ → ℕ → ℕ → String → Option ℕ → KeyRequest → Key
fresh_key id owner node label rule request = record {
  id = id;
  owner_id = owner;
  node_id = node;
  node_label = label;
  public_key = none;
  state = provisioning;
  device_label = request.device_label;
  route_profile = request.route_profile;
  route_rule_version_id = rule;
  failure_reason = none;
  revoked_at = none;
}

unfoldable pub insert_key : (ℕ → ℕ) → ℕ → Key → Db → Db
insert_key fresh now key db = log create_requested key.id (
    add_jobs (new_job (fresh 1) now provision (provision_of key.id) key.id ∷ [])
      (record db { keys = db.keys ++ key ∷ [] }))

module _ (compare : String → String → Order) (active_rule : RouteProfile → Option ℕ)
    (label_of : ℕ → Server → String) (order : List ℕ) (servers : List Server) (quota : QuotaContext)
    (policy : Policy) (fresh : ℕ → ℕ) (now actor : ℕ) (request : KeyRequest) where
  -- The servers that the loop visits, in its order.
  unfoldable pub candidates : List Server
  unfolding order_nodes_for_users is_candidate
  candidates = order_nodes_for_users compare order (keep (is_candidate policy request) servers)

  place : Option ℕ → Answer Server → Db → Answer Db
  unfolding insert_key
  place rule (err e) db = err e
  place rule (ok s) db =
      ok (
        insert_key fresh now (fresh_key (fresh 0) actor s.id (label_of (fresh 0) s) rule request)
          db)

  unfoldable pub place_with : Answer (Option ℕ) → Db → Answer Db
  unfolding place select_server obstacle candidates
  place_with (err e) db = err e
  place_with (ok rule) db =
      place rule (select_server (obstacle quota policy request actor db.keys) candidates) db

  unfoldable pub create_key : Db → Answer Db
  unfolding place_with route_rule
  create_key db =
      if not (any (λ u. u.id == actor && is_enabled u.status) db.users)
      then err user_disabled
      else if not policy.allow_key_creation
      then err policy_denied
      else place_with (route_rule policy request.route_profile active_rule) db
