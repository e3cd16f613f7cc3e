-- ===== src/Panel/Fleet.antt =====
-- Quota requests, the removal of a node, and the policy's lists of nodes: `createQuotaRequest`,
-- `deleteNode`, and `adminAction` for `quota-requests/approve`, `quota-requests/reject` and the
-- lists of `portal-policy/update`, of apps/control-api/src/postgresRepository.ts. The resolved
-- policy of a user is an argument.
mod Rows
pub mod Kept
mod Calls
pub mod Runs
mod Ended
pub mod Decided
pub mod Granted
mod Tests
use amnezia_shared_panel.Base.{
  ℕ, ◌+◌, Bool, true, false, not, ◌&&◌, ◌||◌, List, [], ◌∷◌, ◌++◌, Option, none, some,
  if◌then◌else◌, ◌==◌, any, every, first, keep, map, length, ltb, or_else,
}
use amnezia_shared_panel.Quota.{
  Mode, per_node, global, Limits, QuotaRequest, QuotaApproval, resolve_quota_approval,
  is_node_available,
}
use amnezia_shared_panel.PolicyLists.{
  has, delete, dedupe_node_ids, Check, prefix, behind, unpositioned, check_recommended_prefix,
}
use amnezia_shared_panel.Panel.{
  Db, Key, Node, Job, Answer, ok, err, ApiError, node_not_found, node_not_allowed, node_has_keys,
  node_target_not_applicable, request_not_found, user_not_found, recommended_not_prefix,
  update_where, is_some_of, log, request_created, request_approved, request_rejected, node_deleted,
}

pub data RequestStatus : Type 0 where
  awaiting approved rejected cancelled : RequestStatus

-- A row of quota_requests.
pub record RequestRow : Type 0 where
  pub id : ℕ
  pub user_id : ℕ
  pub requested_limit : ℕ
  pub node_id : Option ℕ
  pub status : RequestStatus
  pub reviewed_by : Option ℕ

-- The columns of a user's row that hold the quota.
pub record Member : Type 0 where
  pub id : ℕ
  pub key_limit_override : Option ℕ
  pub node_key_limits : Option Limits

-- The lists of the policy's row.
pub record NodeLists : Type 0 where
  pub recommended : List ℕ
  pub order : List ℕ

pub record Fleet : Type 0 where
  pub db : Db
  pub members : List Member
  pub requests : List RequestRow
  pub lists : Option NodeLists

pub record NodePolicy : Type 0 where
  pub allowed_node_ids : Option (List ℕ)
  pub key_limit_mode : Mode

abbrev pub is_awaiting : RequestStatus → Bool
is_awaiting awaiting = true
is_awaiting approved = false
is_awaiting rejected = false
is_awaiting cancelled = false

abbrev pub is_global : Mode → Bool
is_global global = true
is_global per_node = false

abbrev pub logged : Db → Fleet → Fleet
logged db f = record f { db = db }

abbrev pub cancel : RequestRow → RequestRow
cancel r = record r { status = cancelled }

abbrev pub new_request : ℕ → ℕ → ℕ → Option ℕ → RequestRow
new_request fresh actor limit target = record {
  id = fresh;
  user_id = actor;
  requested_limit = limit;
  node_id = target;
  status = awaiting;
  reviewed_by = none;
}

-- The request that the user still waits for is superseded.
abbrev pub file_request : ℕ → ℕ → ℕ → Option ℕ → Fleet → Fleet
file_request fresh actor limit node f = record f {
  db = log request_created fresh f.db;
  requests =
      update_where (λ r. r.user_id == actor && is_awaiting r.status) cancel f.requests
      ++ new_request fresh actor limit node ∷ [];
}

abbrev pub is_usable_node : ℕ → Db → Bool
is_usable_node id db = any (λ n. n.id == id && n.enabled) db.nodes

unfoldable pub create_quota_request : ℕ → ℕ → NodePolicy → ℕ → Option ℕ → Fleet → Answer Fleet
unfolding is_node_available
create_quota_request fresh actor policy limit none f = ok (file_request fresh actor limit none f)
create_quota_request fresh actor policy limit (some node) f =
    if not (is_usable_node node f.db)
    then err node_not_found
    else if not (is_node_available policy.allowed_node_ids node)
    then err node_not_allowed
    else if is_global policy.key_limit_mode
    then err node_target_not_applicable
    else ok (file_request fresh actor limit (some node) f)

pub data Decision : Type 0 where
  approve reject : Decision

abbrev pub grant : QuotaApproval → Member → Member
grant approval m = record m {
  key_limit_override = approval.key_limit_override;
  node_key_limits = approval.node_key_limits;
}

abbrev pub close_request : RequestStatus → ℕ → ℕ → Fleet → Fleet
close_request status actor id f = record f {
  requests =
      update_where (λ r. r.id == id) (λ r. record r { status = status; reviewed_by = some actor })
        f.requests;
}

abbrev pub granted : Mode → ℕ → RequestRow → Option Member → Fleet → Answer Fleet
granted mode actor r none f = err user_not_found
granted mode actor r (some owner) f =
    let approval =
      resolve_quota_approval owner.key_limit_override owner.node_key_limits
        (record { requested_limit = r.requested_limit; node = r.node_id }) mode in
    ok (
      close_request approved actor r.id (record f {
        db = log request_approved r.id f.db;
        members = update_where (λ m. m.id == r.user_id) (grant approval) f.members;
      }))

-- `mode` is the effective mode of a request's owner.
abbrev pub reviewed : Decision → (ℕ → Mode) → ℕ → Option RequestRow → Fleet → Answer Fleet
reviewed decision mode actor none f = err request_not_found
reviewed reject mode actor (some r) f =
    ok (close_request rejected actor r.id (logged (log request_rejected r.id f.db) f))
reviewed approve mode actor (some r) f =
    granted (mode r.user_id) actor r (first (λ m. m.id == r.user_id) f.members) f

unfoldable pub review_request : Decision → (ℕ → Mode) → ℕ → ℕ → Fleet → Answer Fleet
unfolding resolve_quota_approval
review_request decision mode actor id f =
    reviewed decision mode actor (first (λ r. r.id == id && is_awaiting r.status) f.requests) f

abbrev pub is_of_keys : List Key → Job → Bool
is_of_keys keys j = any (λ k. is_some_of j.key_id k.id) keys

abbrev pub scrub : ℕ → Option NodeLists → Option NodeLists
scrub id none = none
scrub id (some l) =
    some (record { recommended = delete id l.recommended; order = delete id l.order })

-- The requests for the node are cancelled, and then it is ON DELETE SET NULL.
abbrev pub forget_node : ℕ → List RequestRow → List RequestRow
forget_node id rs =
    update_where (λ r. is_some_of r.node_id id) (λ r. record r { node_id = none })
      (update_where (λ r. is_some_of r.node_id id && is_awaiting r.status) cancel rs)

abbrev pub drop_node : ℕ → Fleet → Fleet
drop_node id f =
    let gone = keep (λ k. k.node_id == id) f.db.keys in
    record f {
      db = log node_deleted id (record f.db {
        keys = keep (λ k. not (k.node_id == id)) f.db.keys;
        jobs = keep (λ j. not (is_of_keys gone j)) f.db.jobs;
        nodes = keep (λ n. not (n.id == id)) f.db.nodes;
      });
      requests = forget_node id f.requests;
      lists = scrub id f.lists;
    }

unfoldable pub delete_node : ℕ → Bool → Fleet → Answer Fleet
delete_node id delete_keys f =
    if not (any (λ n. n.id == id) f.db.nodes)
    then err node_not_found
    else if any (λ k. k.node_id == id) f.db.keys && not delete_keys
    then err node_has_keys
    else ok (drop_node id f)

abbrev pub node_exists_in : Db → ℕ → Bool
node_exists_in db id = any (λ n. n.id == id) db.nodes

abbrev pub known_ids : Db → Option (List ℕ) → Bool
known_ids db none = true
known_ids db (some ids) = every (node_exists_in db) ids

abbrev pub deduped : Option (List ℕ) → Option (List ℕ)
deduped none = none
deduped (some ids) = some (dedupe_node_ids ids)

abbrev pub stored_lists : Fleet → NodeLists
stored_lists f = or_else f.lists (record { recommended = []; order = [] })

-- The canonical form is stored, but for an empty one when no recommended ids were named.
abbrev pub canonical_or : Option (List ℕ) → List ℕ → List ℕ → List ℕ
canonical_or (some named) canonical stored = canonical
canonical_or none [] stored = stored
canonical_or none (id ∷ ids) stored = id ∷ ids

abbrev pub store_lists : Option (List ℕ) → Option (List ℕ) → Check → NodeLists → Answer NodeLists
store_lists recommended order (prefix canonical) stored = ok (record {
  recommended = canonical_or recommended canonical stored.recommended;
  order = or_else order stored.order;
})
store_lists recommended order (behind id position) stored = err recommended_not_prefix
store_lists recommended order (unpositioned id) stored = err recommended_not_prefix

abbrev pub checked_lists : Option (List ℕ) → Option (List ℕ) → NodeLists → Answer NodeLists
checked_lists none none stored = ok stored
checked_lists recommended order stored =
    store_lists recommended order
      (check_recommended_prefix (or_else recommended stored.recommended)
        (or_else order stored.order))
      stored

abbrev pub with_lists : Fleet → Answer NodeLists → Answer Fleet
with_lists f (ok l) = ok (record f { lists = some l })
with_lists f (err e) = err e

-- The part of a policy update that is about the lists: a list is named, or stays as it is stored.
unfoldable pub update_node_lists : Option (List ℕ) → Option (List ℕ) → Fleet → Answer Fleet
unfolding check_recommended_prefix dedupe_node_ids
update_node_lists recommended order f =
    if not (known_ids f.db (deduped recommended) && known_ids f.db (deduped order))
    then err node_not_found
    else with_lists f (checked_lists (deduped recommended) (deduped order) (stored_lists f))

-- The rows after a call.
abbrev pub settled_fleet : Answer Fleet → Fleet → Fleet
settled_fleet (ok after) f = after
settled_fleet (err e) f = f
