-- ===== src/Panel.antt =====
-- The rows of the panel's database that the worker and the control API share (packages/db):
-- users, keys, nodes and the job outbox. A uuid is a number and a time is in milliseconds. The
-- template strings of the deduplication keys are constructors of their parts, which a uuid, having
-- no colon, cannot confuse. Audit rows carry their action and target.
pub mod Rows
pub mod Revokes
pub mod Steps
mod Tests
pub mod Outbox
pub mod Nodes
pub mod Accounts
pub mod Arm
pub mod Claims
pub mod Create
pub mod Owners
pub mod Admin
pub mod Directory
pub mod Fleet
use amnezia_shared_panel.Base.{
  ℕ, Bool, true, false, List, [], ◌∷◌, ◌++◌, Option, none, some, String, if◌then◌else◌, ◌==◌,
}
use amnezia_shared_panel.Keys.{KeyState}

-- The characters of an error text.
abbrev pub Reason : Type 0
Reason = List ℕ

pub data Role : Type 0 where
  user admin : Role

pub data UserStatus : Type 0 where
  enabled_user disabled_user : UserStatus

pub record User : Type 0 where
  pub id : ℕ
  pub email : String
  pub role : Role
  pub status : UserStatus
  pub disabled_at : Option ℕ

pub data RouteProfile : Type 0 where
  full_tunnel ru_blacklist : RouteProfile

pub record Key : Type 0 where
  pub id : ℕ
  pub owner_id : ℕ
  pub node_id : ℕ
  pub node_label : String
  pub public_key : Option String
  pub state : KeyState
  pub device_label : String
  pub route_profile : RouteProfile
  pub route_rule_version_id : Option ℕ
  pub failure_reason : Option Reason
  pub revoked_at : Option ℕ

pub record Node : Type 0 where
  pub id : ℕ
  pub enabled : Bool
  pub last_sync_at : Option ℕ
  pub agent_update_image : Option String
  pub capacity_requested_peers : Option ℕ

pub data JobStatus : Type 0 where
  pending processing completed failed_job : JobStatus

pub data JobType : Type 0 where
  provision rotate revoke disable enable : JobType
  rules_refresh access_sync reconcile agent_update set_capacity other : JobType

pub data DedupKey : Type 0 where
  provision_of : ℕ → DedupKey
  attempt_of : JobType → ℕ → ℕ → DedupKey
  singleton : JobType → DedupKey

pub record Job : Type 0 where
  pub id : ℕ
  pub type : JobType
  pub dedup : DedupKey
  pub key_id : Option ℕ
  pub arm_id : Option ℕ
  pub node_id : Option ℕ
  pub image : Option String
  pub max_peers : Option ℕ
  pub status : JobStatus
  pub attempts : ℕ
  pub available_at : ℕ
  pub created_at : ℕ
  pub locked_at : Option ℕ
  pub completed_at : Option ℕ
  pub last_error : Option Reason

pub data AuditAction : Type 0 where
  create_requested revoke_requested rotate_requested renamed : AuditAction
  admin_disable admin_enable admin_revoke admin_purge admin_offboard admin_reinstate : AuditAction
  access_revoked user_deleted revoke_rearmed : AuditAction
  admin_create admin_set_role request_created request_approved request_rejected : AuditAction
  node_deleted policy_updated limit_set : AuditAction
  node_reconcile agent_update_requested set_capacity_requested : AuditAction

pub record Audit : Type 0 where
  pub action : AuditAction
  pub target : Option ℕ

pub record Db : Type 0 where
  pub users : List User
  pub keys : List Key
  pub nodes : List Node
  pub jobs : List Job
  pub audit : List Audit

-- UPDATE … SET … WHERE …
abbrev pub update_where {ℓ} : {A : Type ℓ} → (A → Bool) → (A → A) → List A → List A
update_where p f [] = []
update_where p f (x ∷ xs) = (if p x then f x else x) ∷ update_where p f xs

abbrev pub is_some_of : Option ℕ → ℕ → Bool
is_some_of none n = false
is_some_of (some m) n = m == n

abbrev pub same_status : JobStatus → JobStatus → Bool
same_status pending pending = true
same_status processing processing = true
same_status completed completed = true
same_status failed_job failed_job = true
same_status _ _ = false

abbrev pub same_type : JobType → JobType → Bool
same_type provision provision = true
same_type rotate rotate = true
same_type revoke revoke = true
same_type disable disable = true
same_type enable enable = true
same_type rules_refresh rules_refresh = true
same_type access_sync access_sync = true
same_type reconcile reconcile = true
same_type agent_update agent_update = true
same_type set_capacity set_capacity = true
same_type other other = true
same_type _ _ = false

-- A fresh row of the outbox, with the column defaults.
abbrev pub new_job : ℕ → ℕ → JobType → DedupKey → ℕ → Job
new_job id now type dedup key_id = record {
  id = id;
  type = type;
  dedup = dedup;
  key_id = some key_id;
  arm_id = none;
  node_id = none;
  image = none;
  max_peers = none;
  status = pending;
  attempts = 0;
  available_at = now;
  created_at = now;
  locked_at = none;
  completed_at = none;
  last_error = none;
}

-- What a control API call answers: the new rows, or the code of the error that rolls it back.
pub data ApiError : Type 0 where
  key_not_found policy_denied invalid_key_transition key_not_purgeable : ApiError
  key_disabled_by_admin rotation_not_allowed rotation_not_applicable : ApiError
  user_disabled route_profile_unavailable quota_exceeded node_at_capacity : ApiError
  protocol_not_allowed node_not_allowed node_unavailable : ApiError
  user_not_found self_offboard last_admin user_not_disabled user_has_live_keys : ApiError
  not_allowed user_exists node_not_found node_has_keys request_not_found : ApiError
  node_target_not_applicable recommended_not_prefix : ApiError

pub data Answer {ℓ} (A : Type ℓ) : Type ℓ where
  ok : A → Answer A
  err : ApiError → Answer A

-- The rows after a call: an error leaves them as they were.
abbrev pub committed : Answer Db → Db → Db
committed (ok after) db = after
committed (err e) db = db

-- One more row of the audit log.
abbrev pub log : AuditAction → ℕ → Db → Db
log action target db = record db {
  audit = db.audit ++ record { action = action; target = some target } ∷ [];
}

abbrev pub add_jobs : List Job → Db → Db
add_jobs js db = record db { jobs = db.jobs ++ js }
