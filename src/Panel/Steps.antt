-- ===== src/Panel/Steps.antt =====
-- The worker and the control API as a system: a transaction is one step from the rows before it to
-- the rows after it, and any interleaving of them is a run. Quota requests, the policy and the other
-- columns of users and nodes are no part of it. A node's keys have ids of their own, as the primary
-- key of their table says. The worker ends a job by its type
-- (apps/worker/src/processor.ts): the key's own lifecycle write for `vpn-key.revoke`, `disable`
-- and `enable`, `completeProvision` for `provision` and `rotate`, and `completeJob` elsewhere or
-- when the job's key is gone.
use text.Mathlib.Text.{◌==◌ as str_eq}
use amnezia_shared_panel.Base.{
  ℕ, ◌≡◌, Bool, false, List, [], ◌∷◌, not, map, keep, Option, String, or_else, ◌==◌, any, ◌≢◌,
}
use amnezia_shared_panel.Keys.{KeyState, revoking}
use amnezia_shared_panel.Panel.{
  Db, Node, User, Key, Role, ok, AuditAction, Reason, RouteProfile, committed,
}
use amnezia_shared_panel.Panel.Nodes.{complete_node_job}
use amnezia_shared_panel.Panel.Outbox.{
  claim_job, retry_job, fail_job, complete_job, complete_provision, complete_lifecycle,
  rearm_stuck_revokes, delete_completed_jobs_before, finish,
}
use amnezia_shared_panel.Panel.Accounts.{
  reconcile_access, deactivate_by_email, purge_offboarded_users, deactivate_targets, is_enabled,
  targets_of, purgeable_users,
}
use amnezia_shared_panel.Panel.Arm.{arm_access_sync, finish_access_sync, settle}
use amnezia_shared_panel.Panel.Owners.{enqueue_own_revoke, enqueue_own_rotate, rename_own_key}
use amnezia_shared_panel.Panel.Directory.{
  Directory, Identity, Allowlist, IdentityClaim, resolve_identity, create_user, set_role,
  purge_users as purge_all,
}
use amnezia_shared_panel.Panel.Fleet.{
  Fleet, Member, RequestRow, NodeLists, delete_node, settled_fleet,
}
use amnezia_shared_panel.Panel.Revokes.Others.{
  rename_own_key-Remembered, resolve_identity-Remembered, create_user-Remembered,
  set_role-Remembered, purge_users-Remembered, HasOwnKeys, delete_node-Remembered,
}
use amnezia_shared_panel.Quota.{QuotaContext}
use amnezia_shared_panel.Panel.Create.{Order, Server, Policy, KeyRequest, create_key}
use amnezia_shared_panel.Panel.Revokes.Creation.{create_key-Remembered}
use amnezia_shared_panel.Panel.Admin.{
  KeyAction, admin_key_action, purge_key, offboard_user, reinstate_user, delete_user,
}
use amnezia_shared_panel.Panel.Revokes.{
  RevokesRemembered, IsOtherJob, IsJobOf, claim_job-Remembered, retry_job-Remembered,
  fail_job-Remembered, complete_job-Remembered, complete_gone-Remembered, other_job-Remembered,
  complete_provision-Remembered, complete_lifecycle-Remembered,
}
use amnezia_shared_panel.Panel.Revokes.Sweeps.{
  delete_completed-Remembered, rearm_stuck_revokes-Remembered,
}
use amnezia_shared_panel.Panel.Revokes.Api.{
  enqueue_own_revoke-Remembered, enqueue_own_rotate-Remembered, admin_key_action-Remembered,
  purge_key-Remembered,
}
use amnezia_shared_panel.Panel.Revokes.Accounts.{
  offboard_user-Remembered, reinstate_user-Remembered, delete_user-Remembered,
  deactivate-Remembered, purge_each-Remembered, arm_access_sync-Remembered,
}

-- The rows after `deleteNode`.
abbrev pub db_without_node : ℕ → Bool → Fleet → Db
db_without_node node delete_keys f = (settled_fleet (delete_node node delete_keys f) f).db

module _ (lower trim : String → String) (active_rule : RouteProfile → Option ℕ) where
  pub data Step (db : Db) : Db → Type 0 where
    claim : (lease now : ℕ) → Step db (claim_job lease now db).1
    retry : (now id : ℕ) (reason : Reason) → Step db (retry_job now id reason db)
    fail : (id : ℕ) (reason : Reason) → Step db (fail_job id reason db)
    complete : (now id : ℕ) → IsOtherJob id db → Step db (complete_job now id db)
    complete_for_gone_key :
        (now id key_id : ℕ)
        → IsJobOf id key_id db
        → any (λ k. k.id == key_id) db.keys ≡ false
        → Step db (complete_job now id db)
    complete_for_provision :
        (now id key_id : ℕ) (public_key : String)
        → IsOtherJob id db
        → Step db (or_else (complete_provision now id key_id public_key db) db)
    complete_for_lifecycle :
        (now id key_id : ℕ) (state : KeyState)
        → IsJobOf id key_id db
        → state ≢ revoking
        → Step db (complete_lifecycle now id key_id state db)
    complete_for_node :
        (action : AuditAction) (change : Node → Node) (now id node_id : ℕ)
        → IsOtherJob id db
        → Step db (complete_node_job action change now id node_id db)
    rearm_revokes : (fresh : ℕ → ℕ) (now : ℕ) → Step db (rearm_stuck_revokes fresh now db).1
    delete_old_jobs : (cutoff : ℕ) → Step db (delete_completed_jobs_before cutoff db)
    reconcile_users :
        (fresh : ℕ → ℕ → ℕ) (now : ℕ) (allowed : List String)
        → Step db (reconcile_access lower trim fresh now allowed db).db
    deactivate_users :
        (fresh : ℕ → ℕ → ℕ) (now : ℕ) (emails : List String)
        → Step db (deactivate_by_email lower trim fresh now emails db).db
    purge_users : (cutoff : ℕ) → Step db (purge_offboarded_users cutoff db)
    arm_sync : (id arm_id now : ℕ) → Step db (arm_access_sync id arm_id now db)
    owner_revoke :
        (fresh : ℕ → ℕ) (now : ℕ) (allowed : Bool) (actor key_id : ℕ)
        → Step db (committed (enqueue_own_revoke fresh now allowed actor key_id db) db)
    owner_create :
        (compare : String → String → Order) (label_of : ℕ → Server → String) (order : List ℕ)
        (servers : List Server) (quota : QuotaContext) (policy : Policy) (fresh : ℕ → ℕ)
        (now actor : ℕ) (request : KeyRequest)
        → Step db (
            committed
              (create_key compare active_rule label_of order servers quota policy fresh now actor
                request db)
              db)
    owner_rotate :
        (fresh : ℕ → ℕ) (now actor key_id : ℕ)
        → Step db (committed (enqueue_own_rotate active_rule fresh now actor key_id db) db)
    admin_act :
        (fresh : ℕ → ℕ) (now : ℕ) (action : KeyAction) (key_id : ℕ)
        → Step db (committed (admin_key_action fresh now action key_id db) db)
    admin_purge : (key_id : ℕ) → Step db (committed (purge_key key_id db) db)
    admin_offboard :
        (fresh : ℕ → ℕ) (now actor id : ℕ)
        → Step db (committed (offboard_user fresh now actor id db) db)
    admin_reinstate :
        (fresh : ℕ → ℕ) (now id : ℕ) → Step db (committed (reinstate_user fresh now id db) db)
    finish_sync :
        (id arm_id now : ℕ) → IsOtherJob id db → Step db (finish_access_sync id arm_id now db)
    admin_delete : (id : ℕ) → Step db (committed (delete_user id db) db)
    owner_rename :
        (fresh : ℕ → ℕ) (now : ℕ) (shown : Key → String) (actor key_id : ℕ) (label : String)
        → Step db (committed (rename_own_key active_rule fresh now shown actor key_id label db) db)
    user_logs_in :
        (options : Allowlist) (fresh now : ℕ) (claim : IdentityClaim) (identities : List Identity)
        (domains : List String) (u : User) (after : Directory)
        → resolve_identity lower trim options fresh now claim
            (record { db = db; identities = identities; domains = domains })
          ≡ ok (u, after)
        → Step db after.db
    admin_create_user :
        (options : Allowlist) (fresh now arm_id marker : ℕ) (address : String) (role : Role)
        → Step db
            (committed (create_user lower trim options fresh now arm_id marker address role db) db)
    admin_set_role : (id : ℕ) (role : Role) → Step db (committed (set_role id role db) db)
    admin_purge_users : (confirm : Bool) (cutoff : ℕ) → Step db (purge_all confirm cutoff db)
    admin_delete_node :
        (members : List Member) (requests : List RequestRow) (lists : Option NodeLists) (node : ℕ)
        (delete_keys : Bool)
        → HasOwnKeys node db
        → Step db (
            db_without_node node delete_keys
              (record { db = db; members = members; requests = requests; lists = lists }))

  pub data Run (start : Db) : Db → Type 0 where
    begin : Run start start
    then_step : {db after : Db} → Run start db → Step db after → Run start after

  deactivate_by_email-Remembered :
      (fresh : ℕ → ℕ → ℕ) (now : ℕ) (targets : List String) (db : Db)
      → RevokesRemembered db
      → RevokesRemembered (deactivate_targets lower trim fresh now targets db).db
  unfolding deactivate_targets
  deactivate_by_email-Remembered fresh now [] db h = h
  deactivate_by_email-Remembered fresh now (t ∷ ts) db h =
      deactivate-Remembered fresh now (λ email. not (any (λ e. str_eq e (lower email)) (t ∷ ts)))
        (keep (λ u. is_enabled u.status) db.users)
        (record { deactivated = []; skipped_admins = []; db = db }) h

  reconcile_access-Remembered :
      (fresh : ℕ → ℕ → ℕ) (now : ℕ) (allowed : List String) (db : Db)
      → RevokesRemembered db
      → RevokesRemembered (reconcile_access lower trim fresh now allowed db).db
  unfolding reconcile_access
  reconcile_access-Remembered fresh now [] db h = h
  reconcile_access-Remembered fresh now (a ∷ as') db h =
      deactivate-Remembered fresh now
        (λ email. any (λ e. str_eq e (lower email)) (map lower (a ∷ as')))
        (keep (λ u. is_enabled u.status) db.users)
        (record { deactivated = []; skipped_admins = []; db = db }) h

  step-Remembered :
      (db : Db) {after : Db} → Step db after → RevokesRemembered db → RevokesRemembered after
  unfolding deactivate_by_email finish_access_sync complete_node_job purge_offboarded_users
  step-Remembered db (claim lease now) h = claim_job-Remembered lease now db h
  step-Remembered db (retry now id reason) h = retry_job-Remembered now id reason db h
  step-Remembered db (fail id reason) h = fail_job-Remembered id reason db h
  step-Remembered db (complete now id o) h = complete_job-Remembered now id db o h
  step-Remembered db (complete_for_gone_key now id key_id o gone) h =
      complete_gone-Remembered now id key_id db o gone h
  step-Remembered db (complete_for_provision now id key_id public_key o) h =
      complete_provision-Remembered now id key_id public_key db o h
  step-Remembered db (complete_for_lifecycle now id key_id state o s) h =
      complete_lifecycle-Remembered now id key_id state db o s h
  step-Remembered db (complete_for_node action change now id node_id o) h =
      other_job-Remembered (finish now) id db o h
  step-Remembered db (rearm_revokes fresh now) h = rearm_stuck_revokes-Remembered fresh now db h
  step-Remembered db (delete_old_jobs cutoff) h = delete_completed-Remembered cutoff db h
  step-Remembered db (reconcile_users fresh now allowed) h =
      reconcile_access-Remembered fresh now allowed db h
  step-Remembered db (deactivate_users fresh now emails) h =
      deactivate_by_email-Remembered fresh now (targets_of lower trim fresh now emails) db h
  step-Remembered db (purge_users cutoff) h = purge_each-Remembered (purgeable_users cutoff db) db h
  step-Remembered db (arm_sync id arm_id now) h = arm_access_sync-Remembered id arm_id now db h
  step-Remembered db (owner_revoke fresh now allowed actor key_id) h =
      enqueue_own_revoke-Remembered fresh now allowed actor key_id db h
  step-Remembered db
        (owner_create compare label_of order servers quota policy fresh now actor request) h =
      create_key-Remembered compare active_rule label_of order servers quota policy fresh now actor
        request db h
  step-Remembered db (owner_rotate fresh now actor key_id) h =
      enqueue_own_rotate-Remembered active_rule fresh now actor key_id db h
  step-Remembered db (admin_act fresh now action key_id) h =
      admin_key_action-Remembered fresh now action key_id db h
  step-Remembered db (admin_purge key_id) h = purge_key-Remembered key_id db h
  step-Remembered db (admin_offboard fresh now actor id) h =
      offboard_user-Remembered fresh now actor id db h
  step-Remembered db (admin_reinstate fresh now id) h = reinstate_user-Remembered fresh now id db h
  step-Remembered db (admin_delete id) h = delete_user-Remembered id db h
  step-Remembered db (owner_rename fresh now shown actor key_id label) h =
      rename_own_key-Remembered active_rule fresh now shown actor key_id label db h
  step-Remembered db (user_logs_in options fresh now whose identities domains u after done) h =
      resolve_identity-Remembered lower trim options fresh now whose u
        (record { db = db; identities = identities; domains = domains }) after done h
  step-Remembered db (admin_create_user options fresh now arm_id marker address role) h =
      create_user-Remembered lower trim options fresh now arm_id marker address role db h
  step-Remembered db (admin_set_role id role) h = set_role-Remembered id role db h
  step-Remembered db (admin_purge_users confirm cutoff) h =
      purge_users-Remembered confirm cutoff db h
  step-Remembered db (admin_delete_node members requests lists node delete_keys own) h =
      delete_node-Remembered node delete_keys
        (record { db = db; members = members; requests = requests; lists = lists }) own h
  step-Remembered db (finish_sync id arm_id now o) h =
      other_job-Remembered (settle arm_id now) id db o h

  -- In every interleaving of the transactions of `Step`, from rows where each key in `revoking` has a
  -- revoke job that is not completed, each such key has one afterwards. They are the worker's on the
  -- outbox, keys, accounts and nodes; an owner's creation, revocation, rotation and renaming of a
  -- key; an administrator's calls on a key, the creation, role, offboarding, reinstatement, deletion
  -- and purge of accounts, and the deletion of a node (if no key of another node has the id of one of
  -- its keys); and log-ins.
  pub runs_remember_revokes :
      {start : Db} (db : Db) → Run start db → RevokesRemembered start → RevokesRemembered db
  runs_remember_revokes db begin h = h
  runs_remember_revokes db (then_step {db = before} r s) h =
      step-Remembered before s (runs_remember_revokes before r h)
