-- ===== src/Panel/Admin.antt =====
-- What an administrator may do with keys and accounts: `adminAction` of
-- apps/control-api/src/postgresRepository.ts, for `keys/disable`, `keys/enable`, `keys/revoke`,
-- `keys/purge`, `users/offboard`, `users/reinstate` and `users/delete`.
use amnezia_shared_panel.Base.{
  ℕ, ◌+◌, Bool, not, ◌&&◌, List, [], ◌∷◌, Option, none, some, if◌then◌else◌, ◌==◌, any, first, keep,
  length, leb,
}
use amnezia_shared_panel.Keys.{
  KeyState, same_state, is_revocable, is_purgeable, active, disabled, revoking, revoked,
}
use amnezia_shared_panel.Panel.{
  Db, Key, User, JobType, revoke, disable, enable, Answer, ok, err, key_not_found,
  invalid_key_transition, key_not_purgeable, user_not_found, self_offboard, last_admin,
  user_not_disabled, user_has_live_keys, new_job, attempt_of, log, add_jobs, AuditAction,
  admin_disable, admin_enable, admin_revoke, admin_purge, admin_offboard, admin_reinstate,
  user_deleted, is_some_of, enabled_user, update_where,
}
use amnezia_shared_panel.Panel.Outbox.{set_keys}
use amnezia_shared_panel.Panel.Accounts.{
  revoke_where, disable_user, has_live_keys, purge_one, is_enabled, is_admin,
}
use amnezia_shared_panel.Panel.Arm.{arm_access_sync}

pub data KeyAction : Type 0 where
  to_disable to_enable to_revoke : KeyAction

abbrev pub target_state : KeyAction → KeyState
target_state to_disable = disabled
target_state to_enable = active
target_state to_revoke = revoking

abbrev pub job_of : KeyAction → JobType
job_of to_disable = disable
job_of to_enable = enable
job_of to_revoke = revoke

abbrev audit_of : KeyAction → AuditAction
audit_of to_disable = admin_disable
audit_of to_enable = admin_enable
audit_of to_revoke = admin_revoke

unfoldable pub is_no_op : KeyAction → KeyState → Bool
is_no_op to_revoke s = same_state s revoked
is_no_op a s = same_state s (target_state a)

unfoldable pub is_allowed : KeyAction → KeyState → Bool
unfolding is_revocable
is_allowed to_disable s = same_state s active
is_allowed to_enable s = same_state s disabled
is_allowed to_revoke s = is_revocable s

module _ (fresh : ℕ → ℕ) (now : ℕ) where
  unfoldable pub act : KeyAction → ℕ → Option Key → Db → Answer Db
  unfolding is_no_op is_allowed
  act action key_id none db = err key_not_found
  act action key_id (some current) db =
      if is_no_op action current.state
      then ok db
      else if is_allowed action current.state
      then ok (
          log (audit_of action) key_id (
            add_jobs
              (new_job (fresh 0) now (job_of action) (attempt_of (job_of action) key_id (fresh 1))
                  key_id
                ∷ [])
              (set_keys (λ k. k.id == key_id) (λ k. record k { state = target_state action }) db)))
      else err invalid_key_transition

  unfoldable pub admin_key_action : KeyAction → ℕ → Db → Answer Db
  unfolding act
  admin_key_action action key_id db = act action key_id (first (λ k. k.id == key_id) db.keys) db

unfoldable pub purge_rows : ℕ → Db → Db
purge_rows key_id db = record db {
  keys = keep (λ k. not (k.id == key_id)) db.keys;
  jobs = keep (λ j. not (is_some_of j.key_id key_id)) db.jobs;
}

unfoldable pub purge : ℕ → Option Key → Db → Answer Db
unfolding purge_rows is_purgeable
purge key_id none db = err key_not_found
purge key_id (some k) db =
    if is_purgeable k.state
    then ok (log admin_purge key_id (purge_rows key_id db))
    else err key_not_purgeable

unfoldable pub purge_key : ℕ → Db → Answer Db
unfolding purge
purge_key key_id db = purge key_id (first (λ k. k.id == key_id) db.keys) db

-- The active administrators, whose rows are locked.
abbrev pub active_admins : Db → List User
active_admins db = keep (λ u. is_admin u.role && is_enabled u.status) db.users

unfoldable pub offboard : (ℕ → ℕ) → ℕ → ℕ → ℕ → Option User → Db → Answer Db
unfolding revoke_where is_revocable arm_access_sync
offboard fresh now actor id none db = err user_not_found
offboard fresh now actor id (some target) db =
    if actor == id
    then err self_offboard
    else if is_admin target.role && is_enabled target.status && leb (length (active_admins db)) 1
    then err last_admin
    else ok (
        log admin_offboard id (
          arm_access_sync (fresh 0) (fresh 1) now (
            revoke_where (λ n. fresh (n + 2)) now (λ k. k.owner_id == id && is_revocable k.state)
              (disable_user now id db))))

unfoldable pub offboard_user : (ℕ → ℕ) → ℕ → ℕ → ℕ → Db → Answer Db
unfolding offboard
offboard_user fresh now actor id db =
    offboard fresh now actor id (first (λ u. u.id == id) db.users) db

unfoldable pub reinstate_user : (ℕ → ℕ) → ℕ → ℕ → Db → Answer Db
unfolding arm_access_sync
reinstate_user fresh now id db =
    if any (λ u. u.id == id) db.users
    then ok (
        log admin_reinstate id (
          arm_access_sync (fresh 0) (fresh 1) now (record db {
            users =
                update_where (λ u. u.id == id)
                  (λ u. record u { status = enabled_user; disabled_at = none }) db.users;
          })))
    else err user_not_found

unfoldable pub remove : ℕ → Option User → Db → Answer Db
unfolding has_live_keys purge_one
remove id none db = err user_not_found
remove id (some target) db =
    if is_enabled target.status
    then err user_not_disabled
    else if has_live_keys id db
    then err user_has_live_keys
    else ok (log user_deleted id (purge_one id db))

unfoldable pub delete_user : ℕ → Db → Answer Db
unfolding remove
delete_user id db = remove id (first (λ u. u.id == id) db.users) db
