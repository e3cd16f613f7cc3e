-- ===== src/Panel/Accounts.antt =====
-- Accounts: the worker's `disableAndRevoke`, `reconcileAccess` and `deactivateByEmail`
-- (apps/worker/src/postgresRepository.ts), and what packages/db/src/index.ts shares about purging
-- offboarded accounts. `lower` and `trim` are the string methods of the
-- source's language. `fresh` gives the n-th new uuid that a call draws for one user.
pub mod Admins
use amnezia_shared_panel.Base.{
  ℕ, Bool, true, false, not, ◌&&◌, List, [], ◌∷◌, ◌++◌, map, none, some, String, if◌then◌else◌,
  ◌==◌, ltb, any, keep,
}
use text.Mathlib.Text.{◌==◌ as str_eq}
use amnezia_shared_panel.Keys.{revoking, revoked, same_state, is_swept, is_live}
use amnezia_shared_panel.Panel.{
  Db, User, Key, Role, admin, user, UserStatus, enabled_user, disabled_user, update_where, log,
  access_revoked, user_deleted,
}
use amnezia_shared_panel.Panel.Outbox.{revoke_jobs}

abbrev pub is_enabled : UserStatus → Bool
is_enabled enabled_user = true
is_enabled disabled_user = false

abbrev pub is_admin : Role → Bool
is_admin admin = true
is_admin user = false

-- UPDATE vpn_keys SET state = 'revoking' WHERE …, with a revoke job for each row it returns.
unfoldable pub revoke_where : (ℕ → ℕ) → ℕ → (Key → Bool) → Db → Db
unfolding revoke_jobs
revoke_where fresh now p db = record db {
  keys = update_where p (λ k. record k { state = revoking }) db.keys;
  jobs = db.jobs ++ revoke_jobs fresh now 0 (keep p db.keys);
}

abbrev pub disable_user : ℕ → ℕ → Db → Db
disable_user now id db = record db {
  users =
      update_where (λ u. u.id == id)
        (λ u. record u { status = disabled_user; disabled_at = some now }) db.users;
}

unfoldable pub disable_and_revoke : (ℕ → ℕ) → ℕ → ℕ → Db → Db
unfolding revoke_where is_swept
disable_and_revoke fresh now id db =
    log access_revoked id
      (revoke_where fresh now (λ k. k.owner_id == id && is_swept k.state) (disable_user now id db))

pub record Deactivation : Type 0 where
  pub deactivated : List String
  pub skipped_admins : List String
  pub db : Db

-- The loop over the active users that both directions share; `spared` is the test that skips one.
unfoldable pub deactivate :
    (ℕ → ℕ → ℕ) → ℕ → (String → Bool) → List User → Deactivation → Deactivation
unfolding disable_and_revoke
deactivate fresh now spared [] d = d
deactivate fresh now spared (u ∷ us) d = deactivate fresh now spared us (
    if spared u.email
    then d
    else if is_admin u.role
    then record d { skipped_admins = d.skipped_admins ++ u.email ∷ [] }
    else record {
      deactivated = d.deactivated ++ u.email ∷ [];
      skipped_admins = d.skipped_admins;
      db = disable_and_revoke (fresh u.id) now u.id d.db;
    })

abbrev none_yet : Db → Deactivation
none_yet db = record { deactivated = []; skipped_admins = []; db = db }

module _ (lower : String → String) (trim : String → String) (fresh : ℕ → ℕ → ℕ) (now : ℕ) where
  unfoldable pub reconcile_access : List String → Db → Deactivation
  unfolding deactivate
  reconcile_access [] db = none_yet db
  reconcile_access (a ∷ as') db =
      deactivate fresh now (λ email. any (λ e. str_eq e (lower email)) (map lower (a ∷ as')))
        (keep (λ u. is_enabled u.status) db.users) (none_yet db)

  abbrev pub targets_of : List String → List String
  targets_of emails = keep (λ e. not (str_eq e "")) (map (λ e. lower (trim e)) emails)

  -- With no target left nothing is done.
  unfoldable pub deactivate_targets : List String → Db → Deactivation
  unfolding deactivate
  deactivate_targets [] db = none_yet db
  deactivate_targets (t ∷ ts) db =
      deactivate fresh now (λ email. not (any (λ e. str_eq e (lower email)) (t ∷ ts)))
        (keep (λ u. is_enabled u.status) db.users) (none_yet db)

  unfoldable pub deactivate_by_email : List String → Db → Deactivation
  unfolding deactivate_targets
  deactivate_by_email emails db = deactivate_targets (targets_of emails) db

-- hasLiveKeys
unfoldable pub has_live_keys : ℕ → Db → Bool
unfolding is_live
has_live_keys id db = any (λ k. k.owner_id == id && is_live k.state) db.keys

abbrev pub disabled_before : ℕ → User → Bool
disabled_before cutoff u =
    not (is_enabled u.status) && elim u.disabled_at [ none ↦ false | some t ↦ ltb t cutoff ]

-- findOffboardedUsersEligibleForPurge
unfoldable pub purgeable_users : ℕ → Db → List User
unfolding has_live_keys
purgeable_users cutoff db =
    keep (λ u. disabled_before cutoff u && not (has_live_keys u.id db)) db.users

-- purgeOneOffboardedUser. The foreign key of a key's owner restricts the removal of the user; its
-- callers ask that the user has no live key, and the keys that are not live are removed here.
unfoldable pub purge_one : ℕ → Db → Db
purge_one id db = record db {
  keys = keep (λ k. not (k.owner_id == id && same_state k.state revoked)) db.keys;
  users = keep (λ u. not (u.id == id)) db.users;
}

unfoldable pub purge_each : List User → Db → Db
unfolding purge_one
purge_each [] db = db
purge_each (u ∷ us) db = purge_each us (log user_deleted u.id (purge_one u.id db))

-- purgeOffboardedUsers
unfoldable pub purge_offboarded_users : ℕ → Db → Db
unfolding purge_each purgeable_users
purge_offboarded_users cutoff db = purge_each (purgeable_users cutoff db) db
