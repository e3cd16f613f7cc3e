-- ===== src/Panel/Revokes/Accounts.antt =====
-- The sweeps over an account's keys and the purge of accounts, for keys that wait to be revoked.
use amnezia_shared_panel.Base.{
  ℕ, ◌+◌, Bool, true, false, ◌&&◌, not, List, [], ◌∷◌, ◌++◌, arith, any, Option, none, some,
  if◌then◌else◌, ◌==◌, String, Bool-cases, inl, inr, first, leb, length,
}
use amnezia_shared_panel.Keys.{revoked, is_revocable, same_state, is_swept}
use amnezia_shared_panel.Panel.{Db, User, update_where, committed, enabled_user}
use amnezia_shared_panel.Panel.Rows.{any-update_where, All-keep_imp, All-imp}
use amnezia_shared_panel.Panel.Revokes.{
  RevokesRemembered, IsRemembered, is_open_revoke, append-Remembered,
}
use amnezia_shared_panel.Panel.Revokes.Sweeps.{revoke_where-Remembered}
use amnezia_shared_panel.Panel.Accounts.{
  revoke_where, disable_user, disable_and_revoke, Deactivation, deactivate, is_admin, is_enabled,
  has_live_keys, purge_one, purge_each,
}
use amnezia_shared_panel.Panel.Arm.{arm_access_sync, rearm, is_access_sync, restart_if_ended}
use amnezia_shared_panel.Panel.Admin.{
  offboard_user, offboard, reinstate_user, delete_user, remove, active_admins,
}

purge_one-Remembered :
    (id : ℕ) (db : Db) → RevokesRemembered db → RevokesRemembered (purge_one id db)
unfolding purge_one
purge_one-Remembered id db h =
    All-keep_imp (IsRemembered db.jobs) (IsRemembered db.jobs)
      (λ k. not (k.owner_id == id && same_state k.state revoked)) db.keys (λ k e old. old) h

pub disable_and_revoke-Remembered :
    (fresh : ℕ → ℕ) (now id : ℕ) (db : Db)
    → RevokesRemembered db
    → RevokesRemembered (disable_and_revoke fresh now id db)
unfolding disable_and_revoke
disable_and_revoke-Remembered fresh now id db h =
    revoke_where-Remembered fresh now (λ k. k.owner_id == id && is_swept k.state)
      (disable_user now id db) h

branch-Remembered :
    (b : Bool) (x y : Deactivation)
    → RevokesRemembered x.db
    → RevokesRemembered y.db
    → RevokesRemembered (if b then x else y).db
branch-Remembered true x y h k = h
branch-Remembered false x y h k = k

pub deactivate-Remembered :
    (fresh : ℕ → ℕ → ℕ) (now : ℕ) (spared : String → Bool) (us : List User) (d : Deactivation)
    → RevokesRemembered d.db
    → RevokesRemembered (deactivate fresh now spared us d).db
unfolding deactivate
deactivate-Remembered fresh now spared [] d h = h
deactivate-Remembered fresh now spared (u ∷ us) d h =
    deactivate-Remembered fresh now spared us
      (if spared u.email
        then d
        else if is_admin u.role
        then record d { skipped_admins = d.skipped_admins ++ u.email ∷ [] }
        else record {
          deactivated = d.deactivated ++ u.email ∷ [];
          skipped_admins = d.skipped_admins;
          db = disable_and_revoke (fresh u.id) now u.id d.db;
        })
      (branch-Remembered (spared u.email) d _ h (
        branch-Remembered (is_admin u.role)
          (record d { skipped_admins = d.skipped_admins ++ u.email ∷ [] })
          (record {
            deactivated = d.deactivated ++ u.email ∷ [];
            skipped_admins = d.skipped_admins;
            db = disable_and_revoke (fresh u.id) now u.id d.db;
          })
          h (disable_and_revoke-Remembered (fresh u.id) now u.id d.db h)))

pub purge_each-Remembered :
    (us : List User) (db : Db) → RevokesRemembered db → RevokesRemembered (purge_each us db)
unfolding purge_each
purge_each-Remembered [] db h = h
purge_each-Remembered (u ∷ us) db h = purge_each-Remembered us _ (purge_one-Remembered u.id db h)

pub arm_access_sync-Remembered :
    (id arm_id now : ℕ) (db : Db)
    → RevokesRemembered db
    → RevokesRemembered (arm_access_sync id arm_id now db)
unfolding arm_access_sync rearm restart_if_ended
arm_access_sync-Remembered id arm_id now db h =
    elim (Bool-cases (any (λ j. is_access_sync j.dedup) db.jobs)) [
      | inl e ↦
          rw (e, arm_access_sync)
            (All-imp (IsRemembered db.jobs)
              (IsRemembered
                (update_where (λ j. is_access_sync j.dedup) (rearm arm_id (now + 10_000)) db.jobs))
              db.keys
              (λ k old s.
                any-update_where (is_open_revoke k.id) (λ j. is_access_sync j.dedup)
                  (rearm arm_id (now + 10_000)) db.jobs (λ x o. ground arith) (old s))
              h)
      | inr e ↦ rw (e, arm_access_sync) (append-Remembered db.keys db.jobs _ h)
    ]

offboard-Remembered :
    (fresh : ℕ → ℕ) (now actor id : ℕ) (found : Option User) (db : Db)
    → RevokesRemembered db
    → RevokesRemembered (committed (offboard fresh now actor id found db) db)
unfolding offboard
offboard-Remembered fresh now actor id none db h = h
offboard-Remembered fresh now actor id (some target) db h =
    let after =
      arm_access_sync-Remembered (fresh 0) (fresh 1) now
        (revoke_where (λ n. fresh (n + 2)) now (λ k. k.owner_id == id && is_revocable k.state)
          (disable_user now id db))
        (revoke_where-Remembered (λ n. fresh (n + 2)) now
          (λ k. k.owner_id == id && is_revocable k.state) (disable_user now id db) h) in
    elim (Bool-cases (actor == id)) [
      | inl e ↦ rw (e, offboard) h
      | inr e ↦
          elim (Bool-cases (
            is_admin target.role
            && is_enabled target.status
            && leb (length (active_admins db)) 1)) [
              | inl f ↦ rw (e, f, offboard) h
              | inr f ↦ rw (e, f, offboard) after
            ]
    ]

pub offboard_user-Remembered :
    (fresh : ℕ → ℕ) (now actor id : ℕ) (db : Db)
    → RevokesRemembered db
    → RevokesRemembered (committed (offboard_user fresh now actor id db) db)
unfolding offboard_user
offboard_user-Remembered fresh now actor id db h =
    offboard-Remembered fresh now actor id (first (λ u. u.id == id) db.users) db h

pub reinstate_user-Remembered :
    (fresh : ℕ → ℕ) (now id : ℕ) (db : Db)
    → RevokesRemembered db
    → RevokesRemembered (committed (reinstate_user fresh now id db) db)
unfolding reinstate_user
reinstate_user-Remembered fresh now id db h = elim (Bool-cases (any (λ u. u.id == id) db.users)) [
  | inl e ↦
      rw (e, reinstate_user)
        (arm_access_sync-Remembered (fresh 0) (fresh 1) now
          (record db {
            users =
                update_where (λ u. u.id == id)
                  (λ u. record u { status = enabled_user; disabled_at = none }) db.users;
          })
          h)
  | inr e ↦ rw (e, reinstate_user) h
]

remove-Remembered :
    (id : ℕ) (found : Option User) (db : Db)
    → RevokesRemembered db
    → RevokesRemembered (committed (remove id found db) db)
unfolding remove
remove-Remembered id none db h = h
remove-Remembered id (some target) db h = elim (Bool-cases (is_enabled target.status)) [
  | inl e ↦ rw (e, remove) h
  | inr e ↦ elim (Bool-cases (has_live_keys id db)) [
    | inl f ↦ rw (e, f, remove) h
    | inr f ↦ rw (e, f, remove) (purge_one-Remembered id db h)
  ]
]

pub delete_user-Remembered :
    (id : ℕ) (db : Db) → RevokesRemembered db → RevokesRemembered (committed (delete_user id db) db)
unfolding delete_user
delete_user-Remembered id db h = remove-Remembered id (first (λ u. u.id == id) db.users) db h
