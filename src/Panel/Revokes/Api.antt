-- ===== src/Panel/Revokes/Api.antt =====
-- Owners' and administrators' operations on keys, for keys that wait to be revoked.
use amnezia_shared_panel.Base.{
  ℕ, ◌≡◌, refl, Bool, true, false, ◌&&◌, not, List, [], ◌∷◌, ◌++◌, arith, any, keep, Option, none,
  some, ◌==◌, Bool-cases, inl, inr, first, ◌≢◌,
}
use amnezia_shared_panel.Keys.{
  KeyState, active, failed, revoking, revoked, provisioning, disabled, is_rotatable, is_revocable,
  is_purgeable,
}
use amnezia_shared_panel.Panel.{
  Db, Key, Job, update_where, is_some_of, err, committed, new_job, AuditAction, RouteProfile,
  full_tunnel, ru_blacklist, add_jobs, rotate, attempt_of, DedupKey, rotate_requested,
  rotation_not_applicable,
}
use amnezia_shared_panel.Panel.Rows.{
  any-append_left, any-append_right, any-keep, All-keep_imp, All-update_where,
}
use amnezia_shared_panel.Panel.Revokes.{
  RevokesRemembered, IsRemembered, is_open_revoke, append-Remembered, set_keys-Remembered,
}
use amnezia_shared_panel.Panel.Revokes.Sweeps.{revoke_where-Remembered}
use amnezia_shared_panel.Panel.Outbox.{set_keys}
use amnezia_shared_panel.Panel.Owners.{
  enqueue_own_revoke, is_own, queue_key_rotate, enqueue_own_rotate, reissue, rotate_key,
  rotate_rows,
}
use amnezia_shared_panel.Panel.Admin.{
  KeyAction, to_disable, to_enable, to_revoke, target_state, job_of, admin_key_action, is_no_op,
  is_allowed, act, purge_key, purge, purge_rows,
}

pub enqueue_own_revoke-Remembered :
    (fresh : ℕ → ℕ) (now : ℕ) (allowed : Bool) (actor key_id : ℕ) (db : Db)
    → RevokesRemembered db
    → RevokesRemembered (committed (enqueue_own_revoke fresh now allowed actor key_id db) db)
unfolding enqueue_own_revoke
enqueue_own_revoke-Remembered fresh now false actor key_id db h = h
enqueue_own_revoke-Remembered fresh now true actor key_id db h =
    let mine = λ (k : Key). is_own actor key_id k && is_revocable k.state in
    elim (Bool-cases (any mine db.keys)) [
      | inl e ↦ rw (e, enqueue_own_revoke) (revoke_where-Remembered fresh now mine db h)
      | inr e ↦ rw (e, enqueue_own_revoke) h
    ]

-- Keys moved to another state than `revoking`, and more jobs.
moved-Remembered :
    (p : Key → Bool) (f : Key → Key) (js : List Job) (db : Db)
    → ((k : Key) → (f k).id ≡ k.id)
    → ((k : Key) → p k ≡ true → (f k).state ≢ revoking)
    → RevokesRemembered db
    → RevokesRemembered (add_jobs js (set_keys p f db))
moved-Remembered p f js db same away h =
    append-Remembered (update_where p f db.keys) db.jobs js
      (set_keys-Remembered p f db same (λ k e s. absurd (away k e s)) h)

rotate_rows-Remembered :
    (active_rule : RouteProfile → Option ℕ) (fresh : ℕ → ℕ) (now key_id : ℕ) (action : AuditAction)
    (db : Db)
    → RevokesRemembered db
    → RevokesRemembered (rotate_rows active_rule fresh now key_id action db)
unfolding rotate_rows
rotate_rows-Remembered active_rule fresh now key_id action db h =
    moved-Remembered (λ k. k.id == key_id) (reissue active_rule)
      (new_job (fresh 0) now rotate (attempt_of rotate key_id (fresh 1)) key_id ∷ []) db (λ k. refl)
      (λ k e. ground arith) h

pub queue_key_rotate-Remembered :
    (active_rule : RouteProfile → Option ℕ) (fresh : ℕ → ℕ) (now key_id : ℕ) (state : KeyState)
    (action : AuditAction) (db : Db)
    → RevokesRemembered db
    → RevokesRemembered
        (committed (queue_key_rotate active_rule fresh now key_id state action db) db)
unfolding queue_key_rotate is_rotatable
queue_key_rotate-Remembered active_rule fresh now key_id provisioning action db h = h
queue_key_rotate-Remembered active_rule fresh now key_id disabled action db h = h
queue_key_rotate-Remembered active_rule fresh now key_id revoking action db h = h
queue_key_rotate-Remembered active_rule fresh now key_id revoked action db h = h
queue_key_rotate-Remembered active_rule fresh now key_id active action db h =
    rotate_rows-Remembered active_rule fresh now key_id action db h
queue_key_rotate-Remembered active_rule fresh now key_id failed action db h =
    rotate_rows-Remembered active_rule fresh now key_id action db h

rotate_key-Remembered :
    (active_rule : RouteProfile → Option ℕ) (fresh : ℕ → ℕ) (now key_id : ℕ) (found : Option Key)
    (db : Db)
    → RevokesRemembered db
    → RevokesRemembered (committed (rotate_key active_rule fresh now key_id found db) db)
unfolding rotate_key
rotate_key-Remembered active_rule fresh now key_id none db h = h
rotate_key-Remembered active_rule fresh now key_id (some k) db h =
    elim k.route_profile
      as (λ r. RevokesRemembered (
        committed
          (elim r [
            | full_tunnel ↦ err rotation_not_applicable
            | ru_blacklist ↦
                queue_key_rotate active_rule fresh now key_id k.state rotate_requested db
          ])
          db)) [
            | full_tunnel ↦ h
            | ru_blacklist ↦
                queue_key_rotate-Remembered active_rule fresh now key_id k.state rotate_requested db
                  h
          ]

pub enqueue_own_rotate-Remembered :
    (active_rule : RouteProfile → Option ℕ) (fresh : ℕ → ℕ) (now actor key_id : ℕ) (db : Db)
    → RevokesRemembered db
    → RevokesRemembered (committed (enqueue_own_rotate active_rule fresh now actor key_id db) db)
unfolding enqueue_own_rotate
enqueue_own_rotate-Remembered active_rule fresh now actor key_id db h =
    rotate_key-Remembered active_rule fresh now key_id (first (is_own actor key_id) db.keys) db h

purge_rows-Remembered :
    (key_id : ℕ) (db : Db) → RevokesRemembered db → RevokesRemembered (purge_rows key_id db)
unfolding purge_rows
purge_rows-Remembered key_id db h =
    All-keep_imp (IsRemembered db.jobs)
      (IsRemembered (keep (λ j. not (is_some_of j.key_id key_id)) db.jobs))
      (λ k. not (k.id == key_id)) db.keys
      (λ k e old s.
        let apart : k.id ≢ key_id = ground arith in
        any-keep (is_open_revoke k.id) (λ j. not (is_some_of j.key_id key_id)) db.jobs
          (λ j o. ground arith) (old s))
      h

purge-Remembered :
    (key_id : ℕ) (found : Option Key) (db : Db)
    → RevokesRemembered db
    → RevokesRemembered (committed (purge key_id found db) db)
unfolding purge
purge-Remembered key_id none db h = h
purge-Remembered key_id (some k) db h = elim (Bool-cases (is_purgeable k.state)) [
  | inl e ↦ rw (e, purge) (purge_rows-Remembered key_id db h)
  | inr e ↦ rw (e, purge) h
]

pub purge_key-Remembered :
    (key_id : ℕ) (db : Db)
    → RevokesRemembered db
    → RevokesRemembered (committed (purge_key key_id db) db)
unfolding purge_key
purge_key-Remembered key_id db h =
    purge-Remembered key_id (first (λ k. k.id == key_id) db.keys) db h

act_job :
    (id now : ℕ) (dedup : DedupKey) (action : KeyAction) (key_id k : ℕ)
    → target_state action ≡ revoking
    → (k == key_id) ≡ true
    → any (is_open_revoke k) (new_job id now (job_of action) dedup key_id ∷ []) ≡ true
act_job id now dedup to_disable key_id k h e = absurd (ground arith)
act_job id now dedup to_enable key_id k h e = absurd (ground arith)
act_job id now dedup to_revoke key_id k h e = ground arith

act-Remembered :
    (fresh : ℕ → ℕ) (now : ℕ) (action : KeyAction) (key_id : ℕ) (found : Option Key) (db : Db)
    → RevokesRemembered db
    → RevokesRemembered (committed (act fresh now action key_id found db) db)
unfolding act
act-Remembered fresh now action key_id none db h = h
act-Remembered fresh now action key_id (some current) db h =
    elim (Bool-cases (is_no_op action current.state)) [
      | inl e ↦ rw (e, act) h
      | inr e ↦ elim (Bool-cases (is_allowed action current.state)) [
        | inl f ↦
            rw (e, f, act)
              (All-update_where (IsRemembered db.jobs)
                (IsRemembered (
                  db.jobs
                  ++ new_job (fresh 0) now (job_of action)
                      (attempt_of (job_of action) key_id (fresh 1)) key_id
                    ∷ []))
                (λ k. k.id == key_id) (λ k. record k { state = target_state action }) db.keys
                (λ k e old s.
                  any-append_right (is_open_revoke k.id) db.jobs
                    (new_job (fresh 0) now (job_of action)
                        (attempt_of (job_of action) key_id (fresh 1)) key_id
                      ∷ [])
                    (act_job (fresh 0) now (attempt_of (job_of action) key_id (fresh 1)) action
                      key_id k.id s e))
                (λ k e old s.
                  any-append_left (is_open_revoke k.id) db.jobs
                    (new_job (fresh 0) now (job_of action)
                        (attempt_of (job_of action) key_id (fresh 1)) key_id
                      ∷ [])
                    (old s))
                h)
        | inr f ↦ rw (e, f, act) h
      ]
    ]

pub admin_key_action-Remembered :
    (fresh : ℕ → ℕ) (now : ℕ) (action : KeyAction) (key_id : ℕ) (db : Db)
    → RevokesRemembered db
    → RevokesRemembered (committed (admin_key_action fresh now action key_id db) db)
unfolding admin_key_action
admin_key_action-Remembered fresh now action key_id db h =
    act-Remembered fresh now action key_id (first (λ k. k.id == key_id) db.keys) db h
