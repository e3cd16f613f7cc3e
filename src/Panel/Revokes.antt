-- ===== src/Panel/Revokes.antt =====
-- No delete is forgotten: a key that waits to be revoked has a revoke job that is not completed.
-- The worker's operations are here; the control API's and the whole system are below.
pub mod Sweeps
pub mod Api
pub mod Accounts
pub mod Creation
pub mod Others
use amnezia_shared_panel.Base.{
  or_else, ℕ, ◌+◌, ◌≡◌, refl, Bool, true, false, ◌&&◌, not, List, [], ◌∷◌, ◌++◌, arith, any, keep,
  All, Option, none, some, ◌==◌, String, Bool-cases, Option-cases, inl, inr, ◌≢◌,
}
use amnezia_shared_panel.Keys.{KeyState, revoking, provisioning}
use amnezia_shared_panel.Panel.{
  Db, Key, Job, completed, same_status, same_type, revoke, update_where, Reason,
}
use amnezia_shared_panel.Panel.Rows.{
  any-update_where, any-update_where_off, any-append_left, any-append_right, any-keep, All-imp,
  All-update_where, All-and, none_passes,
}
use amnezia_shared_panel.Panel.Outbox.{
  is_revoke_of, set_job, set_keys, claim_job, retry_job, fail_job, complete_job, complete_provision,
  complete_lifecycle, revoke_jobs, rearm_stuck_revokes, delete_completed_jobs_before, next_job,
  payload_key, fail_key, mark_failed, clean_reason, in_state, give_up, note_failure, finish,
  provisioned, enter,
}
use amnezia_shared_panel.Panel.Accounts.{revoke_where}

-- A revoke job of the key that is not completed.
abbrev pub is_open_revoke : ℕ → Job → Bool
is_open_revoke key_id j = is_revoke_of key_id j && not (same_status j.status completed)

abbrev pub IsRemembered : List Job → Key → Type 0
IsRemembered jobs k = k.state ≡ revoking → any (is_open_revoke k.id) jobs ≡ true

-- Every key in `revoking` has an open revoke job.
abbrev pub RevokesRemembered : Db → Type 0
RevokesRemembered db = All (IsRemembered db.jobs) db.keys

-- A change of jobs that keeps each open revoke job open.
pub set_job-Remembered :
    (id : ℕ) (f : Job → Job) (db : Db)
    → ((key_id : ℕ) (j : Job) → is_open_revoke key_id j ≡ true → is_open_revoke key_id (f j) ≡ true)
    → RevokesRemembered db
    → RevokesRemembered (set_job id f db)
set_job-Remembered id f db keeps h =
    All-imp (IsRemembered db.jobs) (IsRemembered (set_job id f db).jobs) db.keys
      (λ k old s.
        any-update_where (is_open_revoke k.id) (λ j. j.id == id) f db.jobs (keeps k.id) (old s))
      h

pub append-Remembered :
    (keys : List Key) (jobs more : List Job)
    → All (IsRemembered jobs) keys
    → All (IsRemembered (jobs ++ more)) keys
append-Remembered keys jobs more h =
    All-imp (IsRemembered jobs) (IsRemembered (jobs ++ more)) keys
      (λ k old s. any-append_left (is_open_revoke k.id) jobs more (old s)) h

-- A change of keys that moves none into `revoking`.
pub set_keys-Remembered :
    (p : Key → Bool) (f : Key → Key) (db : Db)
    → ((k : Key) → (f k).id ≡ k.id)
    → ((k : Key) → p k ≡ true → (f k).state ≡ revoking → k.state ≡ revoking)
    → RevokesRemembered db
    → RevokesRemembered (set_keys p f db)
set_keys-Remembered p f db same moves h =
    All-update_where (IsRemembered db.jobs) (IsRemembered db.jobs) p f db.keys
      (λ k e old s. rw (same k) (old (moves k e s))) (λ k e old. old) h

pub claim_job-Remembered :
    (lease now : ℕ) (db : Db) → RevokesRemembered db → RevokesRemembered (claim_job lease now db).1
unfolding claim_job
claim_job-Remembered lease now db h = elim (Option-cases (next_job lease now db.jobs)) [
  | inl empty ↦ rw (empty, claim_job) h
  | inr (j, found) ↦
      rw (found, claim_job) (set_job-Remembered j.id _ db (λ key_id x o. ground arith) h)
]

pub retry_job-Remembered :
    (now id : ℕ) (reason : Reason) (db : Db)
    → RevokesRemembered db
    → RevokesRemembered (retry_job now id reason db)
unfolding retry_job
retry_job-Remembered now id reason db h = set_job-Remembered id _ db (λ key_id x o. ground arith) h

fail_key-Remembered :
    (key_id : Option ℕ) (reason : Reason) (db : Db)
    → RevokesRemembered db
    → RevokesRemembered (fail_key key_id reason db)
fail_key-Remembered none reason db h = h
fail_key-Remembered (some key_id) reason db h =
    let first_half =
      set_keys-Remembered (in_state key_id provisioning) (give_up reason) db (λ k. refl)
        (λ k e s. cc) h in
    set_keys-Remembered (in_state key_id revoking) (note_failure reason)
      (set_keys (in_state key_id provisioning) (give_up reason) db) (λ k. refl) (λ k e s. s)
      first_half

pub fail_job-Remembered :
    (id : ℕ) (reason : Reason) (db : Db)
    → RevokesRemembered db
    → RevokesRemembered (fail_job id reason db)
unfolding fail_job
fail_job-Remembered id reason db h =
    fail_key-Remembered (payload_key id db.jobs) (clean_reason reason)
      (set_job id (mark_failed (clean_reason reason)) db)
      (set_job-Remembered id (mark_failed (clean_reason reason)) db (λ key_id x o. ground arith) h)

-- Changing a job that does not revoke the key leaves the key's open revoke jobs open.
touched_open :
    (f : Job → Job) (job_id : ℕ) (jobs : List Job) (k : Key)
    → All (λ j. j.id ≡ job_id → is_revoke_of k.id j ≡ false) jobs
    → any (is_open_revoke k.id) jobs ≡ true
    → any (is_open_revoke k.id) (update_where (λ j. j.id == job_id) f jobs) ≡ true
touched_open f job_id jobs k h o =
    any-update_where_off (is_open_revoke k.id) (λ j. j.id == job_id) f jobs
      (All-imp (λ j. j.id ≡ job_id → is_revoke_of k.id j ≡ false)
        (λ j. is_open_revoke k.id j ≡ true → (j.id == job_id) ≡ false) jobs
        (λ j none_of p. ground (arith, none_of)) h)
      o

-- The row of the outbox with this id is no revoke job.
abbrev pub IsOtherJob : ℕ → Db → Type 0
IsOtherJob job_id db = All (λ j. j.id ≡ job_id → same_type j.type revoke ≡ false) db.jobs

-- The row of the outbox with this id is a job of this key.
abbrev pub IsJobOf : ℕ → ℕ → Db → Type 0
IsJobOf job_id key_id db = All (λ j. j.id ≡ job_id → j.key_id ≡ some key_id) db.jobs

pub other_job-Remembered :
    (f : Job → Job) (job_id : ℕ) (db : Db)
    → IsOtherJob job_id db
    → RevokesRemembered db
    → RevokesRemembered (set_job job_id f db)
other_job-Remembered f job_id db other h =
    All-imp (IsRemembered db.jobs) (IsRemembered (set_job job_id f db).jobs) db.keys
      (λ k old s.
        touched_open f job_id db.jobs k
          (All-imp (λ j. j.id ≡ job_id → same_type j.type revoke ≡ false)
            (λ j. j.id ≡ job_id → is_revoke_of k.id j ≡ false) db.jobs (λ j o e. ground (arith, o))
            other)
          (old s))
      h

pub complete_job-Remembered :
    (now job_id : ℕ) (db : Db)
    → IsOtherJob job_id db
    → RevokesRemembered db
    → RevokesRemembered (complete_job now job_id db)
unfolding complete_job
complete_job-Remembered now job_id db other h = other_job-Remembered (finish now) job_id db other h

-- A job of another key.
apart_open :
    (now job_id key_id : ℕ) (db : Db) (k : Key)
    → IsJobOf job_id key_id db
    → (k.id == key_id) ≡ false
    → any (is_open_revoke k.id) db.jobs ≡ true
    → any (is_open_revoke k.id) (update_where (λ j. j.id == job_id) (finish now) db.jobs) ≡ true
apart_open now job_id key_id db k of_key e o =
    let apart : k.id ≢ key_id = ground arith in
    touched_open (finish now) job_id db.jobs k
      (All-imp (λ j. j.id ≡ job_id → j.key_id ≡ some key_id)
        (λ j. j.id ≡ job_id → is_revoke_of k.id j ≡ false) db.jobs
        (λ j o p. let of_other : j.key_id ≡ some key_id = o p in ground arith) of_key)
      o

-- The job of a key whose row is gone.
pub complete_gone-Remembered :
    (now job_id key_id : ℕ) (db : Db)
    → IsJobOf job_id key_id db
    → any (λ k. k.id == key_id) db.keys ≡ false
    → RevokesRemembered db
    → RevokesRemembered (complete_job now job_id db)
unfolding complete_job
complete_gone-Remembered now job_id key_id db of_key gone h =
    All-imp (λ k. IsRemembered db.jobs k × ((k.id == key_id) ≡ false))
      (IsRemembered (update_where (λ j. j.id == job_id) (finish now) db.jobs)) db.keys
      (λ k old s. apart_open now job_id key_id db k of_key old.1 (old.0 s))
      (All-and (IsRemembered db.jobs) (λ k. (k.id == key_id) ≡ false) db.keys h
        (none_passes (λ k. k.id == key_id) db.keys gone))

pub complete_provision-Remembered :
    (now job_id key_id : ℕ) (public_key : String) (db : Db)
    → IsOtherJob job_id db
    → RevokesRemembered db
    → RevokesRemembered (or_else (complete_provision now job_id key_id public_key db) db)
unfolding complete_provision complete_job
complete_provision-Remembered now job_id key_id public_key db other h =
    elim (Bool-cases (any (in_state key_id provisioning) db.keys)) [
      | inl waits ↦
          rw (waits, complete_provision)
            (complete_job-Remembered now job_id
              (set_keys (in_state key_id provisioning) (provisioned public_key) db) other
              (set_keys-Remembered (in_state key_id provisioning) (provisioned public_key) db
                (λ k. refl) (λ k p s. cc) h))
      | inr gone ↦ rw (gone, complete_provision) h
    ]

pub complete_lifecycle-Remembered :
    (now job_id key_id : ℕ) (state : KeyState) (db : Db)
    → IsJobOf job_id key_id db
    → state ≢ revoking
    → RevokesRemembered db
    → RevokesRemembered (complete_lifecycle now job_id key_id state db)
unfolding complete_lifecycle
complete_lifecycle-Remembered now job_id key_id state db of_key settled h =
    All-update_where (IsRemembered db.jobs)
      (IsRemembered (update_where (λ j. j.id == job_id) (finish now) db.jobs)) (λ k. k.id == key_id)
      (enter now state) db.keys (λ k e old s. absurd (settled s))
      (λ k e old s. apart_open now job_id key_id db k of_key e (old s)) h
