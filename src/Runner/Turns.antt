-- ===== src/Runner/Turns.antt =====
-- What a turn of a loop guarantees.
use native.Mathlib.Nat.{one-le-pow, pow-le-pow_right}
use amnezia_shared_panel.Base.{
  ℕ, ◌+◌, ◌^◌, min, ◌≤◌, ◌<◌, ◌≡◌, refl, Bool, true, false, List, [], ◌∷◌, Option, none, some, leb,
  arith, All, length, Bool-cases, inl, inr,
}
use amnezia_shared_panel.Panel.{Db, Job, Reason, pending, failed_job}
use amnezia_shared_panel.Panel.Rows.{updated}
use amnezia_shared_panel.Panel.Outbox.{
  retry_job, fail_job, retry_delay, set_job, fail_key, payload_key, clean_reason, mark_failed,
  job_attempts,
}
use amnezia_shared_panel.Runner.{
  IntervalSource, fixed, resolver, Resolved, throws, no_period, answers, resolve_interval,
  waits_from, run_periodic_task, first_resolved, handle_error,
}

waits-positive :
    (source : IntervalSource) (last : ℕ) (more : List Resolved)
    → 0 < first_resolved source
    → 0 < last
    → All (λ w. 0 < w) (waits_from source last more)
      × (length (waits_from source last more) ≡ length more)
unfolding waits_from resolve_interval
waits-positive source last [] h k = (tt, refl)
waits-positive (fixed ms) last (answer ∷ more) h k =
    let later = waits-positive (fixed ms) last more h k in ((h, later.0), ground (arith, later.1))
waits-positive resolver last (throws ∷ more) h k =
    let later = waits-positive resolver last more h k in ((k, later.0), ground (arith, later.1))
waits-positive resolver last (no_period ∷ more) h k =
    let later = waits-positive resolver last more h k in ((k, later.0), ground (arith, later.1))
waits-positive resolver last (answers ms ∷ more) h k = elim (Bool-cases (leb ms 0)) [
  | inl e ↦
      let later = waits-positive resolver last more h k in
      rw (e, waits_from, resolve_interval) ((k, later.0), ground (arith, later.1))
  | inr e ↦
      let later = waits-positive resolver ms more h (ground arith) in
      rw (e, waits_from, resolve_interval) ((ground arith, later.0), ground (arith, later.1))
]

-- If the period that is resolved first is positive, the loop never waits zero milliseconds, whatever
-- the resolver does, and waits once for each turn.
run_periodic_task-positive :
    (source : IntervalSource) (more : List Resolved)
    → 0 < first_resolved source
    → All (λ w. 0 < w) (run_periodic_task source more)
      × (length (run_periodic_task source more) ≡ length more)
unfolding run_periodic_task
run_periodic_task-positive source more h = waits-positive source (first_resolved source) more h h

-- A retry waits between one second and 256 seconds.
retry_delay-bounds : (attempts : ℕ) → (1 ≤ retry_delay attempts) × (retry_delay attempts ≤ 256)
unfolding retry_delay
retry_delay-bounds attempts =
    let least : 1 ≤ 2 ^ min attempts 8 = one-le-pow (min attempts 8) 2 (omega arith) in
    let most : 2 ^ min attempts 8 ≤ 2 ^ 8 =
      pow-le-pow_right {n = 2} (omega arith) {i = min attempts 8} {j = 8} (omega arith) in
    (omega arith, omega arith)

-- How a job whose handler threw ends: failed if its attempts are used up, or waiting for a time
-- one to 256 seconds ahead.
abbrev pub HasEnded : Bool → ℕ → Job → Type 0
HasEnded true now j = j.status ≡ failed_job
HasEnded false now j =
    (j.status ≡ pending) × (now + 1_000 ≤ j.available_at) × (j.available_at ≤ now + 256_000)

pub fail_key-jobs :
    (key_id : Option ℕ) (reason : Reason) (db : Db) → (fail_key key_id reason db).jobs ≡ db.jobs
fail_key-jobs none reason db = refl
fail_key-jobs (some key_id) reason db = refl

fail_job-ended :
    (now id : ℕ) (reason : Reason) (db : Db)
    → All (λ j. j.id ≡ id → HasEnded true now j) (fail_job id reason db).jobs
unfolding fail_job
fail_job-ended now id reason db =
    rw
      (fail_key-jobs (payload_key id db.jobs) (clean_reason reason)
        (set_job id (mark_failed (clean_reason reason)) db))
      (updated (λ j. j.id) (λ j. HasEnded true now j) id (mark_failed (clean_reason reason)) db.jobs
        (λ j. refl) (λ j. refl))

retry_job-ended :
    (now id : ℕ) (reason : Reason) (db : Db)
    → All (λ j. j.id ≡ id → HasEnded false now j) (retry_job now id reason db).jobs
unfolding retry_job
retry_job-ended now id reason db =
    let bounds = retry_delay-bounds (job_attempts id db.jobs) in
    updated (λ j. j.id) (λ j. HasEnded false now j) id _ db.jobs (λ j. refl)
      (λ j. (refl, omega arith, omega arith))

-- A job whose handler throws never stays claimed: after the turn it has failed if the attempt was
-- the last one allowed, and otherwise it waits for a retry one to 256 seconds ahead.
pub handle_error-ends :
    (max_attempts now : ℕ) (job : Job) (reason : Reason) (db : Db)
    → All
        (λ j. j.id ≡ job.id → HasEnded (leb max_attempts job.attempts) now j)
        (handle_error max_attempts now job reason db).jobs
unfolding handle_error
handle_error-ends max_attempts now job reason db =
    elim (Bool-cases (leb max_attempts job.attempts)) [
      | inl e ↦ rw (e, handle_error) (fail_job-ended now job.id reason db)
      | inr e ↦ rw (e, handle_error) (retry_job-ended now job.id reason db)
    ]
