-- ===== src/Panel/Outbox.antt =====
-- The worker's half of the outbox: apps/worker/src/postgresRepository.ts. Each function is one
-- transaction, from the rows before it to the rows after it. The encrypted config that
-- `completeProvision` stores beside the public key is not modelled.
use amnezia_shared_panel.Base.{
  ℕ, ◌+◌, ◌*◌, ◌^◌, min, Bool, true, false, not, ◌&&◌, ◌||◌, List, [], ◌∷◌, ◌++◌, Option, none,
  some, String, if◌then◌else◌, ◌==◌, ltb, leb, any, first, take, length, keep,
}
use amnezia_shared_panel.Keys.{
  KeyState, same_state, provisioning, active, revoking, revoked, failed,
}
use amnezia_shared_panel.Panel.{
  Db, Key, Node, Job, Reason, pending, processing, completed, failed_job, same_status, same_type,
  update_where, is_some_of, new_job, attempt_of, revoke, Audit, revoke_rearmed, singleton,
  rules_refresh, access_sync, DedupKey,
}

-- cleanReason: runs of line breaks and tabs become one space, and 2,000 characters stay.
abbrev is_break : ℕ → Bool
is_break c = c == 10 || c == 13 || c == 9

collapse : Bool → Reason → Reason
collapse in_run [] = []
collapse in_run (c ∷ cs) =
    let rest = collapse (is_break c) cs in
    if is_break c then if in_run then rest else b' ' ∷ rest else c ∷ rest

unfoldable pub clean_reason : Reason → Reason
unfolding collapse
clean_reason r = take 2_000 (collapse false r)

-- Whether the lease of the worker that holds a job ran out.
abbrev pub lease_expired : ℕ → ℕ → Option ℕ → Bool
lease_expired lease now none = true
lease_expired lease now (some t) = leb (t + lease) now

-- Whether a job may be claimed: it is due, or its lease ran out.
unfoldable pub is_claimable : ℕ → ℕ → Job → Bool
is_claimable lease now j =
    (same_status j.status pending && leb j.available_at now)
    || (same_status j.status processing && lease_expired lease now j.locked_at)

-- ORDER BY available_at, created_at
abbrev pub comes_before : Job → Job → Bool
comes_before a b =
    ltb a.available_at b.available_at
    || (a.available_at == b.available_at && ltb a.created_at b.created_at)

abbrev pub sooner : Job → Option Job → Job
sooner a none = a
sooner a (some b) = if comes_before b a then b else a

-- The first claimable row in that order.
unfoldable pub next_job : ℕ → ℕ → List Job → Option Job
unfolding is_claimable
next_job lease now [] = none
next_job lease now (j ∷ js) =
    if is_claimable lease now j
    then some (sooner j (next_job lease now js))
    else next_job lease now js

abbrev pub set_job : ℕ → (Job → Job) → Db → Db
set_job id f db = record db { jobs = update_where (λ j. j.id == id) f db.jobs }

abbrev pub claim : ℕ → Job → Job
claim now j = record j { status = processing; attempts = j.attempts + 1; locked_at = some now }

unfoldable pub claim_job : ℕ → ℕ → Db → Option Job × Db
unfolding next_job
claim_job lease now db = elim (next_job lease now db.jobs) [
  | none ↦ (none, db)
  | some j ↦ (some (claim now j), set_job j.id (claim now) db)
]

abbrev pub finish : ℕ → Job → Job
finish now j = record j {
  status = completed;
  completed_at = some now;
  locked_at = none;
  last_error = none;
}

unfoldable pub complete_job : ℕ → ℕ → Db → Db
complete_job now id db = set_job id (finish now) db

-- The seconds before the next attempt.
unfoldable pub retry_delay : ℕ → ℕ
retry_delay attempts = min 300 (2 ^ min attempts 8)

abbrev pub job_attempts : ℕ → List Job → ℕ
job_attempts id jobs = elim (first (λ j. j.id == id) jobs) [ none ↦ 1 | some j ↦ j.attempts ]

unfoldable pub retry_job : ℕ → ℕ → Reason → Db → Db
unfolding retry_delay clean_reason
retry_job now id reason db =
    let delay = retry_delay (job_attempts id db.jobs) in
    set_job id
      (λ j. record j {
        status = pending;
        available_at = now + delay * 1_000;
        locked_at = none;
        last_error = some (clean_reason reason);
      })
      db

abbrev pub set_keys : (Key → Bool) → (Key → Key) → Db → Db
set_keys p f db = record db { keys = update_where p f db.keys }

abbrev pub in_state : ℕ → KeyState → Key → Bool
in_state id s k = k.id == id && same_state k.state s

abbrev pub payload_key : ℕ → List Job → Option ℕ
payload_key id jobs = elim (first (λ j. j.id == id) jobs) [ none ↦ none | some j ↦ j.key_id ]

abbrev pub give_up : Reason → Key → Key
give_up reason k = record k { state = failed; failure_reason = some reason }

abbrev pub note_failure : Reason → Key → Key
note_failure reason k = record k { failure_reason = some reason }

-- The key of a job that failed for good: only a provisioning key becomes failed.
abbrev pub fail_key : Option ℕ → Reason → Db → Db
fail_key none reason db = db
fail_key (some key_id) reason db =
    set_keys (in_state key_id revoking) (note_failure reason)
      (set_keys (in_state key_id provisioning) (give_up reason) db)

abbrev pub mark_failed : Reason → Job → Job
mark_failed reason j = record j { status = failed_job; locked_at = none; last_error = some reason }

unfoldable pub fail_job : ℕ → Reason → Db → Db
unfolding clean_reason
fail_job id reason db = fail_key (payload_key id db.jobs) (clean_reason reason) (
    set_job id
      (λ j. record j {
        status = failed_job;
        locked_at = none;
        last_error = some (clean_reason reason);
      })
      db)

abbrev pub provisioned : String → Key → Key
provisioned public_key k = record k {
  public_key = some public_key;
  state = active;
  failure_reason = none;
}

-- `none` is the error that rolls the transaction back: the key left `provisioning` meanwhile.
unfoldable pub complete_provision : ℕ → ℕ → ℕ → String → Db → Option Db
complete_provision now job_id key_id public_key db =
    let waits = in_state key_id provisioning in
    if any waits db.keys
    then some (set_job job_id (finish now) (set_keys waits (provisioned public_key) db))
    else none

abbrev pub revoked_time : ℕ → KeyState → Option ℕ → Option ℕ
revoked_time now revoked old = some now
revoked_time now _ old = old

abbrev pub enter : ℕ → KeyState → Key → Key
enter now state k = record k { state = state; revoked_at = revoked_time now state k.revoked_at }

-- The state is written whatever the key's state is by now.
unfoldable pub complete_lifecycle : ℕ → ℕ → ℕ → KeyState → Db → Db
complete_lifecycle now job_id key_id state db =
    set_job job_id (finish now) (set_keys (λ k. k.id == key_id) (enter now state) db)

-- A revoke job of a key.
abbrev pub is_revoke_of : ℕ → Job → Bool
is_revoke_of key_id j = same_type j.type revoke && is_some_of j.key_id key_id

abbrev is_waiting : Job → Bool
is_waiting j = same_status j.status pending || same_status j.status processing

-- The node answers: it is enabled and was synced within the last thirty minutes.
abbrev synced_lately : ℕ → Node → Bool
synced_lately now n =
    n.enabled && elim n.last_sync_at [ none ↦ false | some t ↦ ltb now (t + 1_800_000) ]

unfoldable pub is_stuck : ℕ → Db → Key → Bool
is_stuck now db k =
    same_state k.state revoking
    && any (λ n. n.id == k.node_id && synced_lately now n) db.nodes
    && not (any (λ j. is_revoke_of k.id j && is_waiting j) db.jobs)
    && ltb (length (keep (λ j. is_revoke_of k.id j && same_status j.status failed_job) db.jobs)) 5

-- REARM_STUCK_REVOKES_LIMIT
abbrev pub rearm_limit : ℕ
rearm_limit = 25

-- One fresh revoke job for each key; `fresh` gives the n-th new uuid.
unfoldable pub revoke_jobs : (ℕ → ℕ) → ℕ → ℕ → List Key → List Job
revoke_jobs fresh now n [] = []
revoke_jobs fresh now n (k ∷ ks) =
    new_job (fresh n) now revoke (attempt_of revoke k.id (fresh (n + 1))) k.id
    ∷ revoke_jobs fresh now (n + 2) ks

abbrev note_rearmed : List Key → List Audit
note_rearmed [] = []
note_rearmed (_ ∷ _) = record { action = revoke_rearmed; target = none } ∷ []

unfoldable pub rearm_stuck_revokes : (ℕ → ℕ) → ℕ → Db → ℕ × Db
unfolding is_stuck revoke_jobs
rearm_stuck_revokes fresh now db =
    let candidates = take rearm_limit (keep (is_stuck now db) db.keys) in
    (
      length candidates,
      record db {
        jobs = db.jobs ++ revoke_jobs fresh now 0 candidates;
        audit = db.audit ++ note_rearmed candidates;
      },
    )

abbrev is_singleton : DedupKey → Bool
is_singleton (singleton rules_refresh) = true
is_singleton (singleton access_sync) = true
is_singleton _ = false

abbrev older : ℕ → Option ℕ → Bool
older cutoff none = false
older cutoff (some t) = ltb t cutoff

unfoldable pub delete_completed_jobs_before : ℕ → Db → Db
delete_completed_jobs_before cutoff db = record db {
  jobs =
      keep
        (λ j. not (
          same_status j.status completed
          && older cutoff j.completed_at
          && not (is_singleton j.dedup)))
        db.jobs;
}
