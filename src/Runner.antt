-- ===== src/Runner.antt =====
-- The worker's loops: `runWorker` of apps/worker/src/runner.ts and `runPeriodicTask` of
-- apps/worker/src/scheduler.ts. One turn of a loop is one function, and a run is its turns.
pub mod Turns
mod Budget
pub mod Drains
mod Tests
use amnezia_shared_panel.Base.{
  ℕ, Bool, true, false, List, [], ◌∷◌, Option, none, some, if◌then◌else◌, leb, ltb,
}
use amnezia_shared_panel.Panel.{Db, Job, Reason}
use amnezia_shared_panel.Panel.Outbox.{claim_job, retry_job, fail_job}

-- A job that the handler threw on: failed after the last attempt, else put back.
unfoldable pub handle_error : ℕ → ℕ → Job → Reason → Db → Db
handle_error max_attempts now job reason db =
    if leb max_attempts job.attempts
    then fail_job job.id reason db
    else retry_job now job.id reason db

-- What a handler leaves: the rows, and the error if it threw.
unfoldable pub after_job : ℕ → ℕ → Job → Option Reason × Db → Db
unfolding handle_error
after_job max_attempts now job (none, db) = db
after_job max_attempts now job (some reason, db) = handle_error max_attempts now job reason db

unfoldable pub process : ℕ → (Job → Db → Option Reason × Db) → ℕ → Option Job × Db → Db
unfolding after_job
process max_attempts handler now (none, db) = db
process max_attempts handler now (some job, db) = after_job max_attempts now job (handler job db)

-- One turn of the loop. With no job to claim it only waits.
unfoldable pub turn : ℕ → ℕ → (Job → Db → Option Reason × Db) → ℕ → Db → Db
unfolding process
turn lease max_attempts handler now db = process max_attempts handler now (claim_job lease now db)

-- The turns at the given times; an abort ends the list.
unfoldable pub run_worker : ℕ → ℕ → (Job → Db → Option Reason × Db) → List ℕ → Db → Db
unfolding turn
run_worker lease max_attempts handler [] db = db
run_worker lease max_attempts handler (now ∷ later) db =
    run_worker lease max_attempts handler later (turn lease max_attempts handler now db)

-- What a period's source is: a fixed number, or a resolver.
pub data IntervalSource : Type 0 where
  fixed : ℕ → IntervalSource
  resolver : IntervalSource

-- What a resolver does when asked: it throws, or answers NaN, an infinity or a negative number, or
-- answers a number of milliseconds.
pub data Resolved : Type 0 where
  throws no_period : Resolved
  answers : ℕ → Resolved

abbrev failed_resolve_wait : ℕ
failed_resolve_wait = 60_000

abbrev pub first_resolved : IntervalSource → ℕ
first_resolved (fixed ms) = ms
first_resolved resolver = failed_resolve_wait

-- The wait, and the last period that resolved.
unfoldable pub resolve_interval : IntervalSource → ℕ → Resolved → ℕ × ℕ
resolve_interval (fixed ms) last answer = (ms, last)
resolve_interval resolver last throws = (last, last)
resolve_interval resolver last no_period = (last, last)
resolve_interval resolver last (answers ms) = if leb ms 0 then (last, last) else (ms, ms)

-- The waits between the runs of a task, which a task that throws does not change: the n-th answer
-- of the resolver gives the n-th wait.
unfoldable pub waits_from : IntervalSource → ℕ → List Resolved → List ℕ
unfolding resolve_interval
waits_from source last [] = []
waits_from source last (answer ∷ more) =
    let next = resolve_interval source last answer in next.0 ∷ waits_from source next.1 more

unfoldable pub run_periodic_task : IntervalSource → List Resolved → List ℕ
unfolding waits_from
run_periodic_task source more = waits_from source (first_resolved source) more
