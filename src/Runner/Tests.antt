-- ===== src/Runner/Tests.antt =====
-- A task with an unsure resolver, and a job that threw for the last time.
use amnezia_shared_panel.Base.{◌+◌, ◌≤◌, Option, map, inl, ◌≡◌, refl, [], ◌∷◌, none, some, All, leb}
use amnezia_shared_panel.Panel.{
  Db, Job, Reason, pending, failed_job, processing, revoke, attempt_of,
}
use amnezia_shared_panel.Panel.Outbox.{claim_job, retry_job, fail_job}
use amnezia_shared_panel.Runner.{
  resolver, throws, no_period, answers, run_periodic_task, handle_error, run_worker,
}
use amnezia_shared_panel.Runner.Budget.{total_budget}
use amnezia_shared_panel.Runner.Drains.{claims, run_worker-drains}
use amnezia_shared_panel.Runner.Turns.{HasEnded, handle_error-ends}

keeps_waiting :
    run_periodic_task resolver (throws ∷ answers 5_000 ∷ answers 0 ∷ no_period ∷ [])
    ≡ 60_000 ∷ 5_000 ∷ 5_000 ∷ 5_000 ∷ []
unfolding run_periodic_task
keeps_waiting = refl

abbrev tried : Job
tried = record {
  id = 7;
  type = revoke;
  dedup = attempt_of revoke 3 8;
  key_id = some 3;
  arm_id = none;
  node_id = none;
  image = none;
  max_peers = none;
  status = processing;
  attempts = 10;
  available_at = 0;
  created_at = 0;
  locked_at = some 1_000;
  completed_at = none;
  last_error = none;
}

abbrev rows : Db
rows = record { users = []; keys = []; nodes = []; jobs = tried ∷ []; audit = [] }

handle_error-ends_example :
    All (λ j. j.id ≡ 7 → HasEnded (leb 10 10) 2_000 j) (handle_error 10 2_000 tried [] rows).jobs
handle_error-ends_example = handle_error-ends 10 2_000 tried [] rows

-- A handler that never succeeds, and the job it is given.
abbrev always_throws : Job → Db → Option Reason × Db
always_throws job db = (some [], db)

abbrev waiting : Job
waiting = record tried { status = pending; attempts = 0; locked_at = none }

abbrev queue : Db
queue = record rows { jobs = waiting ∷ [] }

run_worker-drains_example :
    claims 60_000 3 always_throws (0 ∷ 1_000 ∷ 5_000 ∷ 20_000 ∷ 90_000 ∷ []) queue
      + total_budget 3
          (run_worker 60_000 3 always_throws (0 ∷ 1_000 ∷ 5_000 ∷ 20_000 ∷ 90_000 ∷ []) queue).jobs
    ≤ total_budget 3 queue.jobs
run_worker-drains_example =
    run_worker-drains 3 60_000 always_throws (λ job db. inl ([], refl, refl))
      (0 ∷ 1_000 ∷ 5_000 ∷ 20_000 ∷ 90_000 ∷ []) queue (tt, tt)

fails_in_the_end :
    map
      (λ j. j.status)
      (run_worker 60_000 3 always_throws (0 ∷ 1_000 ∷ 5_000 ∷ 20_000 ∷ 90_000 ∷ []) queue).jobs
    ≡ failed_job ∷ []
unfolding run_worker claim_job retry_job fail_job
fails_in_the_end = refl
