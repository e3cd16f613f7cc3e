-- ===== src/Panel/Arm.antt =====
-- The single `access.sync` row of the outbox: `armAccessSyncRow` (packages/db/src/index.ts) and
-- `finishAccessSync` (apps/worker/src/postgresRepository.ts).
use amnezia_shared_panel.Base.{
  ℕ, ◌+◌, ◌≡◌, Bool, true, false, [], ◌∷◌, ◌++◌, none, some, if◌then◌else◌, ◌==◌, any, ◌≢◌, arith,
}
use amnezia_shared_panel.Panel.{
  Db, Job, access_sync, singleton, DedupKey, JobStatus, pending, processing, completed, failed_job,
  is_some_of, update_where,
}

abbrev pub is_access_sync : DedupKey → Bool
is_access_sync (singleton access_sync) = true
is_access_sync _ = false

-- ACCESS_SYNC_DEBOUNCE_MS
abbrev debounce : ℕ
debounce = 10_000

restart : ℕ → Job → Job
restart available_at j = record j {
  status = pending;
  available_at = available_at;
  attempts = 0;
  locked_at = none;
  completed_at = none;
  last_error = none;
}

-- The row's lifecycle starts again only if it had ended.
unfoldable pub restart_if_ended : JobStatus → ℕ → Job → Job
unfolding restart
restart_if_ended completed available_at j = restart available_at j
restart_if_ended failed_job available_at j = restart available_at j
restart_if_ended _ available_at j = j

-- ON CONFLICT … DO UPDATE: the marker is always the new one.
unfoldable pub rearm : ℕ → ℕ → Job → Job
unfolding restart_if_ended
rearm arm_id available_at j =
    restart_if_ended j.status available_at (record j { arm_id = some arm_id })

abbrev fresh_row : ℕ → ℕ → ℕ → Job
fresh_row id now arm_id = record {
  id = id;
  type = access_sync;
  dedup = singleton access_sync;
  key_id = none;
  arm_id = some arm_id;
  node_id = none;
  image = none;
  max_peers = none;
  status = pending;
  attempts = 0;
  available_at = now + debounce;
  created_at = now;
  locked_at = none;
  completed_at = none;
  last_error = none;
}

unfoldable pub arm_access_sync : ℕ → ℕ → ℕ → Db → Db
unfolding rearm
arm_access_sync id arm_id now db =
    if any (λ j. is_access_sync j.dedup) db.jobs
    then record db {
      jobs = update_where (λ j. is_access_sync j.dedup) (rearm arm_id (now + debounce)) db.jobs;
    }
    else record db { jobs = db.jobs ++ fresh_row id now arm_id ∷ [] }

-- CASE WHEN payload ->> 'armId' = … THEN completed ELSE pending
unfoldable pub settle : ℕ → ℕ → Job → Job
settle arm_id now j =
    if is_some_of j.arm_id arm_id
    then record j {
      status = completed;
      completed_at = some now;
      attempts = 0;
      locked_at = none;
      last_error = none;
    }
    else record j {
      status = pending;
      completed_at = none;
      available_at = now;
      attempts = 0;
      locked_at = none;
      last_error = none;
    }

unfoldable pub finish_access_sync : ℕ → ℕ → ℕ → Db → Db
unfolding settle
finish_access_sync job_id arm_id now db = record db {
  jobs = update_where (λ j. j.id == job_id) (settle arm_id now) db.jobs;
}

-- Arming leaves the row waiting or running, with the new marker; a row that waits or runs keeps
-- its attempts, its lease and its time.
pub rearm_lem :
    (arm_id available_at : ℕ) (j : Job)
    → ((rearm arm_id available_at j).arm_id ≡ some arm_id)
      × ((rearm arm_id available_at j).status ≢ completed)
      × ((rearm arm_id available_at j).status ≢ failed_job)
      × (j.status ≡ processing → rearm arm_id available_at j ≡ record j { arm_id = some arm_id })
unfolding rearm
rearm_lem arm_id available_at j = (ground arith, ground arith, ground arith, ground arith)

-- A run whose row nobody armed again completes it. A run that another arm overtook does not: the
-- row is left waiting with the new marker, to be claimed at once.
pub settle-rearm :
    (mine other available_at now : ℕ) (j : Job)
    → j.status ≡ processing
    → j.arm_id ≡ some mine
    → mine ≢ other
    → ((settle mine now j).status ≡ completed)
      × ((settle mine now (rearm other available_at j)).status ≡ pending)
      × ((settle mine now (rearm other available_at j)).available_at ≡ now)
      × ((settle mine now (rearm other available_at j)).arm_id ≡ some other)
unfolding settle rearm
settle-rearm mine other available_at now j running marked overtaken = ground arith
