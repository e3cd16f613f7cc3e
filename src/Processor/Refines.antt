-- ===== src/Processor/Refines.antt =====
-- A turn of the worker, with the job processor as its handler, is a run of the system's steps.
use amnezia_shared_panel.Base.{
  ℕ, ◌≡◌, ◌≢◌, refl, List, Option, none, some, Bool-cases, inl, inr, All, leb, ◌==◌,
}
use amnezia_shared_panel.Panel.{
  Db, Job, Reason, RouteProfile, JobType, provision, rotate, revoke, disable, enable, rules_refresh,
  access_sync, reconcile, agent_update, set_capacity, other,
}
use amnezia_shared_panel.Panel.Rows.{All-and, All-update_where}
use amnezia_shared_panel.Panel.Outbox.{claim_job, next_job, claim, set_job}
use amnezia_shared_panel.Panel.Claims.{IsOf, next_job-IsOf}
use amnezia_shared_panel.Panel.Revokes.{RevokesRemembered}
use amnezia_shared_panel.Panel.Steps as Steps
use amnezia_shared_panel.Panel.Steps.{
  Run, then_step, begin, complete, fail, retry, runs_remember_revokes,
}
use amnezia_shared_panel.Access.{World}
use amnezia_shared_panel.Processor.{Agent}
use amnezia_shared_panel.Processor.Jobs.{Config, handle_type, handle_job}
use amnezia_shared_panel.Processor.Reached.{
  IsRowOf, HaveNodes, row-IsOtherJob, key_job-Run, refresh-Run, reconcile-Run, agent_update-Run,
  set_capacity-Run,
}
use amnezia_shared_panel.Processor.Sync.{access_sync-Run}
use amnezia_shared_panel.Runner.{turn, process, after_job, handle_error}

-- The rows of the outbox with one id are one job.
abbrev pub HaveOwnIds : List Job → Type 0
HaveOwnIds jobs = All (λ j. IsRowOf j.id j.type j.key_id jobs) jobs

module _ {N : Type 0} (agent : Agent N) (config : Config)
    (active_rule : RouteProfile → Option ℕ) where
  abbrev Reaches : Db → Db → Type 0
  Reaches start db = Run config.lower config.trim active_rule start db

  type-Run :
      (type : JobType) (now : ℕ) (start : Db) (job : Job) (w : World) (n : N)
      → ((u k : ℕ) → config.fresh u k ≢ job.id)
      → HaveNodes w.db
      → IsRowOf job.id type job.key_id w.db.jobs
      → Reaches start w.db
      → Reaches start (handle_type agent config now type job w n).rows.db
  unfolding handle_type
  type-Run rules_refresh now start job w n apart nodes row run =
      refresh-Run agent config active_rule now start job.id w.db run config.feeds n
        (row-IsOtherJob job.id rules_refresh job.key_id w.db refl row)
  type-Run access_sync now start job w n apart nodes row run =
      access_sync-Run agent config active_rule now start job.id apart job.arm_id w n
        (run, row-IsOtherJob job.id access_sync job.key_id w.db refl row)
  type-Run reconcile now start job w n apart nodes row run =
      reconcile-Run agent config active_rule now start job.id w.db run job.node_id n
        (row-IsOtherJob job.id reconcile job.key_id w.db refl row)
  type-Run agent_update now start job w n apart nodes row run =
      agent_update-Run agent config active_rule now start job.id w.db run job.node_id job.image n
        (row-IsOtherJob job.id agent_update job.key_id w.db refl row)
  type-Run set_capacity now start job w n apart nodes row run =
      set_capacity-Run agent config active_rule now start job.id w.db run job.node_id job.max_peers
        n (row-IsOtherJob job.id set_capacity job.key_id w.db refl row)
  type-Run other now start job w n apart nodes row run =
      then_step run (complete now job.id (row-IsOtherJob job.id other job.key_id w.db refl row))
  type-Run provision now start job w n apart nodes row run =
      key_job-Run agent config active_rule now start job.id w.db run provision job.key_id n nodes
        row
  type-Run rotate now start job w n apart nodes row run =
      key_job-Run agent config active_rule now start job.id w.db run rotate job.key_id n nodes row
  type-Run revoke now start job w n apart nodes row run =
      key_job-Run agent config active_rule now start job.id w.db run revoke job.key_id n nodes row
  type-Run disable now start job w n apart nodes row run =
      key_job-Run agent config active_rule now start job.id w.db run disable job.key_id n nodes row
  type-Run enable now start job w n apart nodes row run =
      key_job-Run agent config active_rule now start job.id w.db run enable job.key_id n nodes row

  -- The job processor as the handler of the worker's loop, on the rest of the world as it is.
  unfoldable pub processor : ℕ → World → N → Job → Db → Option Reason × Db
  unfolding handle_job
  processor now w n job db =
      let ended = handle_job agent config now job (record w { db = db }) n in
      (ended.error, ended.rows.db)

  after-Run :
      (max_attempts now : ℕ) (start : Db) (job : Job) (r : Option Reason × Db)
      → Reaches start r.1
      → Reaches start (after_job max_attempts now job r)
  unfolding after_job handle_error
  after-Run max_attempts now start job (none, db) run = run
  after-Run max_attempts now start job (some reason, db) run =
      elim (Bool-cases (leb max_attempts job.attempts)) [
        | inl e ↦ rw (e, after_job, handle_error) (then_step run (fail job.id reason))
        | inr e ↦ rw (e, after_job, handle_error) (then_step run (retry now job.id reason))
      ]

  abbrev IsReady : Option Job × Db → Type 0
  IsReady (none, db) = Unit
  IsReady (some job, db) =
      ((u k : ℕ) → config.fresh u k ≢ job.id)
      × HaveNodes db
      × IsRowOf job.id job.type job.key_id db.jobs

  process-Run :
      (max_attempts now : ℕ) (w : World) (n : N) (start : Db) (claimed : Option Job × Db)
      → IsReady claimed
      → Reaches start claimed.1
      → Reaches start (process max_attempts (processor now w n) now claimed)
  unfolding process processor handle_job
  process-Run max_attempts now w n start (none, db) ready run = run
  process-Run max_attempts now w n start (some job, db) (apart, nodes, row) run =
      after-Run max_attempts now start job (processor now w n job db)
        (type-Run job.type now start job (record w { db = db }) n apart nodes row run)

  abbrev IsClaimable : Db → Job → Type 0
  IsClaimable db j = IsRowOf j.id j.type j.key_id db.jobs × ((u k : ℕ) → config.fresh u k ≢ j.id)

  -- The claim writes neither the type nor the key of a job.
  found-IsReady :
      (now : ℕ) (db : Db) (found : Option Job)
      → HaveNodes db
      → IsOf (IsClaimable db) found
      → IsReady (elim found [
        | none ↦ (none, db)
        | some j ↦ (some (claim now j), set_job j.id (claim now) db)
      ])
  found-IsReady now db none nodes ready = tt
  found-IsReady now db (some j) nodes (row, apart) = (
    apart,
    nodes,
    All-update_where (λ i. i.id ≡ j.id → (i.type ≡ j.type) × (i.key_id ≡ j.key_id))
        (λ i. i.id ≡ j.id → (i.type ≡ j.type) × (i.key_id ≡ j.key_id)) (λ i. i.id == j.id)
        (claim now) db.jobs (λ i e h. h) (λ i e h. h) row,
  )

  claim_job-IsReady :
      (lease now : ℕ) (db : Db)
      → HaveOwnIds db.jobs
      → HaveNodes db
      → All (λ j. (u k : ℕ) → config.fresh u k ≢ j.id) db.jobs
      → IsReady (claim_job lease now db)
  unfolding claim_job
  claim_job-IsReady lease now db own nodes apart =
      found-IsReady now db (next_job lease now db.jobs) nodes (
        next_job-IsOf (IsClaimable db) lease now db.jobs (
          All-and (λ j. IsRowOf j.id j.type j.key_id db.jobs)
            (λ j. (u k : ℕ) → config.fresh u k ≢ j.id) db.jobs own apart))

  -- If no two rows of the outbox with one id differ in type or key, each key's node exists, and
  -- the uuids to be drawn are the id of no job, then a turn of the worker's loop with the job
  -- processor, whatever the node agents and Cloudflare answer, takes the rows to rows that a run of
  -- the system's steps leads to.
  pub turn-refines_steps :
      (lease max_attempts now : ℕ) (w : World) (n : N)
      → HaveOwnIds w.db.jobs
      → HaveNodes w.db
      → All (λ j. (u k : ℕ) → config.fresh u k ≢ j.id) w.db.jobs
      → Run config.lower config.trim active_rule w.db
          (turn lease max_attempts (processor now w n) now w.db)
  unfolding turn
  turn-refines_steps lease max_attempts now w n own nodes apart =
      process-Run max_attempts now w n w.db (claim_job lease now w.db)
        (claim_job-IsReady lease now w.db own nodes apart) (then_step begin (Steps.claim lease now))

  -- So under the same conditions no delete is forgotten: if each key in `revoking` has a revoke job
  -- that is not completed, it still has one after the turn, or is in `revoking` no more.
  turn-remembers_revokes :
      (lease max_attempts now : ℕ) (w : World) (n : N)
      → HaveOwnIds w.db.jobs
      → HaveNodes w.db
      → All (λ j. (u k : ℕ) → config.fresh u k ≢ j.id) w.db.jobs
      → RevokesRemembered w.db
      → RevokesRemembered (turn lease max_attempts (processor now w n) now w.db)
  turn-remembers_revokes lease max_attempts now w n own nodes apart h =
      runs_remember_revokes config.lower config.trim active_rule
        (turn lease max_attempts (processor now w n) now w.db)
        (turn-refines_steps lease max_attempts now w n own nodes apart) h
