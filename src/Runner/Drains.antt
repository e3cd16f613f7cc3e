-- ===== src/Runner/Drains.antt =====
-- The worker cannot try the jobs of its outbox for ever: each claim spends some of a budget.
use mathlib.Core.Path.{subst}
use amnezia_shared_panel.Base.{
  ℕ, suc, ◌+◌, ◌*◌, ◌≤◌, ◌<◌, ◌≡◌, refl, sym, ap, ◌∙◌, true, List, [], ◌∷◌, Option, none, some, ◌⊎◌,
  ◌==◌, leb, Bool-cases, Option-cases, inl, inr, arith,
}
use amnezia_shared_panel.Panel.{Db, Job, Reason, pending, update_where}
use amnezia_shared_panel.Panel.Claims.{IsNext, next_job-IsNext, IsOf, next_job-IsOf}
use amnezia_shared_panel.Panel.Outbox.{
  next_job, is_claimable, claim, claim_job, complete_job, retry_job, fail_job, set_job, finish,
  mark_failed, clean_reason, payload_key, retry_delay, job_attempts,
}
use amnezia_shared_panel.Runner.{turn, process, after_job, handle_error, run_worker}
use amnezia_shared_panel.Runner.Turns.{fail_key-jobs}
use amnezia_shared_panel.Runner.Budget.{
  budget, total_budget, HaveDistinctIds, IsIn, jobs-IsIn, total-spent, update-HaveDistinctIds,
  update-twice, ended-spends, retried-spends,
}

-- How a handler ends that does its part: it throws and leaves the outbox, or it completes or fails
-- its job.
abbrev pub DoesItsPart : Job → Db → Option Reason × Db → Type 0
DoesItsPart job db r =
    ((reason : Reason) × (r.0 ≡ some reason) × (r.1.jobs ≡ db.jobs))
    ⊎ ((t : ℕ) × (r.0 ≡ none) × (r.1.jobs ≡ (complete_job t job.id db).jobs))
    ⊎ ((reason : Reason) × (r.0 ≡ none) × (r.1.jobs ≡ (fail_job job.id reason db).jobs))

-- A change of the rows of one job that spends some of its budget.
abbrev Spends : ℕ → Job → List Job → List Job → Type 0
Spends max_attempts j jobs after =
    (f : Job → Job) × ((i : Job) → (f i).id ≡ i.id)
    × (after ≡ update_where (λ i. i.id == j.id) f jobs)
    × (budget max_attempts (f j) < budget max_attempts j)

module _ (max_attempts lease now : ℕ) (j : Job) (claimable : is_claimable lease now j ≡ true) where
  claimed : Db → Db
  claimed db = set_job j.id (claim now) db

  -- A change that comes after the claim.
  then-Spends :
      (g : Job → Job) (db : Db) (after : List Job)
      → ((i : Job) → (g i).id ≡ i.id)
      → after ≡ update_where (λ i. i.id == j.id) g (claimed db).jobs
      → budget max_attempts (g (claim now j)) < budget max_attempts j
      → Spends max_attempts j db.jobs after
  unfolding claimed
  then-Spends g db after same e spent = (
    λ i. g (claim now i),
    λ i. same (claim now i),
    e ∙ update-twice j.id (claim now) g db.jobs (λ i. refl),
    spent,
  )

  fail_job-jobs :
      (reason : Reason) (db : Db)
      → (fail_job j.id reason db).jobs
        ≡ update_where (λ i. i.id == j.id) (mark_failed (clean_reason reason)) db.jobs
  unfolding fail_job
  fail_job-jobs reason db =
      fail_key-jobs (payload_key j.id db.jobs) (clean_reason reason)
        (set_job j.id (mark_failed (clean_reason reason)) db)

  retried : Reason → Db → Job → Job
  retried reason db i = record i {
    status = pending;
    available_at = now + retry_delay (job_attempts j.id db.jobs) * 1_000;
    locked_at = none;
    last_error = some (clean_reason reason);
  }

  error-Spends :
      (reason : Reason) (db after : Db)
      → after.jobs ≡ (claimed db).jobs
      → Spends max_attempts j db.jobs
          (handle_error max_attempts now (claim now j) reason after).jobs
  unfolding handle_error retry_job retried
  error-Spends reason db after e = elim (Bool-cases (leb max_attempts (j.attempts + 1))) [
    | inl last ↦
        rw (last, handle_error)
          (then-Spends (mark_failed (clean_reason reason)) db (fail_job j.id reason after).jobs
            (λ i. refl)
            (fail_job-jobs reason after
              ∙ ap (update_where (λ i. i.id == j.id) (mark_failed (clean_reason reason))) e)
            (ended-spends max_attempts lease now j claimable))
    | inr more ↦
        rw (more, handle_error)
          (then-Spends (retried reason after) db (retry_job now j.id reason after).jobs (λ i. refl)
            (ap (update_where (λ i. i.id == j.id) (retried reason after)) e)
            (retried-spends max_attempts lease now j claimable more))
  ]

  after_job-Spends :
      (db : Db) (r : Option Reason × Db)
      → DoesItsPart (claim now j) (claimed db) r
      → Spends max_attempts j db.jobs (after_job max_attempts now (claim now j) r).jobs
  unfolding after_job complete_job
  after_job-Spends db (none, after) (inl (reason, thrown, e)) = absurd (ground (arith, thrown))
  after_job-Spends db (some reason, after) (inl (why, thrown, e)) = error-Spends reason db after e
  after_job-Spends db (none, after) (inr (inl (t, ended, e))) =
      then-Spends (finish t) db after.jobs (λ i. refl) e
        (ended-spends max_attempts lease now j claimable)
  after_job-Spends db (none, after) (inr (inr (reason, ended, e))) =
      then-Spends (mark_failed (clean_reason reason)) db after.jobs (λ i. refl)
        (e ∙ fail_job-jobs reason (claimed db)) (ended-spends max_attempts lease now j claimable)
  after_job-Spends db (some reason, after) (inr (inl (t, ended, e))) =
      absurd (ground (arith, ended))
  after_job-Spends db (some reason, after) (inr (inr (why, ended, e))) =
      absurd (ground (arith, ended))

module _ (lease max_attempts : ℕ) (handler : Job → Db → Option Reason × Db) where
  abbrev with_claim : Option Job → ℕ → ℕ
  with_claim none n = n
  with_claim (some j) n = suc n

  -- The number of turns that claim a job.
  unfoldable pub claims : List ℕ → Db → ℕ
  claims [] db = 0
  claims (now ∷ later) db =
      with_claim (next_job lease now db.jobs)
        (claims later (turn lease max_attempts handler now db))

  claims-turn :
      (now : ℕ) (later : List ℕ) (db : Db) (o : Option Job)
      → next_job lease now db.jobs ≡ o
      → claims (now ∷ later) db
        ≡ with_claim o (claims later (turn lease max_attempts handler now db))
  unfolding claims
  claims-turn now later db o e =
      ap (λ x. with_claim x (claims later (turn lease max_attempts handler now db))) e

module _ (max_attempts lease : ℕ) (handler : Job → Db → Option Reason × Db)
    (part : (job : Job) (db : Db) → DoesItsPart job db (handler job db)) where
  turn-idle :
      (now : ℕ) (db : Db)
      → next_job lease now db.jobs ≡ none
      → turn lease max_attempts handler now db ≡ db
  unfolding turn process claim_job
  turn-idle now db e = rw (e, turn, process, claim_job) refl

  turn-Spends :
      (now : ℕ) (db : Db) (j : Job)
      → next_job lease now db.jobs ≡ some j
      → is_claimable lease now j ≡ true
      → Spends max_attempts j db.jobs (turn lease max_attempts handler now db).jobs
  unfolding turn process claim_job claimed
  turn-Spends now db j e claimable =
      rw (e, turn, process, claim_job)
        (after_job-Spends max_attempts lease now j claimable db
          (handler (claim now j) (set_job j.id (claim now) db))
          (part (claim now j) (set_job j.id (claim now) db)))

  next_job-IsIn :
      (now : ℕ) (db : Db) (j : Job)
      → next_job lease now db.jobs ≡ some j
      → (is_claimable lease now j ≡ true) × IsIn j db.jobs
  next_job-IsIn now db j e = (
    (subst (IsNext lease now db.jobs) e (next_job-IsNext lease now db.jobs)).0,
    subst (IsOf (λ i. IsIn i db.jobs)) e
        (next_job-IsOf (λ i. IsIn i db.jobs) lease now db.jobs (jobs-IsIn db.jobs)),
  )

  -- A turn that claims a job spends some of the budget and keeps the ids apart.
  turn-spends :
      (now : ℕ) (db : Db) (j : Job)
      → next_job lease now db.jobs ≡ some j
      → HaveDistinctIds db.jobs
      → (total_budget max_attempts (turn lease max_attempts handler now db).jobs
          < total_budget max_attempts db.jobs)
        × HaveDistinctIds (turn lease max_attempts handler now db).jobs
  turn-spends now db j e d =
      let (claimable, there) = next_job-IsIn now db j e in
      let (f, same, after, spent) = turn-Spends now db j e claimable in
      (
        subst (λ js. total_budget max_attempts js < total_budget max_attempts db.jobs) (sym after)
            (total-spent max_attempts f j db.jobs d there spent),
        subst HaveDistinctIds (sym after)
            (update-HaveDistinctIds (λ i. i.id == j.id) f db.jobs same d),
      )

  -- If the ids of the outbox differ and the handler does its part with every job, then however
  -- often the worker goes round, the turns that claim a job and the budget that is left are no
  -- more than the budget at first: the attempts that the open jobs have left, and one for each.
  pub run_worker-drains :
      (times : List ℕ) (db : Db)
      → HaveDistinctIds db.jobs
      → claims lease max_attempts handler times db
          + total_budget max_attempts (run_worker lease max_attempts handler times db).jobs
        ≤ total_budget max_attempts db.jobs
  unfolding claims run_worker
  run_worker-drains [] db d = omega arith
  run_worker-drains (now ∷ later) db d = elim (Option-cases (next_job lease now db.jobs)) [
    | inl e ↦
        let rest = subst (λ x. HaveDistinctIds x.jobs) (sym (turn-idle now db e)) d in
        let drained = run_worker-drains later (turn lease max_attempts handler now db) rest in
        let counted = claims-turn lease max_attempts handler now later db none e in
        let same = ap (λ x. total_budget max_attempts x.jobs) (turn-idle now db e) in
        omega (arith, counted, drained, same)
    | inr (j, e) ↦
        let (less, apart) = turn-spends now db j e d in
        let drained = run_worker-drains later (turn lease max_attempts handler now db) apart in
        let counted = claims-turn lease max_attempts handler now later db (some j) e in
        omega (arith, counted, less, drained)
  ]
