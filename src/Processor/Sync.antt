-- ===== src/Processor/Sync.antt =====
-- What the handler of the Access sync does to the panel's rows is a run of the system's steps.
use mathlib.Core.Path.{subst}
use text.Mathlib.Text.{◌==◌ as str_eq}
use amnezia_shared_panel.Base.{
  ℕ, ◌+◌, ◌≡◌, ◌≢◌, sym, Bool, false, not, List, [], ◌∷◌, ◌++◌, Option, none, some, String,
  Bool-cases, inl, inr, All, All-append, any, keep, length, ◌==◌,
}
use amnezia_shared_panel.Panel.{Db, Key, User, RouteProfile, same_type, revoke}
use amnezia_shared_panel.Panel.Outbox.{revoke_jobs}
use amnezia_shared_panel.Panel.Accounts.{
  is_enabled, is_admin, deactivate, Deactivation, deactivate_targets, deactivate_by_email,
  targets_of, disable_and_revoke, revoke_where,
}
use amnezia_shared_panel.Panel.Revokes.{IsOtherJob}
use amnezia_shared_panel.Panel.Steps.{Run, then_step, fail, finish_sync, deactivate_users}
use amnezia_shared_panel.Access.{World}
use amnezia_shared_panel.Access.Sync.{
  Outcome, skipped, aborted, synced, unchanged, threw, cf_removed, disable_removed, abort,
  forget_abort, access_sync_run,
}
use amnezia_shared_panel.Access.Cases.{run_cases, write_back-db}
use amnezia_shared_panel.Processor.{Agent}
use amnezia_shared_panel.Processor.Jobs.{Config, ran_sync, finished_sync, handle_access_sync}

-- The revoke jobs of a sweep have ids of their own.
revoke_jobs-IsOtherJob :
    (job_id : ℕ) (fresh : ℕ → ℕ) (now : ℕ)
    → ((n : ℕ) → fresh n ≢ job_id)
    → (keys : List Key) (n : ℕ)
    → All (λ j. j.id ≡ job_id → same_type j.type revoke ≡ false) (revoke_jobs fresh now n keys)
unfolding revoke_jobs
revoke_jobs-IsOtherJob job_id fresh now f [] n = tt
revoke_jobs-IsOtherJob job_id fresh now f (k ∷ ks) n =
    (λ e. absurd (f n e), revoke_jobs-IsOtherJob job_id fresh now f ks (n + 2))

module _ (job_id : ℕ) (fresh : ℕ → ℕ → ℕ) (now : ℕ) (apart : (u n : ℕ) → fresh u n ≢ job_id) where
  deactivate-IsOtherJob :
      (spared : String → Bool) (us : List User) (d : Deactivation)
      → IsOtherJob job_id d.db
      → IsOtherJob job_id (deactivate fresh now spared us d).db
  unfolding deactivate disable_and_revoke revoke_where
  deactivate-IsOtherJob spared [] d h = h
  deactivate-IsOtherJob spared (u ∷ us) d h = elim (Bool-cases (spared u.email)) [
    | inl e ↦ rw (e, deactivate) (deactivate-IsOtherJob spared us d h)
    | inr e ↦ elim (Bool-cases (is_admin u.role)) [
      | inl a ↦
          rw (e, a, deactivate)
            (deactivate-IsOtherJob spared us
              (record d { skipped_admins = d.skipped_admins ++ u.email ∷ [] }) h)
      | inr a ↦
          rw (e, a, deactivate)
            (deactivate-IsOtherJob spared us
              (record {
                deactivated = d.deactivated ++ u.email ∷ [];
                skipped_admins = d.skipped_admins;
                db = disable_and_revoke (fresh u.id) now u.id d.db;
              })
              (All-append (λ j. j.id ≡ job_id → same_type j.type revoke ≡ false) d.db.jobs
                (revoke_jobs (fresh u.id) now 0 _) h
                (revoke_jobs-IsOtherJob job_id (fresh u.id) now (apart u.id) _ 0)))
    ]
  ]

  module _ (lower trim : String → String) where
    targets-IsOtherJob :
        (ts : List String) (db : Db)
        → IsOtherJob job_id db
        → IsOtherJob job_id (deactivate_targets lower trim fresh now ts db).db
    unfolding deactivate_targets
    targets-IsOtherJob [] db h = h
    targets-IsOtherJob (t ∷ ts) db h =
        deactivate-IsOtherJob (λ email. not (any (λ e. str_eq e (lower email)) (t ∷ ts)))
          (keep (λ u. is_enabled u.status) db.users)
          (record { deactivated = []; skipped_admins = []; db = db }) h

    sweep-IsOtherJob :
        (emails : List String) (db : Db)
        → IsOtherJob job_id db
        → IsOtherJob job_id (deactivate_by_email lower trim fresh now emails db).db
    unfolding deactivate_by_email
    sweep-IsOtherJob emails db h = targets-IsOtherJob (targets_of lower trim fresh now emails) db h

module _ {N : Type 0} (agent : Agent N) (config : Config) (active_rule : RouteProfile → Option ℕ)
    (now : ℕ) (start : Db) (job_id : ℕ) (apart : (u n : ℕ) → config.fresh u n ≢ job_id) where
  abbrev GoesOn : Db → Type 0
  GoesOn db = Run config.lower config.trim active_rule start db × IsOtherJob job_id db

  removed-GoesOn :
      (w : World)
      → GoesOn w.db
      → GoesOn (disable_removed config.lower config.trim config.options config.fresh now w).db
  unfolding disable_removed
  removed-GoesOn w (run, o) =
      elim (Bool-cases (length (cf_removed config.lower config.trim config.options w) == 0)) [
        | inl e ↦ rw (e, disable_removed) (run, o)
        | inr e ↦
            rw (e, disable_removed)
              (
                then_step run (
                    deactivate_users config.fresh now
                      (cf_removed config.lower config.trim config.options w)),
                sweep-IsOtherJob job_id config.fresh now apart config.lower config.trim
                    (cf_removed config.lower config.trim config.options w) w.db o,
              )
      ]

  run-GoesOn :
      (w : World)
      → GoesOn w.db
      → GoesOn
          (access_sync_run config.lower config.trim config.options config.before config.fresh now
            config.fetches config.sends w).1.db
  unfolding abort
  run-GoesOn w h =
      run_cases config.lower config.trim config.options config.before config.fresh now w
        (λ r. GoesOn r.1.db) config.fetches config.sends (λ _. h) h (λ _. h)
        (λ _.
          subst GoesOn
            (sym (
              write_back-db config.lower config.trim config.options config.sends (
                disable_removed config.lower config.trim config.options config.fresh now
                  (forget_abort w))))
            (removed-GoesOn (forget_abort w) h))

  finished-Run :
      (arm_id : Option ℕ) (w : World) (n : N)
      → GoesOn w.db
      → Run config.lower config.trim active_rule start
          (finished_sync agent config now job_id arm_id w n).rows.db
  finished-Run none w n (run, o) = then_step run (fail job_id _)
  finished-Run (some arm_id) w n (run, o) = then_step run (finish_sync job_id arm_id now o)

  ran-Run :
      (arm_id : Option ℕ) (r : Outcome × World) (n : N)
      → GoesOn r.1.db
      → Run config.lower config.trim active_rule start
          (ran_sync agent config now job_id arm_id r n).rows.db
  ran-Run arm_id (threw, w) n (run, o) = run
  ran-Run arm_id (skipped, w) n (run, o) = then_step run (fail job_id _)
  ran-Run arm_id (aborted, w) n (run, o) = then_step run (fail job_id _)
  ran-Run arm_id (synced, w) n h = finished-Run arm_id w n h
  ran-Run arm_id (unchanged, w) n h = finished-Run arm_id w n h

  pub access_sync-Run :
      (arm_id : Option ℕ) (w : World) (n : N)
      → GoesOn w.db
      → Run config.lower config.trim active_rule start
          (handle_access_sync agent config now job_id arm_id w n).rows.db
  unfolding handle_access_sync
  access_sync-Run arm_id w n h = elim (Bool-cases config.sync_enabled) [
    | inl e ↦ rw (e, handle_access_sync) (ran-Run arm_id _ n (run-GoesOn w h))
    | inr e ↦ rw (e, handle_access_sync) (then_step h.0 (fail job_id _))
  ]
