-- ===== src/Access/Settled.antt =====
-- A run of the Access sync that wrote the policy leaves nothing for the next one to do.
use mathlib.Core.Path.{subst}
use amnezia_shared_panel.Base.{
  ℕ, ◌≡◌, refl, sym, ap, ◌∙◌, Bool, true, false, String, Bool-cases, inl, inr, arith, length, ◌==◌,
  All, none,
}
use amnezia_shared_panel.Panel.{Db}
use amnezia_shared_panel.Access.{World}
use amnezia_shared_panel.Access.Sync.{
  Outcome, skipped, synced, unchanged, Options, write_back, access_sync_run, forget_abort, desired,
}
use amnezia_shared_panel.Access.Spared.{StringLaws}
use amnezia_shared_panel.Access.Cases.{disable_removed-db, run_cases, run_skips}
use amnezia_shared_panel.Access.InSync.{written, rerun, write_back-synced}
use amnezia_shared_panel.Access.Names.{IsNotBlank, IsNormalDomain}

module _ (lower trim : String → String) (laws : StringLaws lower trim) (options : Options) where
  -- What a run leaves when it wrote the policy.
  abbrev HasWritten : World → Outcome × World → Type 0
  HasWritten w (outcome, after) =
      outcome ≡ synced
      → (db : Db) × (length (desired lower trim options db) == 0 ≡ false)
        × (after ≡ written lower trim laws options (record w { db = db; last_aborted = none }))

  run-HasWritten :
      (before : String → String → Bool) (fresh : ℕ → ℕ → ℕ) (now : ℕ) (fetches sends : Bool)
      (w : World)
      → HasWritten w (access_sync_run lower trim options before fresh now fetches sends w)
  run-HasWritten before fresh now fetches sends w =
      let (db, same) = disable_removed-db lower trim options fresh now (forget_abort w) in
      run_cases lower trim options before fresh now w (HasWritten w) fetches sends
        (λ _ h. absurd (ground (arith, h))) (λ h. absurd (ground (arith, h)))
        (λ _ h. absurd (ground (arith, h)))
        (λ _.
          subst (λ d. HasWritten w (write_back lower trim options sends d)) (sym same)
            (λ h.
              let (d, wr) =
                write_back-synced lower trim laws options sends
                  (record w { db = db; last_aborted = none }) h in
              (db, d, wr)))

  synced-configured :
      (before : String → String → Bool) (fresh : ℕ → ℕ → ℕ) (now : ℕ) (fetches sends : Bool)
      (w : World)
      → (access_sync_run lower trim options before fresh now fetches sends w).0 ≡ synced
      → w.configured ≡ true
  synced-configured before fresh now fetches sends w h = elim (Bool-cases w.configured) [
    | inl e ↦ e
    | inr e ↦
        let skips : skipped ≡ synced =
          sym (ap (λ r. r.0) (run_skips lower trim options before fresh now w fetches sends e))
          ∙ h in
        absurd (ground (arith, skips))
  ]

  -- If the string methods obey their laws, no address in the policy is blank and the wanted
  -- domains are stored in normal form, then once a run has written the policy, the next run, with
  -- the policy fetched and nothing changed in between, answers `unchanged` and leaves everything
  -- as it is, even if a call that sends a policy would fail.
  pub access_sync_run-settles :
      (before : String → String → Bool) (fresh : ℕ → ℕ → ℕ) (now later : ℕ)
      (fetches sends sends_later : Bool) (w after : World)
      → All (IsNotBlank lower trim laws) w.policy.include
      → All (IsNormalDomain lower trim laws options) w.desired_domains
      → access_sync_run lower trim options before fresh now fetches sends w ≡ (synced, after)
      → access_sync_run lower trim options before fresh later true sends_later after
        ≡ (unchanged, after)
  access_sync_run-settles before fresh now later fetches sends sends_later w after unblanked normal
        h =
      let outcome = ap (λ r. r.0) h in
      let c = synced-configured before fresh now fetches sends w outcome in
      let (db, d, same) = run-HasWritten before fresh now fetches sends w outcome in
      subst
        (λ a.
          access_sync_run lower trim options before fresh later true sends_later a ≡ (unchanged, a))
        (sym same ∙ ap (λ r. r.1) h)
        (rerun lower trim laws options (record w { db = db; last_aborted = none }) unblanked normal
          before fresh later sends_later c refl d)
