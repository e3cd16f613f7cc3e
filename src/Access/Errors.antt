-- ===== src/Access/Errors.antt =====
-- What a run of the Access sync leaves behind for each outcome.
use mathlib.Core.Path.{subst}
use amnezia_shared_panel.Base.{
  ℕ, ◌≡◌, ◌≢◌, refl, sym, ap, ◌∙◌, Bool, true, List, [], ◌∷◌, String, Bool-cases, inl, inr, arith,
  eq_refl,
}
use amnezia_shared_panel.Access.{World}
use amnezia_shared_panel.Access.Cases.{run_skips, run_aborts, run_goes_on, run_cases}
use amnezia_shared_panel.Access.Sync.{
  Outcome, skipped, aborted, synced, unchanged, threw, Options, desired, cf_removed, is_over_cap,
  abort, write_back, disable_removed, sorted_candidates, access_sync_run, forget_abort,
  same_candidates,
}

abbrev HasBaselines : World → World → Type 0
HasBaselines w after = (after.baseline ≡ w.baseline) × (after.baseline_domains ≡ w.baseline_domains)

module _ (lower trim : String → String) (options : Options) where
  -- What each outcome says of the world after it.
  abbrev pub IsAccounted : World → Outcome × World → Type 0
  IsAccounted w (skipped, after) =
      (after.policy ≡ w.policy) × HasBaselines w after × (after.aborts ≡ w.aborts)
  IsAccounted w (aborted, after) =
      (after.policy ≡ w.policy) × HasBaselines w after × (after.db ≡ w.db)
  IsAccounted w (synced, after) =
      (after.policy.exclude ≡ w.policy.exclude)
      × (after.policy.rest ≡ w.policy.rest)
      × (after.baseline ≡ desired lower trim options after.db)
      × (after.aborts ≡ w.aborts)
  IsAccounted w (unchanged, after) =
      (after.policy ≡ w.policy)
      × (after.baseline ≡ desired lower trim options after.db)
      × (after.aborts ≡ w.aborts)
  IsAccounted w (threw, after) =
      (after.policy ≡ w.policy) × HasBaselines w after × (after.aborts ≡ w.aborts)

  write_back-IsAccounted :
      (sends : Bool) (w given : World)
      → given.policy ≡ w.policy
      → HasBaselines w given
      → given.aborts ≡ w.aborts
      → IsAccounted w (write_back lower trim options sends given)
  unfolding write_back
  write_back-IsAccounted sends w given p b a = ground (arith, p, b, a)

  disable_removed-same :
      (fresh : ℕ → ℕ → ℕ) (now : ℕ) (w : World)
      → ((disable_removed lower trim options fresh now w).policy ≡ w.policy)
        × HasBaselines w (disable_removed lower trim options fresh now w)
        × ((disable_removed lower trim options fresh now w).aborts ≡ w.aborts)
  unfolding disable_removed
  disable_removed-same fresh now w = ground arith

  same_candidates_refl : (xs : List String) → same_candidates xs xs ≡ true
  same_candidates_refl [] = refl
  same_candidates_refl (x ∷ xs) = ground (arith, eq_refl x, same_candidates_refl xs)

  abort-twice :
      (before : String → String → Bool) (removed : List String) (w : World)
      → abort lower trim options before removed (abort lower trim options before removed w)
        ≡ abort lower trim options before removed w
  unfolding abort
  abort-twice before removed w =
      rw (same_candidates_refl (sorted_candidates lower trim options before removed)) refl

  -- Whatever Cloudflare answers, a run is accounted for by its outcome. Skipped, and an error of
  -- either call to Cloudflare: the policy, both baselines and the abort rows are as they were.
  -- Aborted: so are the policy, both baselines and the panel's own rows. Unchanged: the policy is
  -- as it was, and the baseline is the list of active users and pinned administrators. Synced: so
  -- is the baseline, and the policy's exclude list and other fields are as they were.
  pub access_sync_run-IsAccounted :
      (before : String → String → Bool) (fresh : ℕ → ℕ → ℕ) (now : ℕ) (fetches sends : Bool)
      (w : World)
      → IsAccounted w (access_sync_run lower trim options before fresh now fetches sends w)
  unfolding abort
  access_sync_run-IsAccounted before fresh now fetches sends w =
      let given = disable_removed lower trim options fresh now (forget_abort w) in
      let same = disable_removed-same fresh now (forget_abort w) in
      run_cases lower trim options before fresh now w (IsAccounted w) fetches sends
        (λ _. ground arith) (ground arith) (λ _. ground arith)
        (λ _. write_back-IsAccounted sends w given same.0 same.1 same.2)

  write_back-goes_on :
      (sends : Bool) (w : World) → (write_back lower trim options sends w).0 ≢ aborted
  unfolding write_back
  write_back-goes_on sends w = ground arith

  skipped-aborted : skipped ≢ aborted
  skipped-aborted h = ground (arith, h)

  run-aborted :
      (before : String → String → Bool) (fresh : ℕ → ℕ → ℕ) (now : ℕ) (sends : Bool) (w : World)
      → (access_sync_run lower trim options before fresh now true sends w).0 ≡ aborted
      → (w.configured ≡ true)
        × (is_over_cap lower trim options (cf_removed lower trim options w) w.db ≡ true)
  run-aborted before fresh now sends w h = elim (Bool-cases w.configured) [
    | inr e ↦ absurd (
        skipped-aborted
          (sym (ap (λ r. r.0) (run_skips lower trim options before fresh now w true sends e)) ∙ h))
    | inl e ↦
        elim (Bool-cases (is_over_cap lower trim options (cf_removed lower trim options w) w.db)) [
          | inl o ↦ (e, o)
          | inr o ↦ absurd (
              write_back-goes_on sends
                (disable_removed lower trim options fresh now (forget_abort w))
                (sym (ap (λ r. r.0) (run_goes_on lower trim options before fresh now w sends e o))
                  ∙ h))
        ]
  ]

  abort-again :
      (before : String → String → Bool) (fresh : ℕ → ℕ → ℕ) (now : ℕ) (sends : Bool) (w : World)
      → w.configured ≡ true
      → is_over_cap lower trim options (cf_removed lower trim options w) w.db ≡ true
      → access_sync_run lower trim options before fresh now true sends
          (abort lower trim options before (cf_removed lower trim options w) w)
        ≡ (aborted, abort lower trim options before (cf_removed lower trim options w) w)
  unfolding abort cf_removed
  abort-again before fresh now sends w c o =
      run_aborts lower trim options before fresh now
        (abort lower trim options before (cf_removed lower trim options w) w) sends c o
      ∙ ap (λ a. (aborted, a)) (abort-twice before (cf_removed lower trim options w) w)

  -- If a run aborts, a run on the world it leaves, with the policy fetched, aborts too and leaves
  -- the same world: it adds no second abort row.
  pub access_sync_run-aborted :
      (before : String → String → Bool) (fresh : ℕ → ℕ → ℕ) (now later : ℕ) (sends : Bool)
      (w after : World)
      → access_sync_run lower trim options before fresh now true sends w ≡ (aborted, after)
      → access_sync_run lower trim options before fresh later true sends after ≡ (aborted, after)
  access_sync_run-aborted before fresh now later sends w after h =
      let (c, o) = run-aborted before fresh now sends w (ap (λ r. r.0) h) in
      let again = abort lower trim options before (cf_removed lower trim options w) w in
      let ends : again ≡ after =
        ap (λ r. r.1) (sym (run_aborts lower trim options before fresh now w sends c o) ∙ h) in
      subst (λ a. access_sync_run lower trim options before fresh later true sends a ≡ (aborted, a))
        ends (abort-again before fresh later sends w c o)
