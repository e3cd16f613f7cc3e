-- ===== src/Access/Cases.antt =====
-- The ways a run of the Access sync ends.
use mathlib.Core.Path.{subst}
use amnezia_shared_panel.Base.{
  ℕ, ◌≡◌, refl, sym, Bool, true, false, String, Bool-cases, inl, inr, arith, length, ◌==◌,
}
use amnezia_shared_panel.Panel.{Db}
use amnezia_shared_panel.Panel.Accounts.{deactivate_by_email}
use amnezia_shared_panel.Access.{World}
use amnezia_shared_panel.Access.Sync.{
  Outcome, skipped, aborted, threw, Options, cf_removed, is_over_cap, abort, write_back,
  disable_removed, access_sync_run, forget_abort,
}

module _ (lower trim : String → String) (options : Options) where
  -- The disable step changes the panel's rows only.
  pub disable_removed-db :
      (fresh : ℕ → ℕ → ℕ) (now : ℕ) (w : World)
      → (db : Db) × (disable_removed lower trim options fresh now w ≡ record w { db = db })
  unfolding disable_removed
  disable_removed-db fresh now w =
      elim (Bool-cases (length (cf_removed lower trim options w) == 0)) [
        | inl e ↦ (w.db, rw (e, disable_removed) refl)
        | inr e ↦ (
          (deactivate_by_email lower trim fresh now (cf_removed lower trim options w) w.db).db,
          rw (e, disable_removed) refl,
        )
      ]

  pub write_back-db :
      (sends : Bool) (w : World) → (write_back lower trim options sends w).1.db ≡ w.db
  unfolding write_back
  write_back-db sends w = ground arith

  module _ (before : String → String → Bool) (fresh : ℕ → ℕ → ℕ) (now : ℕ) (w : World) where
    pub run_skips :
        (fetches sends : Bool)
        → w.configured ≡ false
        → access_sync_run lower trim options before fresh now fetches sends w
          ≡ (skipped, forget_abort w)
    unfolding access_sync_run
    run_skips fetches sends c = rw c refl

    run_throws :
        (sends : Bool)
        → w.configured ≡ true
        → access_sync_run lower trim options before fresh now false sends w ≡ (threw, w)
    unfolding access_sync_run
    run_throws sends c = rw c refl

    pub run_aborts :
        (sends : Bool)
        → w.configured ≡ true
        → is_over_cap lower trim options (cf_removed lower trim options w) w.db ≡ true
        → access_sync_run lower trim options before fresh now true sends w
          ≡ (aborted, abort lower trim options before (cf_removed lower trim options w) w)
    unfolding access_sync_run
    run_aborts sends c o = rw (c, o) refl

    pub run_goes_on :
        (sends : Bool)
        → w.configured ≡ true
        → is_over_cap lower trim options (cf_removed lower trim options w) w.db ≡ false
        → access_sync_run lower trim options before fresh now true sends w
          ≡ write_back lower trim options sends
              (disable_removed lower trim options fresh now (forget_abort w))
    unfolding access_sync_run
    run_goes_on sends c o = rw (c, o) refl

    -- What holds of each ending holds of the run.
    pub run_cases {ℓ} :
        (P : Outcome × World → Type ℓ) (fetches sends : Bool)
        → (w.configured ≡ false → P (skipped, forget_abort w))
        → P (threw, w)
        → (is_over_cap lower trim options (cf_removed lower trim options w) w.db ≡ true
            → P (aborted, abort lower trim options before (cf_removed lower trim options w) w))
        → (is_over_cap lower trim options (cf_removed lower trim options w) w.db ≡ false
            → P (
                write_back lower trim options sends
                  (disable_removed lower trim options fresh now (forget_abort w))))
        → P (access_sync_run lower trim options before fresh now fetches sends w)
    run_cases P fetches sends skips throws aborts goes_on = elim (Bool-cases w.configured) [
      | inr c ↦ subst P (sym (run_skips fetches sends c)) (skips c)
      | inl c ↦ fetched fetches c
    ]
      where
        fetched :
            (fetches : Bool)
            → w.configured ≡ true
            → P (access_sync_run lower trim options before fresh now fetches sends w)
        fetched false c = subst P (sym (run_throws sends c)) throws
        fetched true c =
            elim (Bool-cases
              (is_over_cap lower trim options (cf_removed lower trim options w) w.db)) [
                | inl o ↦ subst P (sym (run_aborts sends c o)) (aborts o)
                | inr o ↦ subst P (sym (run_goes_on sends c o)) (goes_on o)
              ]
