-- ===== src/Access/Kept.antt =====
-- The sync deletes no rule of an Access policy that it did not write.
use amnezia_shared_panel.Base.{
  ℕ, ◌≡◌, refl, sym, ◌∙◌, Bool, true, false, not, ◌&&◌, ◌||◌, List, [], ◌∷◌, ◌++◌, map, String,
  Bool-cases, none, inl, inr, arith, any, keep, any-append, length, ◌==◌,
}
use mathlib.Core.Path.{subst}
use amnezia_shared_panel.Access.Cases.{disable_removed-db, run_cases}
use amnezia_shared_panel.Access.{Rule, World, present, non_empty, is_domain_rule, rule_domain}
use amnezia_shared_panel.Access.Sync.{
  Outcome, skipped, aborted, unchanged, threw, Options, foreign_domain, is_foreign_email_rule,
  foreign_email_rules, foreign_domain_rules, next_include, write_back, access_sync_run, abort,
  forget_abort, wanted_domains, desired, email_rule_of, domain_rule_of, is_in_sync, cf_removed,
}

module _ {A : Type 0} where
  any-three :
      (f g h q : A → Bool) (xs : List A)
      → any (λ x. (f x || g x || h x) && q x) xs
        ≡ (any q (keep f xs) || any q (keep g xs) || any q (keep h xs))
  any-three f g h q [] = refl
  any-three f g h q (x ∷ xs) = ground (arith, any-three f g h q xs)

  any-weaken : (p q : A → Bool) (xs : List A) → any (λ x. p x && q x) xs ≡ true → any q xs ≡ true
  any-weaken p q [] h = h
  any-weaken p q (x ∷ xs) h = ground (arith, any-weaken p q xs)

  keep-keep : (p q : A → Bool) (xs : List A) → keep q (keep p xs) ≡ keep (λ x. p x && q x) xs
  keep-keep p q [] = refl
  keep-keep p q (x ∷ xs) = ground (arith, keep-keep p q xs)

  any-in_five :
      (q : A → Bool) (a b c d e : List A)
      → (any q a || any q b || any q d) ≡ true
      → any q (a ++ b ++ c ++ d ++ e) ≡ true
  any-in_five q a b c d e h =
      rw
        (
          any-append q (a ++ b ++ c ++ d) e,
          any-append q (a ++ b ++ c) d,
          any-append q (a ++ b) c,
          any-append q a b,
        )
        (ground (arith, h))

module _ (lower trim : String → String) (options : Options) where
  names_nothing : Rule → Bool
  names_nothing r =
      not (any non_empty (present (r.email ∷ []))) && not (is_domain_rule lower trim r)

  -- Whether the sync has no claim on a rule: it names neither an address nor a domain, or a domain
  -- that is neither in the domain baseline nor wanted, or an address that is neither in the
  -- baseline nor desired.
  unfoldable pub is_foreign : World → Rule → Bool
  unfolding names_nothing
  is_foreign w r =
      names_nothing r
      || (is_domain_rule lower trim r
          && foreign_domain lower trim options w (rule_domain lower trim r))
      || is_foreign_email_rule lower trim options w r

  next_include-keeps :
      (w : World) (q : Rule → Bool)
      → any (λ r. is_foreign w r && q r) w.policy.include ≡ true
      → any q (next_include lower trim options w) ≡ true
  unfolding is_foreign names_nothing next_include foreign_domain_rules foreign_email_rules
  next_include-keeps w q h =
      let other = names_nothing in
      let own = is_domain_rule lower trim in
      let domain = λ (r : Rule). foreign_domain lower trim options w (rule_domain lower trim r) in
      let email = is_foreign_email_rule lower trim options w in
      let include = w.policy.include in
      any-in_five q (keep other include) (keep domain (keep own include))
        (map (domain_rule_of lower trim options) (wanted_domains lower trim options w))
        (keep email include)
        (map (email_rule_of lower trim options) (desired lower trim options w.db))
        (rw (keep-keep own domain include)
          (sym (any-three other (λ r. own r && domain r) email q include) ∙ h))

  -- The rules that a run may not delete, by what it leaves of the panel's rows.
  abbrev KeepsForeign : World → Outcome × World → Type 0
  KeepsForeign w (outcome, after) =
      (q : Rule → Bool)
      → any (λ r. is_foreign (record w { db = after.db }) r && q r) w.policy.include ≡ true
      → any q after.policy.include ≡ true

  unwritten :
      (w after : World) (outcome : Outcome)
      → after.policy.include ≡ w.policy.include
      → KeepsForeign w (outcome, after)
  unwritten w after outcome same q h =
      rw same (any-weaken (is_foreign (record w { db = after.db })) q w.policy.include h)

  write_back-KeepsForeign :
      (sends : Bool) (w : World) → KeepsForeign w (write_back lower trim options sends w)
  unfolding write_back
  write_back-KeepsForeign sends w =
      elim (Bool-cases (length (desired lower trim options w.db) == 0)) [
        | inl e ↦ rw (e, write_back) (unwritten w w skipped refl)
        | inr e ↦ elim (Bool-cases (is_in_sync lower trim options w)) [
          | inl f ↦ rw (e, f, write_back) (unwritten w w unchanged refl)
          | inr f ↦ sent sends e f
        ]
      ]
    where
      sent :
          (sends : Bool)
          → (length (desired lower trim options w.db) == 0) ≡ false
          → is_in_sync lower trim options w ≡ false
          → KeepsForeign w (write_back lower trim options sends w)
      sent true e f = rw (e, f, write_back) (λ q h. next_include-keeps w q h)
      sent false e f = rw (e, f, write_back) (unwritten w w threw refl)

  run-KeepsForeign :
      (before : String → String → Bool) (fresh : ℕ → ℕ → ℕ) (now : ℕ) (fetches sends : Bool)
      (w : World)
      → KeepsForeign w (access_sync_run lower trim options before fresh now fetches sends w)
  unfolding abort is_foreign
  run-KeepsForeign before fresh now fetches sends w =
      let (db, same) = disable_removed-db lower trim options fresh now (forget_abort w) in
      run_cases lower trim options before fresh now w (KeepsForeign w) fetches sends
        (λ _. unwritten w (forget_abort w) skipped refl) (unwritten w w threw refl)
        (λ _.
          unwritten w (abort lower trim options before (cf_removed lower trim options w) w) aborted
            refl)
        (λ _.
          subst (λ d. KeepsForeign w (write_back lower trim options sends d)) (sym same)
            (write_back-KeepsForeign sends (record w { last_aborted = none; db = db })))

  -- A run, whatever its outcome, deletes no rule of the policy's include list that it has no claim
  -- on: whatever test such a rule passes, some rule of the list passes afterwards. A rule is
  -- claimed only if the domain it names is in the domain baseline or wanted or, where it names
  -- none, if the address it names is blank, in the baseline, pinned, or that of a user who is
  -- active after the run.
  pub access_sync_run-keeps_foreign :
      (before : String → String → Bool) (fresh : ℕ → ℕ → ℕ) (now : ℕ) (fetches sends : Bool)
      (w : World) (q : Rule → Bool)
      → any
          (λ r.
            is_foreign
              (record w {
                db = (access_sync_run lower trim options before fresh now fetches sends w).1.db;
              })
              r
            && q r)
          w.policy.include
        ≡ true
      → any q (access_sync_run lower trim options before fresh now fetches sends w).1.policy.include
        ≡ true
  access_sync_run-keeps_foreign before fresh now fetches sends w q h =
      run-KeepsForeign before fresh now fetches sends w q h
