-- ===== src/Access/InSync.antt =====
-- The world after a write of the Access policy is in sync, so that a run finds nothing to do.
use mathlib.Core.Path.{subst}
use amnezia_shared_panel.Base.{
  ℕ, ◌≡◌, refl, sym, ap, ◌∙◌, Bool, true, false, not, ◌&&◌, [], ◌++◌, map, String, Bool-cases, inl,
  inr, arith, keep, length, ◌==◌, All, All-append, none,
}
use amnezia_shared_panel.Panel.{Db}
use amnezia_shared_panel.Panel.Rows.{All-keep}
use amnezia_shared_panel.Access.{
  Rule, World, has, non_empty, rule_emails, rule_domain, normalize_list, domain_allowlist,
}
use amnezia_shared_panel.Access.Sync.{
  synced, unchanged, Options, cf_emails, cf_removed, write_back, is_over_cap, disable_removed,
  access_sync_run, desired, wanted_domains, email_rule_of, domain_rule_of, domain_rules,
  foreign_email_rules, foreign_domain_rules, next_emails, next_domains, next_include, is_in_sync,
  same_set, other_rules, set_access_sync_baseline,
}
use amnezia_shared_panel.Access.Sets.{
  has-unique, keep-nothing, same_set-unique, names, names-keep, names-in_five, strangers,
  strangers-and_known,
}
use amnezia_shared_panel.Access.Spared.{
  StringLaws, passes, passes-named, cf_removed-some, cf_removed-none,
}
use amnezia_shared_panel.Access.Cases.{run_goes_on}
use amnezia_shared_panel.Access.Names.{
  email_of, IsNotBlank, IsNormalDomain, desired-IsNormal, normal-same, domain_allowlist-names,
  unblank, normal-names, normal-IsNotBlank, domains-IsNotBlank, normal-domains, normalize_list-same,
  foreign-strangers, foreign-domains,
}

module _ (lower trim : String → String) (laws : StringLaws lower trim) (options : Options) where
  -- The world after a write.
  abbrev pub written : World → World
  written w = record w {
    policy = record w.policy { include = next_include lower trim options w };
    baseline = desired lower trim options w.db;
    baseline_domains = wanted_domains lower trim options w;
  }

  nobody_disabled :
      (fresh : ℕ → ℕ → ℕ) (now : ℕ) (w : World)
      → cf_removed lower trim options w ≡ []
      → disable_removed lower trim options fresh now w ≡ w
  unfolding disable_removed
  nobody_disabled fresh now w h = rw h refl

  nobody_over_cap : (db : Db) → is_over_cap lower trim options [] db ≡ false
  unfolding is_over_cap
  nobody_over_cap db = ground arith

  nothing_written :
      (sends : Bool) (w : World)
      → length (desired lower trim options w.db) == 0 ≡ false
      → is_in_sync lower trim options w ≡ true
      → write_back lower trim options sends w
        ≡ (unchanged, set_access_sync_baseline lower trim options w)
  unfolding write_back
  nothing_written sends w d s = rw (d, s) refl

  pub write_back-synced :
      (sends : Bool) (w : World)
      → (write_back lower trim options sends w).0 ≡ synced
      → (length (desired lower trim options w.db) == 0 ≡ false)
        × ((write_back lower trim options sends w).1 ≡ written w)
  unfolding write_back
  write_back-synced sends w h = (ground (arith, h), ground (arith, h))

  module _ (w : World) (unblanked : All (IsNotBlank lower trim laws) w.policy.include)
      (normal : All (IsNormalDomain lower trim laws options) w.desired_domains) where
    wanted_same : wanted_domains lower trim options w ≡ w.desired_domains
    wanted_same = normalize_list-same lower trim laws options w.desired_domains normal

    next_include-IsNotBlank : All (IsNotBlank lower trim laws) (next_include lower trim options w)
    unfolding next_include foreign_email_rules foreign_domain_rules
    next_include-IsNotBlank =
        let ok = IsNotBlank lower trim laws in
        let kept = λ (p : Rule → Bool). All-keep ok p w.policy.include unblanked in
        All-append ok _ _
          (All-append ok _ _
            (All-append ok _ _ (All-append ok _ _ (kept _) (All-keep ok _ _ (kept _)))
              (domains-IsNotBlank lower trim laws options (wanted_domains lower trim options w)))
            (kept _))
          (normal-IsNotBlank lower trim laws options (desired lower trim options w.db)
            (desired-IsNormal lower trim laws options w.db))

    desired-named :
        (e : String)
        → has e (desired lower trim options w.db) ≡ true
        → has e (names (email_of lower trim laws) (next_include lower trim options w)) ≡ true
    unfolding next_include
    desired-named e h =
        let D = desired lower trim options w.db in
        let same =
          normal-names lower trim laws options D (desired-IsNormal lower trim laws options w.db) in
        names-in_five (email_of lower trim laws) e (other_rules lower trim options w.policy.include)
          (foreign_domain_rules lower trim options w)
          (map (domain_rule_of lower trim options) (wanted_domains lower trim options w))
          (foreign_email_rules lower trim options w) (map (email_rule_of lower trim options) D)
          (rw same (ground (arith, h)))

    wanted-named :
        (d : String)
        → has d (wanted_domains lower trim options w) ≡ true
        → has d (names (rule_domain lower trim) (next_include lower trim options w)) ≡ true
    unfolding next_include
    wanted-named d h =
        let W = wanted_domains lower trim options w in
        let same : names (rule_domain lower trim) (map (domain_rule_of lower trim options) W) ≡ W =
          subst
            (λ xs. names (rule_domain lower trim) (map (domain_rule_of lower trim options) xs) ≡ xs)
            (sym wanted_same) (normal-domains lower trim laws options w.desired_domains normal) in
        names-in_five (rule_domain lower trim) d (other_rules lower trim options w.policy.include)
          (foreign_domain_rules lower trim options w) (map (domain_rule_of lower trim options) W)
          (foreign_email_rules lower trim options w)
          (map (email_rule_of lower trim options) (desired lower trim options w.db))
          (rw same (ground (arith, h)))

    emails-in_sync :
        same_set
          (next_emails lower trim options (written w))
          (cf_emails lower trim options (next_include lower trim options w))
        ≡ true
    unfolding next_emails foreign_email_rules
    emails-in_sync =
        let I = next_include lower trim options w in
        let D = desired lower trim options w.db in
        let known = normal-same lower trim laws D (desired-IsNormal lower trim laws options w.db) in
        let foreign = foreign-strangers lower trim laws options D D I known in
        let left =
          All-keep (IsNotBlank lower trim laws)
            (λ r.
              non_empty (email_of lower trim laws r) && not (has (email_of lower trim laws r) D))
            I next_include-IsNotBlank in
        same_set-unique _ (rule_emails lower trim I) (λ e.
          ap (λ rs. has e (rule_emails lower trim rs ++ D)) foreign
          ∙ ap (λ es. has e (es ++ D))
              (unblank lower trim laws (strangers (email_of lower trim laws) D I) left)
          ∙ strangers-and_known (email_of lower trim laws) e D I (desired-named e)
          ∙ ap (has e) (sym (unblank lower trim laws I next_include-IsNotBlank)))

    domains-in_sync :
        same_set (next_domains lower trim options (written w)) (
          domain_allowlist lower trim
            (domain_rules lower trim options (next_include lower trim options w)))
        ≡ true
    unfolding next_domains foreign_domain_rules
    domains-in_sync =
        let I = domain_rules lower trim options (next_include lower trim options w) in
        let W = wanted_domains lower trim options w in
        let known : normalize_list lower trim W ≡ W =
          subst (λ xs. normalize_list lower trim xs ≡ xs) (sym wanted_same) wanted_same in
        let foreign = foreign-domains lower trim laws options W W I known in
        rw (domain_allowlist-names lower trim laws I) (
          same_set-unique _ (names (rule_domain lower trim) I) (λ d.
            ap (λ rs. has d (names (rule_domain lower trim) rs ++ W)) foreign
            ∙ strangers-and_known (rule_domain lower trim) d W I (λ h.
              ap (has d) (names-keep (rule_domain lower trim) (next_include lower trim options w))
              ∙ wanted-named d h)))

    written-in_sync : is_in_sync lower trim options (written w) ≡ true
    unfolding is_in_sync
    written-in_sync = ground (arith, emails-in_sync, domains-in_sync)

    desired-in_policy :
        (e : String)
        → has e (desired lower trim options w.db) ≡ true
        → has e (cf_emails lower trim options (next_include lower trim options w)) ≡ true
    desired-in_policy e h =
        has-unique e (rule_emails lower trim (next_include lower trim options w))
        ∙ ap (has e)
            (unblank lower trim laws (next_include lower trim options w) next_include-IsNotBlank)
        ∙ desired-named e h

    nobody_removed : cf_removed lower trim options (written w) ≡ []
    nobody_removed =
        let D = desired lower trim options w.db in
        let known = normal-same lower trim laws D (desired-IsNormal lower trim laws options w.db) in
        elim (Bool-cases
          (length (cf_emails lower trim options (next_include lower trim options w)) == 0)) [
            | inl e ↦ cf_removed-none lower trim laws options (written w) e
            | inr e ↦
                cf_removed-some lower trim laws options (written w) e
                ∙ ap (keep (passes lower trim laws options (written w))) known
                ∙ keep-nothing (passes lower trim laws options (written w)) D (λ x h.
                  passes-named lower trim laws options (written w) x (desired-in_policy x h))
          ]

    pub rerun :
        (before : String → String → Bool) (fresh : ℕ → ℕ → ℕ) (now : ℕ) (sends : Bool)
        → w.configured ≡ true
        → w.last_aborted ≡ none
        → length (desired lower trim options w.db) == 0 ≡ false
        → access_sync_run lower trim options before fresh now true sends (written w)
          ≡ (unchanged, written w)
    rerun before fresh now sends c forgot some_desired =
        run_goes_on lower trim options before fresh now (written w) sends c
          (ap (λ r. is_over_cap lower trim options r w.db) nobody_removed ∙ nobody_over_cap w.db)
        ∙ ap
            (λ l. write_back lower trim options sends (
              disable_removed lower trim options fresh now
                (record (written w) { last_aborted = l })))
            (sym forgot)
        ∙ ap (write_back lower trim options sends)
            (nobody_disabled fresh now (written w) nobody_removed)
        ∙ nothing_written sends (written w) some_desired written-in_sync
