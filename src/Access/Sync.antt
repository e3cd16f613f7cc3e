-- ===== src/Access/Sync.antt =====
-- One run of `createAccessSync` (apps/worker/src/accessReconcile.ts), over the repository calls it
-- makes (apps/worker/src/postgresRepository.ts). Log lines and the texts of the outcomes are left
-- out.
use text.Mathlib.Text.{◌==◌ as str_eq}
use amnezia_shared_panel.Base.{
  ℕ, ◌+◌, ◌/◌, Bool, true, false, not, ◌&&◌, ◌||◌, List, [], ◌∷◌, ◌++◌, map, Option, none, some,
  String, if◌then◌else◌, ◌==◌, ltb, length, any, every, keep,
}
use amnezia_shared_panel.Panel.{Db}
use amnezia_shared_panel.Panel.Accounts.{deactivate_by_email}
use amnezia_shared_panel.Access.{
  Rule, Policy, World, non_empty, has, unique, present, domain_of, list_active_user_emails,
  normalize_email, normalize_list, domain_allowlist, rule_emails, rule_domain, is_domain_rule,
  normal_emails,
}

-- AccessSyncOutcome, and the error of a call to Cloudflare that throws.
pub data Outcome : Type 0 where
  skipped aborted synced unchanged threw : Outcome

pub record Options : Type 0 where
  pub bootstrap_admin_emails : List String
  pub max_disables_per_run : ℕ

-- `[...xs].sort()`
abbrev insert_text : (String → String → Bool) → String → List String → List String
insert_text before x [] = x ∷ []
insert_text before x (y ∷ ys) = if before x y then x ∷ y ∷ ys else y ∷ insert_text before x ys

abbrev sort : (String → String → Bool) → List String → List String
sort before [] = []
sort before (x ∷ xs) = insert_text before x (sort before xs)

abbrev pub same_candidates : List String → List String → Bool
same_candidates [] [] = true
same_candidates (a ∷ as') (b ∷ bs) = str_eq a b && same_candidates as' bs
same_candidates _ _ = false

-- Whether an abort with these candidates writes an audit row.
abbrev pub is_news : Option (List String) → List String → Bool
is_news none candidates = true
is_news (some last) candidates = not (same_candidates candidates last)

-- `a.size === b.size && [...a].every((x) => b.has(x))`
abbrev pub same_set : List String → List String → Bool
same_set a b = (length a == length b) && every (λ x. has x b) a

abbrev pub forget_abort : World → World
forget_abort w = record w { last_aborted = none }

module _ (lower trim : String → String) (options : Options) where
  abbrev pub pinned : List String
  pinned = normal_emails lower trim options.bootstrap_admin_emails

  abbrev pub other_rules : List Rule → List Rule
  other_rules include =
      keep (λ r. not (any non_empty (present (r.email ∷ []))) && not (is_domain_rule lower trim r))
        include

  abbrev pub domain_rules : List Rule → List Rule
  domain_rules include = keep (is_domain_rule lower trim) include

  abbrev pub non_email_rules : List Rule → List Rule
  non_email_rules include = other_rules include ++ domain_rules include

  abbrev pub cf_emails : List Rule → List String
  cf_emails include = unique (rule_emails lower trim include)

  abbrev pub covered_by_domain : Policy → String → Bool
  covered_by_domain policy email =
      has (domain_of email) (domain_allowlist lower trim (non_email_rules policy.include))
      && not (
          has email (rule_emails lower trim policy.exclude)
          || has (domain_of email) (domain_allowlist lower trim policy.exclude))

  abbrev pub active_set : Db → List String
  active_set db = unique (normal_emails lower trim (list_active_user_emails db))

  -- The part of the baseline that Cloudflare has dropped.
  unfoldable pub cf_removed : World → List String
  cf_removed w =
      if length (cf_emails w.policy.include) == 0
      then []
      else keep
          (λ email.
            has email (active_set w.db)
            && not (has email (cf_emails w.policy.include))
            && not (has email pinned)
            && not (covered_by_domain w.policy email))
          (map (normalize_email lower trim) w.baseline)

  abbrev pub exceeds_cap : ℕ → Bool
  exceeds_cap removed = ltb options.max_disables_per_run removed

  abbrev pub exceeds_majority : ℕ → Db → Bool
  exceeds_majority removed db = ltb ((length (active_set db) + 1) / 2) removed

  unfoldable pub is_over_cap : List String → Db → Bool
  is_over_cap removed db =
      ltb 0 options.max_disables_per_run
      && (exceeds_cap (length removed) || exceeds_majority (length removed) db)

  unfoldable pub sorted_candidates : (String → String → Bool) → List String → List String
  sorted_candidates before candidates = sort before (map (normalize_email lower trim) candidates)

  unfoldable pub abort : (String → String → Bool) → List String → World → World
  abort before removed w =
      let candidates = sorted_candidates before removed in
      record w {
        aborts =
            if is_news w.last_aborted candidates
            then w.aborts
              ++ record {
                candidate_emails = removed;
                limit = options.max_disables_per_run;
                active_count = length (active_set w.db);
                over_absolute_cap = exceeds_cap (length removed);
                over_majority = exceeds_majority (length removed) w.db;
              }
                ∷ []
            else w.aborts;
        last_aborted = some candidates;
      }

  -- The active users after the disable step, and the pinned administrators.
  abbrev pub desired : Db → List String
  desired db = unique (normal_emails lower trim (list_active_user_emails db) ++ pinned)

  abbrev pub foreign_email : World → String → Bool
  foreign_email w email =
      non_empty email
      && not (has email (map (normalize_email lower trim) w.baseline))
      && not (has email (desired w.db))

  abbrev pub is_foreign_email_rule : World → Rule → Bool
  is_foreign_email_rule w r = any (foreign_email w) (rule_emails lower trim (r ∷ []))

  unfoldable pub foreign_email_rules : World → List Rule
  foreign_email_rules w = keep (is_foreign_email_rule w) w.policy.include

  abbrev pub wanted_domains : World → List String
  wanted_domains w = normalize_list lower trim w.desired_domains

  abbrev pub foreign_domain : World → String → Bool
  foreign_domain w domain =
      non_empty domain
      && not (has domain (normalize_list lower trim w.baseline_domains))
      && not (has domain (wanted_domains w))

  unfoldable pub foreign_domain_rules : World → List Rule
  foreign_domain_rules w =
      keep (λ r. foreign_domain w (rule_domain lower trim r)) (domain_rules w.policy.include)

  unfoldable pub next_emails : World → List String
  unfolding foreign_email_rules
  next_emails w = unique (rule_emails lower trim (foreign_email_rules w) ++ desired w.db)

  unfoldable pub next_domains : World → List String
  unfolding foreign_domain_rules
  next_domains w =
      unique
        (keep non_empty (map (rule_domain lower trim) (foreign_domain_rules w)) ++ wanted_domains w)

  unfoldable pub is_in_sync : World → Bool
  unfolding next_emails next_domains
  is_in_sync w =
      same_set (next_emails w) (cf_emails w.policy.include)
      && same_set (next_domains w) (domain_allowlist lower trim (domain_rules w.policy.include))

  abbrev pub domain_rule_of : String → Rule
  domain_rule_of domain = record { email = none; domain = some domain; rest = 0 }

  abbrev pub email_rule_of : String → Rule
  email_rule_of email = record { email = some email; domain = none; rest = 0 }

  unfoldable pub next_include : World → List Rule
  unfolding foreign_email_rules foreign_domain_rules
  next_include w =
      other_rules w.policy.include
      ++ foreign_domain_rules w
      ++ map domain_rule_of (wanted_domains w)
      ++ foreign_email_rules w
      ++ map email_rule_of (desired w.db)

  abbrev pub set_access_sync_baseline : World → World
  set_access_sync_baseline w = record w {
    baseline = desired w.db;
    baseline_domains = wanted_domains w;
  }

  abbrev pub update_policy : World → World
  update_policy w = record w { policy = record w.policy { include = next_include w } }

  -- `sends` is whether the call that sends the policy succeeds.
  unfoldable pub write_back : Bool → World → Outcome × World
  unfolding is_in_sync next_include
  write_back sends w =
      if length (desired w.db) == 0
      then (skipped, w)
      else if is_in_sync w
      then (unchanged, set_access_sync_baseline w)
      else if sends
      then (
        synced,
        record (update_policy w) { baseline = desired w.db; baseline_domains = wanted_domains w },
      )
      else (threw, w)

  unfoldable pub disable_removed : (ℕ → ℕ → ℕ) → ℕ → World → World
  unfolding cf_removed
  disable_removed fresh now w =
      if length (cf_removed w) == 0
      then w
      else record w { db = (deactivate_by_email lower trim fresh now (cf_removed w) w.db).db }

  -- `fetches` is whether the call that fetches the policy succeeds.
  unfoldable pub access_sync_run :
      (String → String → Bool) → (ℕ → ℕ → ℕ) → ℕ → Bool → Bool → World → Outcome × World
  unfolding cf_removed is_over_cap abort write_back disable_removed
  access_sync_run before fresh now fetches sends w =
      if not w.configured
      then (skipped, forget_abort w)
      else if not fetches
      then (threw, w)
      else if is_over_cap (cf_removed w) w.db
      then (aborted, abort before (cf_removed w) w)
      else write_back sends (disable_removed fresh now (forget_abort w))
