-- ===== src/Access/Spared.antt =====
-- Whom the Access sync may disable.
use mathlib.Core.Path.{subst}
use text.Mathlib.Text.{◌==◌ as str_eq}
use amnezia_shared_panel.Base.{
  ℕ, ◌≡◌, refl, sym, ap, ◌∙◌, Bool, true, false, not, ◌&&◌, ◌||◌, List, [], ◌∷◌, map, String,
  Bool-cases, inl, inr, ◌⊎◌, arith, keep, length, ◌==◌, eq_iff,
}
use amnezia_shared_panel.Panel.{Role}
use amnezia_shared_panel.Panel.Accounts.{is_admin, targets_of}
use amnezia_shared_panel.Panel.Accounts.Admins.{
  safe_users, SafeHaveOtherIds, deactivate_by_email-safe,
}
use amnezia_shared_panel.Access.{World, has, non_empty, normalize_email}
use amnezia_shared_panel.Access.Sync.{
  Options, pinned, cf_emails, covered_by_domain, active_set, cf_removed, disable_removed,
  access_sync_run, abort, forget_abort,
}
use amnezia_shared_panel.Access.Cases.{run_cases, write_back-db}

-- What the source relies on of the string methods.
pub record StringLaws (lower trim : String → String) : Type 0 where
  pub lower-lower : (s : String) → lower (lower s) ≡ lower s
  pub trim-trim : (s : String) → trim (trim s) ≡ trim s
  pub lower-empty : lower "" ≡ ""
  pub trim-empty : trim "" ≡ ""
  pub trim-lower : (s : String) → trim (lower s) ≡ lower (trim s)

module _ (lower trim : String → String) (laws : StringLaws lower trim) where
  pub normalize_idempotent :
      (s : String)
      → normalize_email lower trim (normalize_email lower trim s) ≡ normalize_email lower trim s
  normalize_idempotent s = rw (laws.trim-lower, laws.trim-trim, laws.lower-lower) refl

  targets_left : (String → Bool) → List String → List String
  targets_left pass rs = keep non_empty (map (normalize_email lower trim) (keep pass rs))

  -- The first address is the one sought and passes, or it is not needed.
  named-first :
      (pass : String → Bool) (e r : String) (rs : List String)
      → normalize_email lower trim r ≡ r
      → has e (targets_left pass (r ∷ rs)) ≡ true
      → ((pass e ≡ true) × (str_eq r e ≡ true)) ⊎ (has e (targets_left pass rs) ≡ true)
  unfolding targets_left
  named-first pass e r rs same h = elim (Bool-cases (pass r)) [
    | inr p ↦ inr (ground (arith, p, h))
    | inl p ↦ elim (Bool-cases (str_eq r e)) [
      | inl q ↦ inl (subst (λ x. pass x ≡ true) ((eq_iff r e).0 q) p, q)
      | inr q ↦ inr (ground (arith, p, q, same, h))
    ]
  ]

  -- A target that is left of tested addresses is one of them.
  named :
      (pass : String → Bool) (e : String) (bs : List String)
      → has e (targets_left pass (map (normalize_email lower trim) bs)) ≡ true
      → (pass e ≡ true) × (has e (map (normalize_email lower trim) bs) ≡ true)
  unfolding targets_left
  named pass e [] h = absurd (ground arith)
  named pass e (b ∷ bs) h =
      elim (named-first pass e (normalize_email lower trim b) (map (normalize_email lower trim) bs)
        (normalize_idempotent b) h) [
          | inl (p, q) ↦ (p, ground (arith, q))
          | inr later ↦ let (p, q) = named pass e bs later in (p, ground (arith, q))
        ]

  named-normal :
      (e : String) (bs : List String)
      → has e (map (normalize_email lower trim) bs) ≡ true
      → normalize_email lower trim e ≡ e
  named-normal e [] h = absurd (ground arith)
  named-normal e (b ∷ bs) h = elim (Bool-cases (str_eq (normalize_email lower trim b) e)) [
    | inl q ↦
        subst (λ x. normalize_email lower trim x ≡ x)
          ((eq_iff (normalize_email lower trim b) e).0 q) (normalize_idempotent b)
    | inr q ↦ named-normal e bs (ground (arith, q, h))
  ]

  -- The sweep reads an address without trimming it.
  lower-normal :
      (email : String)
      → normalize_email lower trim (lower email) ≡ lower email
      → normalize_email lower trim email ≡ lower email
  lower-normal email h =
      sym (laws.lower-lower (trim email)) ∙ ap lower (sym (laws.trim-lower email)) ∙ h

  all_refused :
      (a b c d f g active : Bool)
      → a ≡ false
      → (active && not c && not b && not d) ≡ true
      → f ≡ true
      → g ≡ false
      → (a || b || c || d || not f || g) ≡ false
  all_refused a b c d f g active ha h hf hg = ground (arith, ha, h, hf, hg)

  module _ (options : Options) where
    abbrev spares : World → String → Role → Bool
    spares w e role =
        is_admin role
        || has e (pinned lower trim options)
        || has e (cf_emails lower trim options w.policy.include)
        || covered_by_domain lower trim options w.policy e
        || not (has e (map (normalize_email lower trim) w.baseline))
        || length (cf_emails lower trim options w.policy.include) == 0

    -- Whether the account of an address may not be disabled: an administrator's, a pinned one, one
    -- whose address the policy still names or admits by a domain, and one the sync never wrote;
    -- and any at all when the policy names no address.
    unfoldable pub is_spared : World → String → Role → Bool
    is_spared w email role = spares w (normalize_email lower trim email) role

    pub passes : World → String → Bool
    passes w email =
        has email (active_set lower trim options w.db)
        && not (has email (cf_emails lower trim options w.policy.include))
        && not (has email (pinned lower trim options))
        && not (covered_by_domain lower trim options w.policy email)

    pub passes-named :
        (w : World) (e : String)
        → has e (cf_emails lower trim options w.policy.include) ≡ true
        → passes w e ≡ false
    unfolding passes
    passes-named w e h = ground (arith, h)

    pub cf_removed-some :
        (w : World)
        → length (cf_emails lower trim options w.policy.include) == 0 ≡ false
        → cf_removed lower trim options w
          ≡ keep (passes w) (map (normalize_email lower trim) w.baseline)
    unfolding cf_removed passes
    cf_removed-some w e = rw e refl

    pub cf_removed-none :
        (w : World)
        → length (cf_emails lower trim options w.policy.include) == 0 ≡ true
        → cf_removed lower trim options w ≡ []
    unfolding cf_removed
    cf_removed-none w e = rw e refl

    named_lem :
        (fresh : ℕ → ℕ → ℕ) (now : ℕ) (w : World) (email : String) (role : Role)
        → has (lower email) (targets_of lower trim fresh now (cf_removed lower trim options w))
          ≡ true
        → is_admin role ≡ false
        → is_spared w email role ≡ false
    unfolding is_spared targets_left passes
    named_lem fresh now w email role h no_admin =
        elim (Bool-cases (length (cf_emails lower trim options w.policy.include) == 0)) [
          | inl e ↦ absurd (
              ground (
                arith,
                subst (λ r. has (lower email) (targets_of lower trim fresh now r) ≡ true)
                    (cf_removed-none w e) h,
              ))
          | inr e ↦
              let (p, q) = named (passes w) (lower email) w.baseline (
                subst (λ r. has (lower email) (targets_of lower trim fresh now r) ≡ true)
                  (cf_removed-some w e) h) in
              subst (λ x. spares w x role ≡ false)
                (sym (lower-normal email (named-normal (lower email) w.baseline q)))
                (all_refused (is_admin role) (has (lower email) (pinned lower trim options))
                  (has (lower email) (cf_emails lower trim options w.policy.include))
                  (covered_by_domain lower trim options w.policy (lower email))
                  (has (lower email) (map (normalize_email lower trim) w.baseline))
                  (length (cf_emails lower trim options w.policy.include) == 0)
                  (has (lower email) (active_set lower trim options w.db)) no_admin p q e)
        ]

    disable_removed-spared :
        (fresh : ℕ → ℕ → ℕ) (now : ℕ) (w : World)
        → SafeHaveOtherIds (is_spared w) w.db.users w.db.users
        → safe_users (is_spared w) (disable_removed lower trim options fresh now w).db.users
          ≡ safe_users (is_spared w) w.db.users
    unfolding disable_removed
    disable_removed-spared fresh now w h =
        elim (Bool-cases (length (cf_removed lower trim options w) == 0)) [
          | inl e ↦ rw (e, disable_removed) refl
          | inr e ↦
              rw (e, disable_removed)
                (deactivate_by_email-safe (is_spared w) lower trim fresh now
                  (cf_removed lower trim options w) w.db (named_lem fresh now w) h)
        ]

    -- If the string methods obey their laws, and no account that a run may disable has the id of a
    -- spared one, then a run, whatever its outcome, leaves the rows of the spared accounts as they
    -- were.
    pub access_sync_run-spared :
        (before : String → String → Bool) (fresh : ℕ → ℕ → ℕ) (now : ℕ) (fetches sends : Bool)
        (w : World)
        → SafeHaveOtherIds (is_spared w) w.db.users w.db.users
        → safe_users
            (is_spared w)
            (access_sync_run lower trim options before fresh now fetches sends w).1.db.users
          ≡ safe_users (is_spared w) w.db.users
    unfolding abort is_spared
    access_sync_run-spared before fresh now fetches sends w h =
        run_cases lower trim options before fresh now w
          (λ r. safe_users (is_spared w) r.1.db.users ≡ safe_users (is_spared w) w.db.users) fetches
          sends (λ _. refl) refl (λ _. refl)
          (λ _.
            ap (λ db. safe_users (is_spared w) db.users)
              (write_back-db lower trim options sends
                (disable_removed lower trim options fresh now (forget_abort w)))
            ∙ disable_removed-spared fresh now (forget_abort w) h)
