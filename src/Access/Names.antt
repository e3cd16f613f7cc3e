-- ===== src/Access/Names.antt =====
-- The addresses and domains of rules as the names that each rule has.
use mathlib.Core.Path.{subst}
use text.Mathlib.Text.{◌==◌ as str_eq}
use amnezia_shared_panel.Base.{
  ◌≡◌, refl, sym, ap, ap₂, ◌∙◌, true, not, ◌&&◌, List, [], ◌∷◌, ◌++◌, map, String, Bool-cases, inl,
  inr, arith, any, keep, eq_iff, All, All-append, or_else, none, some, Option,
}
use amnezia_shared_panel.Panel.{Db}
use amnezia_shared_panel.Panel.Rows.{All-keep}
use amnezia_shared_panel.Access.{
  Rule, has, unique, present, non_empty, normalize_email, normalize_access_domain, rule_emails,
  rule_domain, normalize_list, normal_emails, domain_allowlist,
}
use amnezia_shared_panel.Access.Sync.{Options, desired, email_rule_of, domain_rule_of}
use amnezia_shared_panel.Access.Sets.{names, names-append, keep-present, keep-ext, strangers}
use amnezia_shared_panel.Access.Spared.{StringLaws, normalize_idempotent}

module _ (lower trim : String → String) (laws : StringLaws lower trim) where
  abbrev pub email_of : Rule → String
  email_of r = normalize_email lower trim (or_else r.email "")

  -- A text that normalising leaves as it is, and is not empty.
  abbrev pub IsNormal : String → Type 0
  IsNormal e = (non_empty e ≡ true) × (normalize_email lower trim e ≡ e)

  normal_emails-IsNormal : (xs : List String) → All IsNormal (normal_emails lower trim xs)
  normal_emails-IsNormal [] = tt
  normal_emails-IsNormal (x ∷ xs) = elim (Bool-cases (non_empty (normalize_email lower trim x))) [
    | inl e ↦ rw e ((e, normalize_idempotent lower trim laws x), normal_emails-IsNormal xs)
    | inr e ↦ rw e (normal_emails-IsNormal xs)
  ]

  unique-All {κ} : (P : String → Type κ) (xs : List String) → All P xs → All P (unique xs)
  unique-All P [] h = tt
  unique-All P (x ∷ xs) (h, hs) =
      (h, All-keep P (λ y. not (str_eq y x)) (unique xs) (unique-All P xs hs))

  pub desired-IsNormal :
      (options : Options) (db : Db) → All IsNormal (desired lower trim options db)
  desired-IsNormal options db = unique-All IsNormal _ (
      All-append IsNormal _ _ (normal_emails-IsNormal _)
        (normal_emails-IsNormal options.bootstrap_admin_emails))

  pub normal-same : (xs : List String) → All IsNormal xs → map (normalize_email lower trim) xs ≡ xs
  normal-same [] h = refl
  normal-same (x ∷ xs) (h, hs) = ground (arith, h, normal-same xs hs)

  blank_email : normalize_email lower trim "" ≡ ""
  blank_email = rw laws.trim-empty laws.lower-empty

  blank_domain : normalize_access_domain lower trim "" ≡ ""
  blank_domain = rw (laws.trim-empty, laws.lower-empty) refl

  map-map :
      (f : String → String) (g : Rule → Option String) (rs : List Rule)
      → map (λ o. f (or_else o "")) (map g rs) ≡ map (λ r. f (or_else (g r) "")) rs
  map-map f g [] = refl
  map-map f g (r ∷ rs) = ap (λ rest. f (or_else (g r) "") ∷ rest) (map-map f g rs)

  -- The domains of rules, and their addresses that are not blank, as the names of each rule.
  pub domain_allowlist-names :
      (rs : List Rule) → domain_allowlist lower trim rs ≡ unique (names (rule_domain lower trim) rs)
  domain_allowlist-names rs = ap unique (
      keep-present (normalize_access_domain lower trim) (map (λ r. r.domain) rs) blank_domain
      ∙ ap (keep non_empty) (map-map (normalize_access_domain lower trim) (λ r. r.domain) rs))

  rule_emails-names :
      (rs : List Rule) → keep non_empty (rule_emails lower trim rs) ≡ names email_of rs
  rule_emails-names rs =
      keep-present (normalize_email lower trim) (map (λ r. r.email) rs) blank_email
      ∙ ap (keep non_empty) (map-map (normalize_email lower trim) (λ r. r.email) rs)

  -- The address of a rule, if it has one, is not blank.
  abbrev pub IsNotBlank : Rule → Type 0
  IsNotBlank r = All (λ e. non_empty e ≡ true) (rule_emails lower trim (r ∷ []))

  keep-All : (xs : List String) → All (λ e. non_empty e ≡ true) xs → keep non_empty xs ≡ xs
  keep-All [] h = refl
  keep-All (x ∷ xs) (h, hs) = ground (arith, h, keep-All xs hs)

  first_email :
      (o : Option String) (os : List (Option String))
      → map (normalize_email lower trim) (present (o ∷ os))
        ≡ map (normalize_email lower trim) (present (o ∷ []))
          ++ map (normalize_email lower trim) (present os)
  first_email none os = refl
  first_email (some x) os = ground arith

  pub unblank : (rs : List Rule) → All IsNotBlank rs → rule_emails lower trim rs ≡ names email_of rs
  unblank [] h = refl
  unblank (r ∷ rs) (h, hs) =
      first_email r.email (map (λ r. r.email) rs)
      ∙ ap₂ (λ xs ys. xs ++ ys)
          (sym (keep-All (rule_emails lower trim (r ∷ [])) h) ∙ rule_emails-names (r ∷ []))
          (unblank rs hs)
      ∙ sym (names-append email_of (r ∷ []) rs)

  module _ (options : Options) where
    pub normal-names :
        (D : List String)
        → All IsNormal D
        → names email_of (map (email_rule_of lower trim options) D) ≡ D
    normal-names [] h = refl
    normal-names (x ∷ xs) ((n, e), hs) =
        let same : non_empty (normalize_email lower trim x) ≡ true = ap non_empty e ∙ n in
        rw same (ap₂ (λ y ys. y ∷ ys) e (normal-names xs hs))

    pub normal-IsNotBlank :
        (D : List String)
        → All IsNormal D
        → All IsNotBlank (map (email_rule_of lower trim options) D)
    normal-IsNotBlank [] h = tt
    normal-IsNotBlank (x ∷ xs) ((n, e), hs) =
        let same : non_empty (normalize_email lower trim x) ≡ true = ap non_empty e ∙ n in
        (rw n (same, tt), normal-IsNotBlank xs hs)

    pub domains-IsNotBlank :
        (W : List String) → All IsNotBlank (map (domain_rule_of lower trim options) W)
    domains-IsNotBlank [] = tt
    domains-IsNotBlank (x ∷ xs) = (tt, domains-IsNotBlank xs)

    -- A stored domain that normalising leaves as it is, and is not empty.
    abbrev pub IsNormalDomain : String → Type 0
    IsNormalDomain d = (non_empty d ≡ true) × (normalize_access_domain lower trim d ≡ d)

    pub normal-domains :
        (W : List String)
        → All IsNormalDomain W
        → names (rule_domain lower trim) (map (domain_rule_of lower trim options) W) ≡ W
    normal-domains [] h = refl
    normal-domains (x ∷ xs) ((n, e), hs) =
        let same : non_empty (normalize_access_domain lower trim x) ≡ true = ap non_empty e ∙ n in
        rw same (ap₂ (λ y ys. y ∷ ys) e (normal-domains xs hs))

    pub normalize_list-same :
        (W : List String) → All IsNormalDomain W → normalize_list lower trim W ≡ W
    normalize_list-same [] h = refl
    normalize_list-same (x ∷ xs) ((n, e), hs) =
        let same : non_empty (normalize_access_domain lower trim x) ≡ true = ap non_empty e ∙ n in
        rw same (ap₂ (λ y ys. y ∷ ys) e (normalize_list-same xs hs))

    foreign_of :
        (known baseline : List String) (o : Option String)
        → map (normalize_email lower trim) baseline ≡ known
        → any
            (λ e.
              non_empty e
              && not (has e (map (normalize_email lower trim) baseline))
              && not (has e known))
            (map (normalize_email lower trim) (present (o ∷ [])))
          ≡ (non_empty (normalize_email lower trim (or_else o ""))
              && not (has (normalize_email lower trim (or_else o "")) known))
    foreign_of known baseline none same = rw blank_email refl
    foreign_of known baseline (some x) same = elim (Bool-cases (str_eq x "")) [
      | inl q ↦
          let dropped : normalize_email lower trim x ≡ "" =
            subst (λ z. normalize_email lower trim z ≡ "") (sym ((eq_iff x "").0 q)) blank_email in
          rw (q, dropped) refl
      | inr q ↦ rw (q, same) (ground arith)
    ]

    -- With the known addresses as the baseline, a rule is foreign if its address is not known.
    pub foreign-strangers :
        (known baseline : List String) (rs : List Rule)
        → map (normalize_email lower trim) baseline ≡ known
        → keep
            (λ r.
              any
                (λ e.
                  non_empty e
                  && not (has e (map (normalize_email lower trim) baseline))
                  && not (has e known))
                (rule_emails lower trim (r ∷ [])))
            rs
          ≡ strangers email_of known rs
    foreign-strangers known baseline rs same =
        keep-ext _ _ rs (λ r. foreign_of known baseline r.email same)

    pub foreign-domains :
        (known baseline : List String) (rs : List Rule)
        → normalize_list lower trim baseline ≡ known
        → keep
            (λ r.
              non_empty (rule_domain lower trim r)
              && not (has (rule_domain lower trim r) (normalize_list lower trim baseline))
              && not (has (rule_domain lower trim r) known))
            rs
          ≡ strangers (rule_domain lower trim) known rs
    foreign-domains known baseline rs same = keep-ext _ _ rs (λ r. rw same (ground arith))
