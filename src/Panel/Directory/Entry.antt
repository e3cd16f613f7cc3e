-- ===== src/Panel/Directory/Entry.antt =====
-- Whom a log-in lets in, and what it may change.
use mathlib.Core.List.{append-nil, map-append}
use text.Mathlib.Text.{◌==◌ as str_eq}
use amnezia_shared_panel.Base.{
  ℕ, ◌≤◌, ◌≡◌, refl, sym, ap, ◌∙◌, false, not, ◌&&◌, List, [], ◌∷◌, ◌++◌, map, Option, none, some,
  String, if◌then◌else◌, ◌==◌, any, first, length, Bool-cases, inl, inr, arith,
}
use amnezia_shared_panel.Panel.{User, user, admin, UserStatus, Answer, ok, err, not_allowed}
use amnezia_shared_panel.Panel.Accounts.{is_admin}
use amnezia_shared_panel.Panel.Accounts.Admins.{admins}
use amnezia_shared_panel.Access.{normalize_email}
use amnezia_shared_panel.Panel.Directory.{
  Directory, Allowlist, IdentityClaim, resolve_identity, log_in, log_in_by_email, identity_user,
  promoted, is_bootstrap, is_admitted, new_user, set_role_of,
}

-- All of a row that a log-in must leave alone: it enables and disables nobody.
abbrev pub standing : User → ℕ × String × UserStatus × Option ℕ
standing u = (u.id, u.email, u.status, u.disabled_at)

module _ (lower trim : String → String) (options : Allowlist) (fresh now : ℕ) where
  -- The users after a log-in that ends well: those before, and one new account at most, which is
  -- there only if the address is admitted. Roles change for a bootstrap address only.
  abbrev pub LetsIn : IdentityClaim → String → Directory → List User → Type 0
  LetsIn claim email d after =
      (added : List User) × (map standing after ≡ map standing d.db.users ++ map standing added)
      × (length added ≤ 1)
      × (is_admitted lower trim options fresh now claim email d ≡ false → added ≡ [])
      × (is_bootstrap lower trim options fresh now email ≡ false
          → (after ≡ d.db.users ++ added) × (admins added ≡ []))

  -- A refusal is of an address that is not admitted and that no user has.
  abbrev pub IsEntry : IdentityClaim → String → Directory → Answer (User × Directory) → Type 0
  IsEntry claim email d (ok (u, after)) = LetsIn claim email d after.db.users
  IsEntry claim email d (err e) =
      (e ≡ not_allowed)
      × (is_admitted lower trim options fresh now claim email d ≡ false)
      × (any (λ u. str_eq u.email email) d.db.users ≡ false)

  promote-standing :
      (id : ℕ) (us : List User) → map standing (set_role_of id admin us) ≡ map standing us
  promote-standing id [] = refl
  promote-standing id (u ∷ us) = elim (Bool-cases (u.id == id)) [
    | inl e ↦ rw e (ap (λ l. standing u ∷ l) (promote-standing id us))
    | inr e ↦ rw e (ap (λ l. standing u ∷ l) (promote-standing id us))
  ]

  promoted-LetsIn :
      (claim : IdentityClaim) (email : String) (u : User) (d e : Directory)
      → e.db.users ≡ d.db.users
      → LetsIn claim email d (promoted lower trim options fresh now email u e).1.db.users
  promoted-LetsIn claim email u d e same =
      elim (Bool-cases (is_bootstrap lower trim options fresh now email && not (is_admin u.role))) [
        | inl b ↦ rw b (
          [],
          promote-standing u.id e.db.users
              ∙ ap (map standing) same
              ∙ sym (append-nil (map standing d.db.users)),
          omega arith,
          λ _. refl,
          λ no_bootstrap. absurd (ground (arith, b, no_bootstrap)),
        )
        | inr b ↦ rw b (
          [],
          ap (map standing) same ∙ sym (append-nil (map standing d.db.users)),
          omega arith,
          λ _. refl,
          λ no_bootstrap. (same ∙ sym (append-nil d.db.users), refl),
        )
      ]

  no_user :
      (email : String) (us : List User)
      → first (λ u. str_eq u.email email) us ≡ none
      → any (λ u. str_eq u.email email) us ≡ false
  no_user email [] h = refl
  no_user email (u ∷ us) h = elim (Bool-cases (str_eq u.email email)) [
    | inl e ↦ absurd (ground (arith, h, e))
    | inr e ↦ ground (arith, e, no_user email us (ground (arith, h, e)))
  ]

  by_email-IsEntry :
      (claim : IdentityClaim) (email : String) (d : Directory) (o : Option User)
      → first (λ u. str_eq u.email email) d.db.users ≡ o
      → IsEntry claim email d (log_in_by_email lower trim options fresh now claim email o d)
  by_email-IsEntry claim email d (some u) e = promoted-LetsIn claim email u d d refl
  by_email-IsEntry claim email d none e =
      elim (Bool-cases (is_admitted lower trim options fresh now claim email d)) [
        | inl a ↦
            let role = if is_bootstrap lower trim options fresh now email then admin else user in
            let u = new_user lower trim options fresh now email role in
            rw a (
              u ∷ [],
              map-append standing d.db.users (u ∷ []),
              omega arith,
              λ refused. absurd (ground (arith, a, refused)),
              λ no_bootstrap. (refl, rw no_bootstrap refl),
            )
        | inr a ↦ rw a (refl, a, no_user email d.db.users e)
      ]

  log_in-IsEntry :
      (claim : IdentityClaim) (email : String) (d : Directory) (o : Option User)
      → IsEntry claim email d (log_in lower trim options fresh now claim email o d)
  log_in-IsEntry claim email d (some u) = promoted-LetsIn claim email u d _ refl
  log_in-IsEntry claim email d none =
      by_email-IsEntry claim email d (first (λ u. str_eq u.email email) d.db.users) refl

  -- What a log-in comes to, whatever the claim and the rows. A refusal changes nothing, and the
  -- address is not admitted and no user's. Otherwise the rows of before are there with their ids,
  -- addresses, statuses and times, and one new user at most, none if the address is not admitted;
  -- and for an address that is not a bootstrap administrator's, roles are as before and the new
  -- user is no administrator.
  pub resolve_identity-IsEntry :
      (claim : IdentityClaim) (d : Directory)
      → IsEntry claim
          (normalize_email lower trim claim.email)
          d
          (resolve_identity lower trim options fresh now claim d)
  unfolding resolve_identity
  resolve_identity-IsEntry claim d =
      log_in-IsEntry claim (normalize_email lower trim claim.email) d (identity_user claim d)
