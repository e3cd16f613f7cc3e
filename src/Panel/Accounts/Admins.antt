-- ===== src/Panel/Accounts/Admins.antt =====
-- The sweeps that disable accounts leave administrators alone.
use amnezia_shared_panel.Base.{
  ℕ, ap, ◌≡◌, refl, ◌∙◌, Bool, true, false, not, List, [], ◌∷◌, ◌++◌, map, String, ◌==◌, keep, any,
  All, arith, Bool-cases, inl, inr, some,
}
use text.Mathlib.Text.{◌==◌ as str_eq}
use amnezia_shared_panel.Panel.{Db, User, Role, disabled_user, update_where}
use amnezia_shared_panel.Panel.Rows.{All-imp, All-keep, All-update_where}
use amnezia_shared_panel.Panel.Accounts.{
  is_admin, is_enabled, disable_and_revoke, Deactivation, deactivate, reconcile_access,
  deactivate_targets, deactivate_by_email, targets_of, revoke_where,
}

abbrev pub admins : List User → List User
admins us = keep (λ u. is_admin u.role) us

-- No user of the first list who is no administrator has the id of one in the second.
abbrev pub HaveOtherIds : List User → List User → Type 0
HaveOtherIds some_users users =
    All
      (λ u.
        is_admin u.role ≡ false → All (λ v. is_admin v.role ≡ true → (v.id == u.id) ≡ false) users)
      some_users

abbrev disabled : ℕ → User → User
disabled now u = record u { status = disabled_user; disabled_at = some now }

-- The users that a test of the address and the role lets through.
module _ (safe : String → Role → Bool) where
  abbrev pub safe_users : List User → List User
  safe_users us = keep (λ u. safe u.email u.role) us

  abbrev AreApart : ℕ → List User → Type 0
  AreApart id us = All (λ v. safe v.email v.role ≡ true → (v.id == id) ≡ false) us

  abbrev pub SafeHaveOtherIds : List User → List User → Type 0
  SafeHaveOtherIds some_users users =
      All (λ u. safe u.email u.role ≡ false → AreApart u.id users) some_users

  disable-safe :
      (now id : ℕ) (us : List User)
      → AreApart id us
      → safe_users (update_where (λ u. u.id == id) (disabled now) us) ≡ safe_users us
  disable-safe now id [] h = refl
  disable-safe now id (u ∷ us) (h, hs) = elim (Bool-cases (u.id == id)) [
    | inl e ↦ rw e (elim (Bool-cases (safe u.email u.role)) [
      | inl a ↦ absurd (ground (arith, h))
      | inr a ↦ rw a (disable-safe now id us hs)
    ])
    | inr e ↦ rw e (elim (Bool-cases (safe u.email u.role)) [
      | inl a ↦ rw a (ap (λ rest. u ∷ rest) (disable-safe now id us hs))
      | inr a ↦ rw a (disable-safe now id us hs)
    ])
  ]

  disable-HaveOtherIds :
      (now id : ℕ) (us users : List User)
      → SafeHaveOtherIds us users
      → SafeHaveOtherIds us (update_where (λ u. u.id == id) (disabled now) users)
  disable-HaveOtherIds now id us users h =
      All-imp (λ u. safe u.email u.role ≡ false → AreApart u.id users)
        (λ u.
          safe u.email u.role ≡ false
          → AreApart u.id (update_where (λ u. u.id == id) (disabled now) users))
        us
        (λ u old s.
          All-update_where (λ v. safe v.email v.role ≡ true → (v.id == u.id) ≡ false)
            (λ v. safe v.email v.role ≡ true → (v.id == u.id) ≡ false) (λ u. u.id == id)
            (disabled now) users (λ v e same. same) (λ v e same. same) (old s))
        h

  -- A sweep that spares every safe user who is no administrator changes the row of no safe user.
  pub deactivate-safe :
      (fresh : ℕ → ℕ → ℕ) (now : ℕ) (spared : String → Bool) (us : List User) (d : Deactivation)
      → ((email : String) (role : Role)
          → spared email ≡ false
          → is_admin role ≡ false
          → safe email role ≡ false)
      → SafeHaveOtherIds us d.db.users
      → safe_users (deactivate fresh now spared us d).db.users ≡ safe_users d.db.users
  unfolding deactivate disable_and_revoke revoke_where
  deactivate-safe fresh now spared [] d s h = refl
  deactivate-safe fresh now spared (u ∷ us) d s (h, hs) = elim (Bool-cases (spared u.email)) [
    | inl e ↦ rw (e, deactivate) (deactivate-safe fresh now spared us d s hs)
    | inr e ↦ elim (Bool-cases (is_admin u.role)) [
      | inl a ↦
          rw (e, a, deactivate)
            (deactivate-safe fresh now spared us
              (record d { skipped_admins = d.skipped_admins ++ u.email ∷ [] }) s hs)
      | inr a ↦
          rw (e, a, deactivate)
            (deactivate-safe fresh now spared us
                (record {
                  deactivated = d.deactivated ++ u.email ∷ [];
                  skipped_admins = d.skipped_admins;
                  db = disable_and_revoke (fresh u.id) now u.id d.db;
                })
                s (disable-HaveOtherIds now u.id us d.db.users hs)
              ∙ disable-safe now u.id d.db.users (h (s u.email u.role e a)))
    ]
  ]

module _ (lower trim : String → String) (fresh : ℕ → ℕ → ℕ) (now : ℕ) where
  deactivate_targets-admins :
      (targets : List String) (db : Db)
      → HaveOtherIds db.users db.users
      → admins (deactivate_targets lower trim fresh now targets db).db.users ≡ admins db.users
  unfolding deactivate_targets
  deactivate_targets-admins [] db h = refl
  deactivate_targets-admins (t ∷ ts) db h =
      deactivate-safe (λ _ role. is_admin role) fresh now
        (λ email. not (any (λ e. str_eq e (lower email)) (t ∷ ts)))
        (keep (λ u. is_enabled u.status) db.users)
        (record { deactivated = []; skipped_admins = []; db = db }) (λ _ _ _ no_admin. no_admin)
        (All-keep
          (λ u.
            is_admin u.role ≡ false
            → All (λ v. is_admin v.role ≡ true → (v.id == u.id) ≡ false) db.users)
          (λ u. is_enabled u.status) db.users h)

  reconcile-admins :
      (allowed : List String) (db : Db)
      → HaveOtherIds db.users db.users
      → admins (reconcile_access lower trim fresh now allowed db).db.users ≡ admins db.users
  unfolding reconcile_access
  reconcile-admins [] db h = refl
  reconcile-admins (a ∷ as') db h =
      deactivate-safe (λ _ role. is_admin role) fresh now
        (λ email. any (λ e. str_eq e (lower email)) (map lower (a ∷ as')))
        (keep (λ u. is_enabled u.status) db.users)
        (record { deactivated = []; skipped_admins = []; db = db }) (λ _ _ _ no_admin. no_admin)
        (All-keep
          (λ u.
            is_admin u.role ≡ false
            → All (λ v. is_admin v.role ≡ true → (v.id == u.id) ≡ false) db.users)
          (λ u. is_enabled u.status) db.users h)

  -- If no two users with one id have different roles, neither direction of the sweep changes the
  -- row of any administrator, whatever list of addresses it is given.
  pub reconcile_access-admins :
      (addresses : List String) (db : Db)
      → HaveOtherIds db.users db.users
      → (admins (reconcile_access lower trim fresh now addresses db).db.users ≡ admins db.users)
        × (admins (deactivate_by_email lower trim fresh now addresses db).db.users
            ≡ admins db.users)
  unfolding deactivate_by_email
  reconcile_access-admins addresses db h = (
    reconcile-admins addresses db h,
    deactivate_targets-admins (targets_of lower trim fresh now addresses) db h,
  )

-- Of the sweep that is given addresses, so too for a test that refuses every user it names who is
-- no administrator.
pub deactivate_by_email-safe :
    (safe : String → Role → Bool) (lower trim : String → String) (fresh : ℕ → ℕ → ℕ) (now : ℕ)
    (emails : List String) (db : Db)
    → ((email : String) (role : Role)
        → any (λ e. str_eq e (lower email)) (targets_of lower trim fresh now emails) ≡ true
        → is_admin role ≡ false
        → safe email role ≡ false)
    → SafeHaveOtherIds safe db.users db.users
    → safe_users safe (deactivate_by_email lower trim fresh now emails db).db.users
      ≡ safe_users safe db.users
unfolding deactivate_by_email
deactivate_by_email-safe safe lower trim fresh now emails db s h =
    targets (targets_of lower trim fresh now emails) s
  where
    targets :
        (ts : List String)
        → ((email : String) (role : Role)
            → any (λ e. str_eq e (lower email)) ts ≡ true
            → is_admin role ≡ false
            → safe email role ≡ false)
        → safe_users safe (deactivate_targets lower trim fresh now ts db).db.users
          ≡ safe_users safe db.users
    targets [] s = refl
    targets (t ∷ ts) s =
        deactivate-safe safe fresh now (λ email. not (any (λ e. str_eq e (lower email)) (t ∷ ts)))
          (keep (λ u. is_enabled u.status) db.users)
          (record { deactivated = []; skipped_admins = []; db = db })
          (λ email role named. s email role (ground (arith, named)))
          (All-keep
            (λ u.
              safe u.email u.role ≡ false
              → All (λ v. safe v.email v.role ≡ true → (v.id == u.id) ≡ false) db.users)
            (λ u. is_enabled u.status) db.users h)
