-- ===== src/Panel/Directory/Admins.antt =====
-- The panel is never left without an administrator.
use mathlib.Core.Path.{subst}
use text.Mathlib.Text.{◌==◌ as str_eq}
use amnezia_shared_panel.Base.{
  ℕ, ◌≡◌, refl, sym, Bool, false, not, ◌&&◌, List, [], ◌∷◌, ◌++◌, Option, none, some, String,
  if◌then◌else◌, ◌==◌, any, first, Bool-cases, inl, inr, arith,
}
use amnezia_shared_panel.PolicyLists.{has}
use amnezia_shared_panel.Panel.{Db, User, Role, user, admin, Answer, ok, err, committed}
use amnezia_shared_panel.Panel.Accounts.{is_admin, reconcile_access, deactivate_by_email}
use amnezia_shared_panel.Panel.Admin.{offboard_user, reinstate_user, delete_user}
use amnezia_shared_panel.Panel.Directory.{
  Directory, Allowlist, IdentityClaim, resolve_identity, log_in, log_in_by_email, identity_user,
  promoted, is_bootstrap, is_admitted, new_user, create_user, set_role, purge_users, cascade,
}
use amnezia_shared_panel.Panel.Directory.Counts.{user_ids}
use amnezia_shared_panel.Access.{normalize_email}
use amnezia_shared_panel.Panel.Directory.Sweeps.{
  purge_users-IsAdministered, reconcile_access-IsAdministered, deactivate_by_email-IsAdministered,
}
use amnezia_shared_panel.Panel.Directory.Changes.{
  IsAdministered, arm-users, grown-IsAdministered, added-IsAdministered, set_role-IsAdministered,
  offboard-IsAdministered, reinstate_user-IsAdministered, remove-IsAdministered,
}

module _ (lower trim : String → String) (options : Allowlist) where
  -- What changes accounts: log-ins, the administrator's calls and the worker's sweeps. A new
  -- account's uuid is new.
  pub data AccountStep (d : Directory) : Directory → Type 0 where
    logs_in :
        (fresh now : ℕ) (claim : IdentityClaim) (u : User) (after : Directory)
        → has fresh (user_ids d.db.users) ≡ false
        → resolve_identity lower trim options fresh now claim d ≡ ok (u, after)
        → AccountStep d after
    is_created :
        (fresh now arm marker : ℕ) (address : String) (role : Role)
        → has fresh (user_ids d.db.users) ≡ false
        → AccountStep d (
            cascade
              (committed
                (create_user lower trim options fresh now arm marker address role d.db)
                d.db)
              d)
    gets_role :
        (id : ℕ) (role : Role) → AccountStep d (cascade (committed (set_role id role d.db) d.db) d)
    is_offboarded :
        (fresh : ℕ → ℕ) (now actor id : ℕ)
        → AccountStep d (cascade (committed (offboard_user fresh now actor id d.db) d.db) d)
    is_reinstated :
        (fresh : ℕ → ℕ) (now id : ℕ)
        → AccountStep d (cascade (committed (reinstate_user fresh now id d.db) d.db) d)
    is_deleted : (id : ℕ) → AccountStep d (cascade (committed (delete_user id d.db) d.db) d)
    are_purged :
        (confirm : Bool) (cutoff : ℕ) → AccountStep d (cascade (purge_users confirm cutoff d.db) d)
    are_reconciled :
        (fresh : ℕ → ℕ → ℕ) (now : ℕ) (addresses : List String)
        → AccountStep d (cascade (reconcile_access lower trim fresh now addresses d.db).db d)
    are_removed :
        (fresh : ℕ → ℕ → ℕ) (now : ℕ) (addresses : List String)
        → AccountStep d (cascade (deactivate_by_email lower trim fresh now addresses d.db).db d)

  pub data AccountSteps (d : Directory) : Directory → Type 0 where
    here : AccountSteps d d
    then_step :
        (before after : Directory)
        → AccountSteps d before
        → AccountStep before after
        → AccountSteps d after

  promoted-IsAdministered :
      (fresh now : ℕ) (email : String) (u : User) (d : Directory)
      → IsAdministered d.db.users
      → IsAdministered (promoted lower trim options fresh now email u d).1.db.users
  promoted-IsAdministered fresh now email u d h =
      elim (Bool-cases (is_bootstrap lower trim options fresh now email && not (is_admin u.role))) [
        | inl e ↦ rw e (
            grown-IsAdministered (λ v. v.id == u.id) (λ v. record v { role = admin }) d.db.users
              (λ v. refl) (λ v a. ground (arith, a)) h)
        | inr e ↦ rw e h
      ]

  abbrev Administers : Answer (User × Directory) → Type 0
  Administers (ok r) = IsAdministered r.1.db.users
  Administers (err e) = Unit

  by_email-Administers :
      (fresh now : ℕ) (claim : IdentityClaim) (email : String) (o : Option User) (d : Directory)
      → has fresh (user_ids d.db.users) ≡ false
      → IsAdministered d.db.users
      → Administers (log_in_by_email lower trim options fresh now claim email o d)
  by_email-Administers fresh now claim email (some u) d new h =
      promoted-IsAdministered fresh now email u d h
  by_email-Administers fresh now claim email none d new h =
      elim (Bool-cases (is_admitted lower trim options fresh now claim email d)) [
        | inl e ↦ rw e (
            added-IsAdministered d.db.users
              (new_user lower trim options fresh now email
                (if is_bootstrap lower trim options fresh now email then admin else user))
              new h)
        | inr e ↦ rw e tt
      ]

  log_in-Administers :
      (fresh now : ℕ) (claim : IdentityClaim) (email : String) (o : Option User) (d : Directory)
      → has fresh (user_ids d.db.users) ≡ false
      → IsAdministered d.db.users
      → Administers (log_in lower trim options fresh now claim email o d)
  log_in-Administers fresh now claim email (some u) d new h =
      promoted-IsAdministered fresh now email u _ h
  log_in-Administers fresh now claim email none d new h =
      by_email-Administers fresh now claim email (first (λ u. str_eq u.email email) d.db.users) d
        new h

  resolve_identity-Administers :
      (fresh now : ℕ) (claim : IdentityClaim) (d : Directory)
      → has fresh (user_ids d.db.users) ≡ false
      → IsAdministered d.db.users
      → Administers (resolve_identity lower trim options fresh now claim d)
  unfolding resolve_identity
  resolve_identity-Administers fresh now claim d =
      log_in-Administers fresh now claim (normalize_email lower trim claim.email)
        (identity_user claim d) d

  create_user-IsAdministered :
      (fresh now arm marker : ℕ) (address : String) (role : Role) (db : Db)
      → has fresh (user_ids db.users) ≡ false
      → IsAdministered db.users
      → IsAdministered
          (committed (create_user lower trim options fresh now arm marker address role db) db).users
  unfolding create_user
  create_user-IsAdministered fresh now arm marker address role db new h =
      let email = normalize_email lower trim address in
      let created = new_user lower trim options fresh now email role in
      elim (Bool-cases (any (λ u. str_eq u.email email) db.users)) [
        | inl e ↦ rw (e, create_user) h
        | inr e ↦
            rw (e, create_user)
              (subst IsAdministered
                (sym (arm-users arm marker now (record db { users = db.users ++ created ∷ [] })))
                (added-IsAdministered db.users created new h))
      ]

  step-IsAdministered :
      (d e : Directory) → AccountStep d e → IsAdministered d.db.users → IsAdministered e.db.users
  unfolding offboard_user delete_user
  step-IsAdministered d e (logs_in fresh now claim u after new done) h =
      subst Administers done (resolve_identity-Administers fresh now claim d new h)
  step-IsAdministered d e (is_created fresh now arm marker address role new) h =
      create_user-IsAdministered fresh now arm marker address role d.db new h
  step-IsAdministered d e (gets_role id role) h = set_role-IsAdministered id role d.db h
  step-IsAdministered d e (is_offboarded fresh now actor id) h =
      offboard-IsAdministered d.db h fresh now actor id (first (λ u. u.id == id) d.db.users) refl
  step-IsAdministered d e (is_reinstated fresh now id) h =
      reinstate_user-IsAdministered d.db h fresh now id
  step-IsAdministered d e (is_deleted id) h =
      remove-IsAdministered d.db h id (first (λ u. u.id == id) d.db.users) refl
  step-IsAdministered d e (are_purged confirm cutoff) h =
      purge_users-IsAdministered confirm cutoff d.db h
  step-IsAdministered d e (are_reconciled fresh now addresses) h =
      reconcile_access-IsAdministered lower trim fresh now addresses d.db h
  step-IsAdministered d e (are_removed fresh now addresses) h =
      deactivate_by_email-IsAdministered lower trim fresh now addresses d.db h

  -- If a panel has an active administrator and no two users have one id, then after any log-ins,
  -- calls of administrators on accounts and sweeps of the worker, in any order, it still has one,
  -- and the ids still differ.
  pub steps_keep_an_admin :
      (d e : Directory) → AccountSteps d e → IsAdministered d.db.users → IsAdministered e.db.users
  steps_keep_an_admin d e here h = h
  steps_keep_an_admin d e (then_step before after earlier last) h =
      step-IsAdministered before after last (steps_keep_an_admin d before earlier h)
