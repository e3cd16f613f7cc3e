-- ===== src/Panel/Directory/Sweeps.antt =====
-- The sweeps over accounts leave the administrators that there are.
use mathlib.Core.Path.{subst}
use amnezia_shared_panel.Base.{
  ℕ, suc, ◌≤◌, ◌≡◌, refl, sym, ap, ◌∙◌, Bool, true, false, not, ◌&&◌, List, [], ◌∷◌, ◌++◌, map,
  some, String, ◌==◌, any, keep, length, All, Bool-cases, inl, inr, arith,
}
use text.Mathlib.Text.{◌==◌ as str_eq}
use amnezia_shared_panel.PolicyLists.{has}
use amnezia_shared_panel.PolicyLists.Prefix.{IsDistinct}
use amnezia_shared_panel.Panel.{Db, User, disabled_user, log, user_deleted}
use amnezia_shared_panel.Panel.Rows.{All-imp, All-keep, All-keep_imp}
use amnezia_shared_panel.Panel.Accounts.{
  is_admin, is_enabled, purge_one, purge_each, purgeable_users, purge_offboarded_users,
  Deactivation, deactivate, disable_and_revoke, revoke_where, reconcile_access, deactivate_by_email,
  deactivate_targets, targets_of, has_live_keys, disabled_before,
}
use amnezia_shared_panel.Panel.Accounts.Admins.{admins, HaveOtherIds, reconcile_access-admins}
use amnezia_shared_panel.Panel.Directory.{purge_users}
use amnezia_shared_panel.Panel.Directory.Counts.{
  user_ids, is_active_admin, count, IsInactive, ids-update,
}
use amnezia_shared_panel.Panel.Directory.Changes.{IsAdministered, without-IsAdministered}

-- Where the ids differ, a row of the same id is the same row.
abbrev AreAlike : List User → User → Type 0
AreAlike us u = All (λ v. (v.id == u.id) ≡ true → v ≡ u) us

absent-AreAlike : (u : User) (us : List User) → has u.id (user_ids us) ≡ false → AreAlike us u
absent-AreAlike u [] h = tt
absent-AreAlike u (v ∷ us) h =
    (λ e. absurd (ground (arith, h, e)), absent-AreAlike u us (ground (arith, h)))

one_more :
    (u : User) (us vs : List User)
    → has u.id (user_ids vs) ≡ false
    → All (AreAlike us) vs
    → All (AreAlike (u ∷ us)) vs
one_more u us [] new h = tt
one_more u us (v ∷ vs) new (h, hs) =
    ((λ e. absurd (ground (arith, e, new)), h), one_more u us vs (ground (arith, new)) hs)

distinct-AreAlike : (us : List User) → IsDistinct (user_ids us) → All (AreAlike us) us
distinct-AreAlike [] d = tt
distinct-AreAlike (u ∷ us) (new, d) =
    ((λ e. refl, absent-AreAlike u us new), one_more u us us new (distinct-AreAlike us d))

idle_rows :
    (u : User) (us : List User) → is_active_admin u ≡ false → AreAlike us u → IsInactive u.id us
idle_rows u us idle alike =
    All-imp (λ v. (v.id == u.id) ≡ true → v ≡ u)
      (λ v. (v.id == u.id) ≡ true → is_active_admin v ≡ false) us
      (λ v same e. subst (λ w. is_active_admin w ≡ false) (sym (same e)) idle) alike

others :
    (u : User) (us : List User)
    → is_admin u.role ≡ false
    → AreAlike us u
    → All (λ v. is_admin v.role ≡ true → (v.id == u.id) ≡ false) us
others u us no_admin alike =
    All-imp (λ v. (v.id == u.id) ≡ true → v ≡ u)
      (λ v. is_admin v.role ≡ true → (v.id == u.id) ≡ false) us
      (λ v same a. elim (Bool-cases (v.id == u.id)) [
        | inl e ↦
            let bad = subst (λ w. is_admin w.role ≡ true) (same e) a in
            absurd (ground (arith, bad, no_admin))
        | inr e ↦ e
      ])
      alike

have_other_ids : (us : List User) → IsDistinct (user_ids us) → HaveOtherIds us us
have_other_ids us d =
    All-imp (AreAlike us)
      (λ u. is_admin u.role ≡ false → All (λ v. is_admin v.role ≡ true → (v.id == u.id) ≡ false) us)
      us (λ u alike no_admin. others u us no_admin alike) (distinct-AreAlike us d)

-- The purge.
purge_each-IsAdministered :
    (us : List User) (db : Db)
    → All (λ u. IsInactive u.id db.users) us
    → IsAdministered db.users
    → IsAdministered (purge_each us db).users
unfolding purge_each purge_one
purge_each-IsAdministered [] db idle h = h
purge_each-IsAdministered (u ∷ us) db (idle, rest) h =
    purge_each-IsAdministered us (log user_deleted u.id (purge_one u.id db))
      (All-imp (λ v. IsInactive v.id db.users)
        (λ v. IsInactive v.id (keep (λ w. not (w.id == u.id)) db.users)) us
        (λ v.
          All-keep (λ w. (w.id == v.id) ≡ true → is_active_admin w ≡ false)
            (λ w. not (w.id == u.id)) db.users)
        rest)
      (without-IsAdministered db h u.id idle)

pub purge_users-IsAdministered :
    (confirm : Bool) (cutoff : ℕ) (db : Db)
    → IsAdministered db.users
    → IsAdministered (purge_users confirm cutoff db).users
unfolding purge_users purge_offboarded_users purgeable_users
purge_users-IsAdministered false cutoff db h = h
purge_users-IsAdministered true cutoff db h =
    purge_each-IsAdministered (purgeable_users cutoff db) db
      (All-keep_imp (AreAlike db.users) (λ u. IsInactive u.id db.users)
        (λ u. disabled_before cutoff u && not (has_live_keys u.id db)) db.users
        (λ u gone alike. idle_rows u db.users (ground (arith, gone)) alike)
        (distinct-AreAlike db.users h.1))
      h

-- The worker's sweeps.
count-admins : (us : List User) → count us ≡ length (keep (λ u. is_enabled u.status) (admins us))
count-admins [] = refl
count-admins (u ∷ us) = elim (Bool-cases (is_admin u.role)) [
  | inl a ↦ rw a (elim (Bool-cases (is_enabled u.status)) [
    | inl e ↦ rw e (ap suc (count-admins us))
    | inr e ↦ rw e (count-admins us)
  ])
  | inr a ↦ rw a (count-admins us)
]

deactivate-ids :
    (fresh : ℕ → ℕ → ℕ) (now : ℕ) (spared : String → Bool) (us : List User) (d : Deactivation)
    → user_ids (deactivate fresh now spared us d).db.users ≡ user_ids d.db.users
unfolding deactivate disable_and_revoke revoke_where
deactivate-ids fresh now spared [] d = refl
deactivate-ids fresh now spared (u ∷ us) d = elim (Bool-cases (spared u.email)) [
  | inl e ↦ rw (e, deactivate) (deactivate-ids fresh now spared us d)
  | inr e ↦ elim (Bool-cases (is_admin u.role)) [
    | inl a ↦
        rw (e, a, deactivate)
          (deactivate-ids fresh now spared us
            (record d { skipped_admins = d.skipped_admins ++ u.email ∷ [] }))
    | inr a ↦
        rw (e, a, deactivate)
          (deactivate-ids fresh now spared us (record {
            deactivated = d.deactivated ++ u.email ∷ [];
            skipped_admins = d.skipped_admins;
            db = disable_and_revoke (fresh u.id) now u.id d.db;
          })
            ∙ ids-update (λ v. v.id == u.id)
                (λ v. record v { status = disabled_user; disabled_at = some now }) d.db.users
                (λ v. refl))
  ]
]

module _ (lower trim : String → String) (fresh : ℕ → ℕ → ℕ) (now : ℕ) where
  reconcile-ids :
      (addresses : List String) (db : Db)
      → user_ids (reconcile_access lower trim fresh now addresses db).db.users ≡ user_ids db.users
  unfolding reconcile_access
  reconcile-ids [] db = refl
  reconcile-ids (a ∷ as') db =
      deactivate-ids fresh now (λ email. any (λ e. str_eq e (lower email)) (map lower (a ∷ as')))
        (keep (λ u. is_enabled u.status) db.users)
        (record { deactivated = []; skipped_admins = []; db = db })

  targets-ids :
      (targets : List String) (db : Db)
      → user_ids (deactivate_targets lower trim fresh now targets db).db.users ≡ user_ids db.users
  unfolding deactivate_targets
  targets-ids [] db = refl
  targets-ids (t ∷ ts) db =
      deactivate-ids fresh now (λ email. not (any (λ e. str_eq e (lower email)) (t ∷ ts)))
        (keep (λ u. is_enabled u.status) db.users)
        (record { deactivated = []; skipped_admins = []; db = db })

  swept :
      (before after : List User)
      → user_ids after ≡ user_ids before
      → admins after ≡ admins before
      → IsAdministered before
      → IsAdministered after
  swept before after ids same (some_admin, d) = (
    subst (λ n. 1 ≤ n)
        (count-admins before
          ∙ ap (λ us. length (keep (λ u. is_enabled u.status) us)) (sym same)
          ∙ sym (count-admins after))
        some_admin,
    subst IsDistinct (sym ids) d,
  )

  pub reconcile_access-IsAdministered :
      (addresses : List String) (db : Db)
      → IsAdministered db.users
      → IsAdministered (reconcile_access lower trim fresh now addresses db).db.users
  reconcile_access-IsAdministered addresses db h =
      swept db.users (reconcile_access lower trim fresh now addresses db).db.users
        (reconcile-ids addresses db)
        (reconcile_access-admins lower trim fresh now addresses db (have_other_ids db.users h.1)).0
        h

  pub deactivate_by_email-IsAdministered :
      (addresses : List String) (db : Db)
      → IsAdministered db.users
      → IsAdministered (deactivate_by_email lower trim fresh now addresses db).db.users
  unfolding deactivate_by_email
  deactivate_by_email-IsAdministered addresses db h =
      swept db.users (deactivate_by_email lower trim fresh now addresses db).db.users
        (targets-ids (targets_of lower trim fresh now addresses) db)
        (reconcile_access-admins lower trim fresh now addresses db (have_other_ids db.users h.1)).1
        h
