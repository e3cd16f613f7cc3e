-- ===== src/Panel/Directory/Changes.antt =====
-- Each change of accounts by an administrator leaves an active one.
use mathlib.Core.Path.{subst}
use amnezia_shared_panel.Base.{
  ℕ, ◌+◌, ◌≤◌, ◌≡◌, refl, sym, ap, Bool, true, false, not, ◌&&◌, List, [], ◌∷◌, ◌++◌, Option, none,
  some, ◌==◌, leb, or_else, any, first, length, ◌⊎◌, Bool-cases, inl, inr, arith,
}
use amnezia_shared_panel.Keys.{is_revocable}
use amnezia_shared_panel.PolicyLists.{has}
use amnezia_shared_panel.PolicyLists.Prefix.{IsDistinct}
use amnezia_shared_panel.Panel.{
  disabled_user, enabled_user, Db, User, Role, user, admin, committed, update_where,
}
use amnezia_shared_panel.Panel.Accounts.{
  is_admin, is_enabled, disable_user, revoke_where, purge_one, has_live_keys,
}
use amnezia_shared_panel.Panel.Arm.{arm_access_sync}
use amnezia_shared_panel.Panel.Admin.{active_admins, offboard, reinstate_user, remove}
use amnezia_shared_panel.Panel.Directory.{is_admin_row, set_role, set_role_of}
use amnezia_shared_panel.Panel.Directory.Counts.{
  user_ids, is_active_admin, count, IsInactive, absent-IsInactive, found-IsInactive, changed,
  count-inactive, count-one, count-grows, count-without, ids-update, keep-IsDistinct,
  add-IsDistinct, count-add,
}

-- There is an active administrator, and no two users have one id.
abbrev pub IsAdministered : List User → Type 0
IsAdministered users = (1 ≤ count users) × IsDistinct (user_ids users)

missing :
    (id : ℕ) (us : List User) → first (λ u. u.id == id) us ≡ none → has id (user_ids us) ≡ false
missing id [] h = refl
missing id (u ∷ us) h = elim (Bool-cases (u.id == id)) [
  | inl e ↦ absurd (ground (arith, h, e))
  | inr e ↦ ground (arith, e, missing id us (ground (arith, h, e)))
]

pub arm-users :
    (arm marker now : ℕ) (db : Db) → (arm_access_sync arm marker now db).users ≡ db.users
unfolding arm_access_sync
arm-users arm marker now db = ground arith

-- One row may change if it is no active administrator's, or if there are two.
one-IsAdministered :
    (id : ℕ) (f : User → User) (us : List User)
    → ((u : User) → (f u).id ≡ u.id)
    → IsAdministered us
    → IsInactive id us ⊎ (2 ≤ count us)
    → IsAdministered (changed id f us)
one-IsAdministered id f us same (some_admin, d) (inl idle) = (
  omega (arith, some_admin, count-inactive id f us idle),
  subst IsDistinct (sym (ids-update (λ u. u.id == id) f us same)) d,
)
one-IsAdministered id f us same (some_admin, d) (inr two) = (
  omega (arith, two, count-one id f us d),
  subst IsDistinct (sym (ids-update (λ u. u.id == id) f us same)) d,
)

pub grown-IsAdministered :
    (p : User → Bool) (f : User → User) (us : List User)
    → ((u : User) → (f u).id ≡ u.id)
    → ((u : User) → is_active_admin u ≡ true → is_active_admin (f u) ≡ true)
    → IsAdministered us
    → IsAdministered (update_where p f us)
grown-IsAdministered p f us same k (some_admin, d) = (
  omega (arith, some_admin, count-grows p f us k),
  subst IsDistinct (sym (ids-update p f us same)) d,
)

pub added-IsAdministered :
    (us : List User) (u : User)
    → has u.id (user_ids us) ≡ false
    → IsAdministered us
    → IsAdministered (us ++ u ∷ [])
added-IsAdministered us u new (some_admin, d) =
    (omega (arith, some_admin, count-add us u), add-IsDistinct us u d new)

-- What a guard that counts the administrators leaves possible.
guarded :
    (id : ℕ) (us : List User) (o : Option User)
    → first (λ u. u.id == id) us ≡ o
    → IsDistinct (user_ids us)
    → ((u : User) → o ≡ some u → leb (count us) 1 ≡ true → is_active_admin u ≡ false)
    → IsInactive id us ⊎ (2 ≤ count us)
guarded id us none e d k = inl (absent-IsInactive id us (missing id us e))
guarded id us (some t) e d k = elim (Bool-cases (leb (count us) 1)) [
  | inl few ↦ inl (found-IsInactive id us t d e (k t refl few))
  | inr more ↦ inr (ground (arith, more))
]

demoted-IsAdministered :
    (id : ℕ) (db : Db) (o : Option User)
    → first (λ u. u.id == id) db.users ≡ o
    → IsAdministered db.users
    → (is_admin_row o && leb (count db.users) 1) ≡ false
    → IsAdministered (set_role_of id user db.users)
demoted-IsAdministered id db o e h free =
    one-IsAdministered id (λ u. record u { role = user }) db.users (λ u. refl) h
      (guarded id db.users o e h.1 (λ u it few. not_active u it few))
  where
    not_active : (u : User) → o ≡ some u → leb (count db.users) 1 ≡ true → is_active_admin u ≡ false
    not_active u it few = ground (arith, free, it, few)

pub set_role-IsAdministered :
    (id : ℕ) (role : Role) (db : Db)
    → IsAdministered db.users
    → IsAdministered (committed (set_role id role db) db).users
unfolding set_role
set_role-IsAdministered id user db h =
    let found = first (λ u. u.id == id) db.users in
    elim (Bool-cases (is_admin_row found && leb (count db.users) 1)) [
      | inl e ↦ rw (e, set_role) h
      | inr e ↦ elim (Bool-cases (any (λ u. u.id == id) db.users)) [
        | inl there ↦ rw (e, there, set_role) (demoted-IsAdministered id db found refl h e)
        | inr out ↦ rw (e, out, set_role) h
      ]
    ]
set_role-IsAdministered id admin db h = elim (Bool-cases (any (λ u. u.id == id) db.users)) [
  | inl e ↦
      rw (e, set_role)
        (grown-IsAdministered (λ u. u.id == id) (λ u. record u { role = admin }) db.users
          (λ u. refl) (λ u a. ground (arith, a)) h)
  | inr e ↦ rw (e, set_role) h
]

-- What the tables of keys and jobs are does not matter.
module _ (db : Db) (h : IsAdministered db.users) where
  pub offboard-IsAdministered :
      (fresh : ℕ → ℕ) (now actor id : ℕ) (o : Option User)
      → first (λ u. u.id == id) db.users ≡ o
      → IsAdministered (committed (offboard fresh now actor id o db) db).users
  unfolding offboard revoke_where
  offboard-IsAdministered fresh now actor id none e = h
  offboard-IsAdministered fresh now actor id (some t) e = elim (Bool-cases (actor == id)) [
    | inl self ↦ rw (self, offboard) h
    | inr apart ↦
        elim (Bool-cases
          (is_admin t.role && is_enabled t.status && leb (length (active_admins db)) 1)) [
            | inl last ↦ rw (apart, last, offboard) h
            | inr free ↦
                rw (apart, free, offboard)
                  (subst IsAdministered
                    (sym (
                      arm-users (fresh 0) (fresh 1) now (
                        revoke_where (λ n. fresh (n + 2)) now
                          (λ k. k.owner_id == id && is_revocable k.state)
                          (disable_user now id db))))
                    (one-IsAdministered id
                      (λ u. record u { status = disabled_user; disabled_at = some now }) db.users
                      (λ u. refl) h
                      (guarded id db.users (some t) e h.1
                        (λ (u : User) (it : some t ≡ some u) (few : leb (count db.users) 1 ≡ true).
                          idle u it few free))))
          ]
  ]
    where
      idle :
          (u : User)
          → some t ≡ some u
          → leb (count db.users) 1 ≡ true
          → (is_admin t.role && is_enabled t.status && leb (length (active_admins db)) 1) ≡ false
          → is_active_admin u ≡ false
      idle u it few free =
          subst (λ v. is_active_admin v ≡ false) (ap (λ o. or_else o t) it)
            (ground (arith, few, free))

  pub reinstate_user-IsAdministered :
      (fresh : ℕ → ℕ) (now id : ℕ)
      → IsAdministered (committed (reinstate_user fresh now id db) db).users
  unfolding reinstate_user
  reinstate_user-IsAdministered fresh now id = elim (Bool-cases (any (λ u. u.id == id) db.users)) [
    | inl e ↦
        rw (e, reinstate_user)
          (subst IsAdministered
            (sym (
              arm-users (fresh 0) (fresh 1) now (record db {
                users =
                    update_where (λ u. u.id == id)
                      (λ u. record u { status = enabled_user; disabled_at = none }) db.users;
              })))
            (grown-IsAdministered (λ u. u.id == id)
              (λ u. record u { status = enabled_user; disabled_at = none }) db.users (λ u. refl)
              (λ u a. ground (arith, a)) h))
    | inr e ↦ rw (e, reinstate_user) h
  ]

  pub without-IsAdministered :
      (id : ℕ) → IsInactive id db.users → IsAdministered (purge_one id db).users
  unfolding purge_one
  without-IsAdministered id idle = (
    omega (arith, h.0, count-without id db.users idle),
    keep-IsDistinct (λ u. not (u.id == id)) db.users h.1,
  )

  pub remove-IsAdministered :
      (id : ℕ) (o : Option User)
      → first (λ u. u.id == id) db.users ≡ o
      → IsAdministered (committed (remove id o db) db).users
  unfolding remove
  remove-IsAdministered id none e = h
  remove-IsAdministered id (some t) e = elim (Bool-cases (is_enabled t.status)) [
    | inl live ↦ rw (live, remove) h
    | inr off ↦ elim (Bool-cases (has_live_keys id db)) [
      | inl keys ↦ rw (off, keys, remove) h
      | inr none_left ↦
          rw (off, none_left, remove)
            (without-IsAdministered id (found-IsInactive id db.users t h.1 e (ground (arith, off))))
    ]
  ]
