-- ===== src/Panel/Directory/Counts.antt =====
-- How many active administrators a change of rows leaves.
use mathlib.Core.Path.{subst}
use amnezia_shared_panel.Base.{
  ℕ, suc, ◌≤◌, ◌≡◌, refl, sym, Bool, true, false, not, ◌&&◌, List, [], ◌∷◌, ◌++◌, map, some,
  if◌then◌else◌, ◌==◌, any, first, keep, length, All, Bool-cases, inl, inr, arith,
}
use amnezia_shared_panel.PolicyLists.{has}
use amnezia_shared_panel.PolicyLists.Prefix.{IsDistinct}
use amnezia_shared_panel.Panel.{User, update_where}
use amnezia_shared_panel.Panel.Accounts.{is_admin, is_enabled}

abbrev pub user_ids : List User → List ℕ
user_ids users = map (λ u. u.id) users

abbrev pub is_active_admin : User → Bool
is_active_admin u = is_admin u.role && is_enabled u.status

abbrev pub count : List User → ℕ
count users = length (keep is_active_admin users)

count-cons :
    (u : User) (us : List User)
    → count (u ∷ us) ≡ (if is_active_admin u then suc (count us) else count us)
count-cons u us = elim (Bool-cases (is_active_admin u)) [ inl e ↦ rw e refl | inr e ↦ rw e refl ]

-- None of the rows with this id is an active administrator.
abbrev pub IsInactive : ℕ → List User → Type 0
IsInactive id users = All (λ u. (u.id == id) ≡ true → is_active_admin u ≡ false) users

pub absent-IsInactive : (id : ℕ) (us : List User) → has id (user_ids us) ≡ false → IsInactive id us
absent-IsInactive id [] h = tt
absent-IsInactive id (u ∷ us) h =
    (λ e. absurd (ground (arith, h, e)), absent-IsInactive id us (ground (arith, h)))

found-has :
    (id : ℕ) (us : List User) (t : User)
    → first (λ u. u.id == id) us ≡ some t
    → has id (user_ids us) ≡ true
found-has id [] t h = absurd (ground (arith, h))
found-has id (u ∷ us) t h = ground (arith, h, found-has id us t)

-- Where the ids differ, the row that is found is the only one.
pub found-IsInactive :
    (id : ℕ) (us : List User) (t : User)
    → IsDistinct (user_ids us)
    → first (λ u. u.id == id) us ≡ some t
    → is_active_admin t ≡ false
    → IsInactive id us
found-IsInactive id [] t d f h = tt
found-IsInactive id (u ∷ us) t (new, d) f h = elim (Bool-cases (u.id == id)) [
  | inl e ↦
      let same : u.id ≡ id = ground (arith, e) in
      let it : u ≡ t = ground (arith, e, f) in
      (
        λ _. subst (λ v. is_active_admin v ≡ false) (sym it) h,
        absent-IsInactive id us (subst (λ i. has i (user_ids us) ≡ false) same new),
      )
  | inr e ↦
      (λ e'. absurd (ground (arith, e, e')), found-IsInactive id us t d (ground (arith, e, f)) h)
]

module _ (id : ℕ) (f : User → User) where
  abbrev pub changed : List User → List User
  changed us = update_where (λ u. u.id == id) f us

  pub count-inactive : (us : List User) → IsInactive id us → count us ≤ count (changed us)
  count-inactive [] h = omega arith
  count-inactive (u ∷ us) (h, hs) =
      ground (arith, h, count-inactive us hs, count-cons u us, count-cons (f u) (changed us))

  -- A change of one row takes away one administrator at most.
  pub count-one : (us : List User) → IsDistinct (user_ids us) → count us ≤ suc (count (changed us))
  count-one [] d = omega arith
  count-one (u ∷ us) (new, d) = elim (Bool-cases (u.id == id)) [
    | inl e ↦
        let same : u.id ≡ id = ground (arith, e) in
        let rest =
          count-inactive us
            (absent-IsInactive id us (subst (λ i. has i (user_ids us) ≡ false) same new)) in
        ground (arith, e, rest, count-cons u us, count-cons (f u) (changed us))
    | inr e ↦ ground (arith, e, count-one us d, count-cons u us, count-cons u (changed us))
  ]

pub count-grows :
    (p : User → Bool) (f : User → User) (us : List User)
    → ((u : User) → is_active_admin u ≡ true → is_active_admin (f u) ≡ true)
    → count us ≤ count (update_where p f us)
count-grows p f [] k = omega arith
count-grows p f (u ∷ us) k = ground (
  arith,
  k u,
  count-grows p f us k,
  count-cons u us,
  count-cons u (update_where p f us),
  count-cons (f u) (update_where p f us),
)

pub count-without :
    (id : ℕ) (us : List User)
    → IsInactive id us
    → count (keep (λ u. not (u.id == id)) us) ≡ count us
count-without id [] h = refl
count-without id (u ∷ us) (h, hs) =
    let rest = keep (λ v. not (v.id == id)) us in
    ground (arith, h, count-without id us hs, count-cons u us, count-cons u rest)

pub ids-update :
    (p : User → Bool) (f : User → User) (us : List User)
    → ((u : User) → (f u).id ≡ u.id)
    → user_ids (update_where p f us) ≡ user_ids us
ids-update p f [] k = refl
ids-update p f (u ∷ us) k = ground (arith, k u, ids-update p f us k)

has-keep :
    (p : User → Bool) (us : List User) (x : ℕ)
    → has x (user_ids us) ≡ false
    → has x (user_ids (keep p us)) ≡ false
has-keep p [] x h = refl
has-keep p (u ∷ us) x h = elim (Bool-cases (p u)) [
  | inl e ↦ rw e (ground (arith, h, has-keep p us x))
  | inr e ↦ rw e (has-keep p us x (ground (arith, h)))
]

pub keep-IsDistinct :
    (p : User → Bool) (us : List User)
    → IsDistinct (user_ids us)
    → IsDistinct (user_ids (keep p us))
keep-IsDistinct p [] d = tt
keep-IsDistinct p (u ∷ us) (new, d) = elim (Bool-cases (p u)) [
  | inl e ↦ rw e (has-keep p us u.id new, keep-IsDistinct p us d)
  | inr e ↦ rw e (keep-IsDistinct p us d)
]

-- One more row, with a new id.
pub add-IsDistinct :
    (us : List User) (u : User)
    → IsDistinct (user_ids us)
    → has u.id (user_ids us) ≡ false
    → IsDistinct (user_ids (us ++ u ∷ []))
add-IsDistinct [] u d h = (refl, tt)
add-IsDistinct (v ∷ us) u (new, d) h =
    (ground (arith, has-add us u v.id, new, h), add-IsDistinct us u d (ground (arith, h)))
  where
    has-add :
        (vs : List User) (w : User) (x : ℕ)
        → has x (user_ids (vs ++ w ∷ [])) ≡ any (λ b. b) (has x (user_ids vs) ∷ (w.id == x) ∷ [])
    has-add [] w x = refl
    has-add (v ∷ vs) w x = ground (arith, has-add vs w x)

pub count-add : (us : List User) (u : User) → count us ≤ count (us ++ u ∷ [])
count-add [] u = ground arith
count-add (v ∷ us) u = ground (arith, count-add us u, count-cons v us, count-cons v (us ++ u ∷ []))
