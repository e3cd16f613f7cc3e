-- ===== src/PolicyLists/Snapshot/Among.antt =====
-- Ids among other ids, counted.
use mathlib.Core.Path.{subst}
use amnezia_shared_panel.Base.{
  ℕ, zero, suc, ◌≤◌, ◌≡◌, refl, ◌∙◌, ap, Bool, true, false, List, [], ◌∷◌, none, some, ◌==◌, first,
  every, length, take, Bool-cases, inl, inr, arith,
}
use amnezia_shared_panel.PolicyLists.{has, delete, dedupe_node_ids}
use amnezia_shared_panel.PolicyLists.Prefix.{IsDistinct, has-delete}

-- Each wanted id is among the others.
abbrev pub among : List ℕ → List ℕ → Bool
among wanted ids = every (λ id. has id ids) wanted

pub among-has :
    (wanted ids : List ℕ) (x : ℕ) → among wanted ids ≡ true → has x wanted ≡ true → has x ids ≡ true
among-has [] ids x h w = absurd (ground (arith, w))
among-has (y ∷ ys) ids x h w = elim (Bool-cases (y == x)) [
  | inl e ↦
      let it : y ≡ x = ground (arith, e) in
      let there : has y ids ≡ true = ground (arith, h) in subst (λ z. has z ids ≡ true) it there
  | inr e ↦ among-has ys ids x (ground (arith, h)) (ground (arith, e, w))
]

has-head : (x : ℕ) (xs : List ℕ) → has x (x ∷ xs) ≡ true
has-head x xs = ground arith

-- What is among the others id by id.
pub has-among :
    (wanted ids : List ℕ)
    → ((x : ℕ) → has x wanted ≡ true → has x ids ≡ true)
    → among wanted ids ≡ true
has-among [] ids h = refl
has-among (y ∷ ys) ids h =
    let here = h y (has-head y ys) in
    let later = has-among ys ids (λ x w. h x (ground (arith, w))) in ground (arith, here, later)

pub among-delete :
    (id : ℕ) (wanted ids : List ℕ) → among wanted (id ∷ ids) ≡ among (delete id wanted) ids
among-delete id [] ids = refl
among-delete id (y ∷ ys) ids = ground (arith, among-delete id ys ids)

delete-length : (id : ℕ) (ids : List ℕ) → length (delete id ids) ≤ length ids
delete-length id [] = omega arith
delete-length id (x ∷ xs) = ground (arith, delete-length id xs)

pub delete-shorter :
    (id : ℕ) (ids : List ℕ) → has id ids ≡ true → suc (length (delete id ids)) ≤ length ids
delete-shorter id [] h = absurd (ground (arith, h))
delete-shorter id (x ∷ xs) h = ground (arith, h, delete-length id xs, delete-shorter id xs)

pub delete-same : (id : ℕ) (ids : List ℕ) → has id ids ≡ false → delete id ids ≡ ids
delete-same id [] h = refl
delete-same id (x ∷ xs) h = ground (arith, h, delete-same id xs)

pub delete-next :
    (id : ℕ) (ids : List ℕ) → IsDistinct ids → length ids ≤ suc (length (delete id ids))
delete-next id [] d = omega arith
delete-next id (x ∷ xs) (new, d) = elim (Bool-cases (x == id)) [
  | inl e ↦
      let it : x ≡ id = ground (arith, e) in
      let kept = delete-same id xs (subst (λ z. has z xs ≡ false) it new) in
      rw (e, kept) (omega arith)
  | inr e ↦ rw e (omega (arith, delete-next id xs d))
]

pub dedupe-same : (ids : List ℕ) → IsDistinct ids → dedupe_node_ids ids ≡ ids
unfolding dedupe_node_ids
dedupe-same [] d = refl
dedupe-same (id ∷ ids) (new, d) =
    ap (λ l. id ∷ l) (ap (delete id) (dedupe-same ids d) ∙ delete-same id ids new)

pub delete-IsDistinct : (id : ℕ) (ids : List ℕ) → IsDistinct ids → IsDistinct (delete id ids)
delete-IsDistinct id [] d = tt
delete-IsDistinct id (x ∷ xs) (new, d) = elim (Bool-cases (x == id)) [
  | inl e ↦ rw e (delete-IsDistinct id xs d)
  | inr e ↦ rw e (ground (arith, new, has-delete x id xs), delete-IsDistinct id xs d)
]

-- More ids than there are places for.
pub too_many :
    (wanted ids : List ℕ)
    → IsDistinct wanted
    → suc (length ids) ≤ length wanted
    → among wanted ids ≡ false
too_many [] ids d h = absurd (omega (arith, h))
too_many (w ∷ ws) [] d h = refl
too_many (w ∷ ws) (id ∷ ids) d h =
    among-delete id (w ∷ ws) ids
    ∙ too_many (delete id (w ∷ ws)) ids (delete-IsDistinct id (w ∷ ws) d)
        (omega (arith, h, delete-next id (w ∷ ws) d))

pub length-take-le : (n : ℕ) (ids : List ℕ) → length (take n ids) ≤ n
length-take-le zero ids = omega arith
length-take-le (suc n) [] = omega arith
length-take-le (suc n) (id ∷ ids) = omega (arith, length-take-le n ids)

-- What `first` leaves.
pub first-misses :
    (p : ℕ → Bool) (xs : List ℕ) (x : ℕ) → first p xs ≡ none → has x xs ≡ true → p x ≡ false
first-misses p [] x h m = absurd (ground (arith, m))
first-misses p (y ∷ ys) x h m = elim (Bool-cases (p y)) [
  | inl e ↦ absurd (ground (arith, h, e))
  | inr e ↦ elim (Bool-cases (y == x)) [
    | inl same ↦ let it : y ≡ x = ground (arith, same) in subst (λ z. p z ≡ false) it e
    | inr apart ↦ first-misses p ys x (ground (arith, h, e)) (ground (arith, m, apart))
  ]
]

pub first-has : (p : ℕ → Bool) (xs : List ℕ) (x : ℕ) → first p xs ≡ some x → has x xs ≡ true
first-has p [] x h = absurd (ground (arith, h))
first-has p (y ∷ ys) x h = elim (Bool-cases (p y)) [
  | inl e ↦ ground (arith, h, e)
  | inr e ↦ ground (arith, first-has p ys x (ground (arith, h, e)))
]

pub take-has : (n x : ℕ) (ids : List ℕ) → has x (take n ids) ≡ true → has x ids ≡ true
take-has zero x ids h = absurd (ground (arith, h))
take-has (suc n) x [] h = h
take-has (suc n) x (id ∷ ids) h = ground (arith, h, take-has n x ids)
