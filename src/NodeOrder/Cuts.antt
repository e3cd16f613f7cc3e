-- ===== src/NodeOrder/Cuts.antt =====
-- The first rows of an order, when a row is taken out or put in.
use amnezia_shared_panel.Base.{
  ℕ, zero, suc, ◌≤◌, ◌<◌, ◌≡◌, refl, ap, false, List, [], ◌∷◌, ◌++◌, some, length, get_elem?, take,
  arith,
}
use amnezia_shared_panel.PolicyLists.{has}
use amnezia_shared_panel.PolicyLists.Prefix.{IsDistinct}
use amnezia_shared_panel.NodeOrder.{remove_at, insert_at}
use amnezia_shared_panel.NodeOrder.Moves.{get-has, differs}

pub take-insert_at :
    (c id : ℕ) (xs : List ℕ)
    → c ≤ length xs
    → (take c (insert_at c id xs) ≡ take c xs)
      × (take (suc c) (insert_at c id xs) ≡ take c xs ++ id ∷ [])
take-insert_at zero id xs h = (refl, refl)
take-insert_at (suc c) id [] h = absurd (omega (arith, h))
take-insert_at (suc c) id (x ∷ xs) h =
    let later = take-insert_at c id xs (omega (arith, h)) in
    (ap (λ l. x ∷ l) later.0, ap (λ l. x ∷ l) later.1)

pub take-remove_at : (c i : ℕ) (xs : List ℕ) → c ≤ i → take c (remove_at i xs) ≡ take c xs
take-remove_at zero i xs h = refl
take-remove_at (suc c) i [] h = refl
take-remove_at (suc c) zero (x ∷ xs) h = absurd (omega (arith, h))
take-remove_at (suc c) (suc i) (x ∷ xs) h =
    ap (λ l. x ∷ l) (take-remove_at c i xs (omega (arith, h)))

pub remove_at-take :
    (c i : ℕ) (xs : List ℕ) → i ≤ c → take c (remove_at i xs) ≡ remove_at i (take (suc c) xs)
remove_at-take zero i [] h = refl
remove_at-take zero zero (x ∷ xs) h = refl
remove_at-take zero (suc i) (x ∷ xs) h = absurd (omega (arith, h))
remove_at-take (suc c) i [] h = refl
remove_at-take (suc c) zero (x ∷ xs) h = refl
remove_at-take (suc c) (suc i) (x ∷ xs) h =
    ap (λ l. x ∷ l) (remove_at-take c i xs (omega (arith, h)))

pub length-remove_at :
    (i : ℕ) (xs : List ℕ) → i < length xs → suc (length (remove_at i xs)) ≡ length xs
length-remove_at i [] h = absurd (omega (arith, h))
length-remove_at zero (x ∷ xs) h = refl
length-remove_at (suc i) (x ∷ xs) h = omega (arith, length-remove_at i xs)

pub length-insert_at : (i id : ℕ) (xs : List ℕ) → length (insert_at i id xs) ≡ suc (length xs)
length-insert_at zero id xs = refl
length-insert_at (suc i) id [] = refl
length-insert_at (suc i) id (x ∷ xs) = ap suc (length-insert_at i id xs)

pub take-next :
    (i id : ℕ) (xs : List ℕ) → get_elem? xs i ≡ some id → take (suc i) xs ≡ take i xs ++ id ∷ []
take-next i id [] h = absurd (ground (arith, h))
take-next zero id (x ∷ xs) h = ground (arith, h)
take-next (suc i) id (x ∷ xs) h = ap (λ l. x ∷ l) (take-next i id xs h)

pub get-take :
    (c i id : ℕ) (xs : List ℕ)
    → i < c
    → get_elem? xs i ≡ some id
    → get_elem? (take c xs) i ≡ some id
get-take zero i id xs h e = absurd (omega (arith, h))
get-take (suc c) i id [] h e = e
get-take (suc c) zero id (x ∷ xs) h e = e
get-take (suc c) (suc i) id (x ∷ xs) h e = get-take c i id xs (omega (arith, h)) e

pub take_leaves_out : (c y : ℕ) (xs : List ℕ) → has y xs ≡ false → has y (take c xs) ≡ false
take_leaves_out zero y xs h = refl
take_leaves_out (suc c) y [] h = refl
take_leaves_out (suc c) y (x ∷ xs) h = ground (arith, h, take_leaves_out c y xs)

pub take-IsDistinct : (c : ℕ) (xs : List ℕ) → IsDistinct xs → IsDistinct (take c xs)
take-IsDistinct zero xs d = tt
take-IsDistinct (suc c) [] d = tt
take-IsDistinct (suc c) (x ∷ xs) (new, d) = (take_leaves_out c x xs new, take-IsDistinct c xs d)

-- A row at or below the cut is not above it.
pub get-below :
    (c i id : ℕ) (xs : List ℕ)
    → IsDistinct xs
    → c ≤ i
    → get_elem? xs i ≡ some id
    → has id (take c xs) ≡ false
get-below zero i id xs d h e = refl
get-below (suc c) i id [] d h e = refl
get-below (suc c) zero id (x ∷ xs) d h e = absurd (omega (arith, h))
get-below (suc c) (suc i) id (x ∷ xs) (new, d) h e = ground (
  arith,
  get-below c i id xs d (omega (arith, h)) e,
  get-has xs i id e,
  differs x id xs new (get-has xs i id e),
)
