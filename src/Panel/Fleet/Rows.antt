-- ===== src/Panel/Fleet/Rows.antt =====
-- Lemmas on the requests, the nodes and the lists.
use amnezia_shared_panel.Base.{
  ℕ, suc, ◌+◌, ◌≤◌, ◌≡◌, refl, ap, Bool, true, false, not, ◌&&◌, ◌||◌, List, [], ◌∷◌, ◌++◌, map,
  if◌then◌else◌, ◌==◌, any, every, keep, length, All, Bool-cases, inl, inr, arith,
}
use amnezia_shared_panel.PolicyLists.{has, delete}
use amnezia_shared_panel.PolicyLists.Prefix.{IsDistinct}
use amnezia_shared_panel.Panel.{Node, update_where}
use amnezia_shared_panel.Panel.Fleet.{RequestRow, is_awaiting, cancel}

abbrev pub awaits : ℕ → RequestRow → Bool
awaits u r = r.user_id == u && is_awaiting r.status

abbrev pub open_of : ℕ → List RequestRow → ℕ
open_of u rs = length (keep (awaits u) rs)

abbrev pub request_ids : List RequestRow → List ℕ
request_ids rs = map (λ r. r.id) rs

open-cons :
    (u : ℕ) (r : RequestRow) (rs : List RequestRow)
    → open_of u (r ∷ rs) ≡ (if awaits u r then suc (open_of u rs) else open_of u rs)
open-cons u r rs = elim (Bool-cases (awaits u r)) [ inl e ↦ rw e refl | inr e ↦ rw e refl ]

-- A change that opens no request.
pub open-update :
    (u : ℕ) (p : RequestRow → Bool) (f : RequestRow → RequestRow) (rs : List RequestRow)
    → ((r : RequestRow) → awaits u (f r) ≡ true → awaits u r ≡ true)
    → open_of u (update_where p f rs) ≤ open_of u rs
open-update u p f [] k = omega arith
open-update u p f (r ∷ rs) k = ground (
  arith,
  k r,
  open-update u p f rs k,
  open-cons u r rs,
  open-cons u r (update_where p f rs),
  open-cons u (f r) (update_where p f rs),
)

-- After the user's own are cancelled none of them is open.
pub open-cancelled :
    (u : ℕ) (rs : List RequestRow)
    → open_of u (update_where (λ r. r.user_id == u && is_awaiting r.status) cancel rs) ≡ 0
open-cancelled u [] = refl
open-cancelled u (r ∷ rs) = elim (Bool-cases (r.user_id == u && is_awaiting r.status)) [
  | inl e ↦ rw e (ground (arith, open-cancelled u rs))
  | inr e ↦ rw (e, e) (open-cancelled u rs)
]

pub open-append :
    (u : ℕ) (rs : List RequestRow) (r : RequestRow)
    → open_of u (rs ++ r ∷ []) ≡ open_of u rs + (if awaits u r then 1 else 0)
open-append u [] r = ground (arith, open-cons u r [])
open-append u (s ∷ rs) r =
    ground (arith, open-append u rs r, open-cons u s rs, open-cons u s (rs ++ r ∷ []))

pub request_ids-update :
    (p : RequestRow → Bool) (f : RequestRow → RequestRow) (rs : List RequestRow)
    → ((r : RequestRow) → (f r).id ≡ r.id)
    → request_ids (update_where p f rs) ≡ request_ids rs
request_ids-update p f [] k = refl
request_ids-update p f (r ∷ rs) k = ground (arith, k r, request_ids-update p f rs k)

pub ids-append :
    (ids : List ℕ) (x : ℕ) → IsDistinct ids → has x ids ≡ false → IsDistinct (ids ++ x ∷ [])
ids-append [] x d h = (refl, tt)
ids-append (y ∷ ys) x (new, d) h =
    (ground (arith, has-last ys x y, new, h), ids-append ys x d (ground (arith, h)))
  where
    has-last : (zs : List ℕ) (z w : ℕ) → has w (zs ++ z ∷ []) ≡ (has w zs || (z == w))
    has-last [] z w = ground arith
    has-last (v ∷ zs) z w = ground (arith, has-last zs z w)

-- The nodes that are left.
pub exists-dropped :
    (id n : ℕ) (nodes : List Node)
    → any (λ m. m.id == n) nodes ≡ true
    → (n == id) ≡ false
    → any (λ m. m.id == n) (keep (λ m. not (m.id == id)) nodes) ≡ true
exists-dropped id n [] h apart = h
exists-dropped id n (m ∷ ms) h apart = elim (Bool-cases (m.id == id)) [
  | inl e ↦ rw e (exists-dropped id n ms (ground (arith, h, e, apart)) apart)
  | inr e ↦ rw e (ground (arith, h, exists-dropped id n ms))
]

-- Taking one id out of both lists keeps one a prefix of the other.
pub delete-append : (id : ℕ) (xs ys : List ℕ) → delete id (xs ++ ys) ≡ delete id xs ++ delete id ys
delete-append id [] ys = refl
delete-append id (x ∷ xs) ys = elim (Bool-cases (x == id)) [
  | inl e ↦ rw e (delete-append id xs ys)
  | inr e ↦ rw e (ap (λ l. x ∷ l) (delete-append id xs ys))
]

pub every-All : (p : ℕ → Bool) (xs : List ℕ) → every p xs ≡ true → All (λ x. p x ≡ true) xs
every-All p [] h = tt
every-All p (x ∷ xs) h = (ground (arith, h), every-All p xs (ground (arith, h)))
