-- ===== src/Panel/Fleet/Ended.antt =====
-- Requests that have ended.
use mathlib.Core.Path.{subst}
use amnezia_shared_panel.Base.{
  ℕ, ◌≡◌, refl, Bool, true, false, ◌&&◌, List, [], ◌∷◌, some, ◌==◌, first, All, Bool-cases, inl,
  inr, arith,
}
use amnezia_shared_panel.PolicyLists.{has}
use amnezia_shared_panel.PolicyLists.Prefix.{IsDistinct}
use amnezia_shared_panel.Panel.Rows.{All-imp}
use amnezia_shared_panel.Panel.Fleet.{
  RequestRow, RequestStatus, awaiting, approved, rejected, cancelled, is_awaiting,
}
use amnezia_shared_panel.Panel.Fleet.Rows.{request_ids}

abbrev pub same_decision : RequestStatus → RequestStatus → Bool
same_decision approved approved = true
same_decision rejected rejected = true
same_decision cancelled cancelled = true
same_decision _ _ = false

-- The request has ended in this status.
abbrev pub ended_as : ℕ → RequestStatus → RequestRow → Bool
ended_as id status r = r.id == id && same_decision status r.status

pub not_awaiting : (s t : RequestStatus) → same_decision s t ≡ true → is_awaiting t ≡ false
not_awaiting awaiting awaiting h = absurd (ground (arith, h))
not_awaiting approved awaiting h = absurd (ground (arith, h))
not_awaiting rejected awaiting h = absurd (ground (arith, h))
not_awaiting cancelled awaiting h = absurd (ground (arith, h))
not_awaiting s approved h = refl
not_awaiting s rejected h = refl
not_awaiting s cancelled h = refl

pub all_rows {ℓ} : {A : Type ℓ} (P : A → Type 0) (xs : List A) → ((x : A) → P x) → All P xs
all_rows P [] k = tt
all_rows P (x ∷ xs) k = (k x, all_rows P xs k)

differ :
    (id : ℕ) (rs : List RequestRow)
    → has id (request_ids rs) ≡ false
    → All (λ x. (x.id == id) ≡ false) rs
differ id [] h = tt
differ id (r ∷ rs) h = (ground (arith, h), differ id rs (ground (arith, h)))

found-has :
    (p : RequestRow → Bool) (rs : List RequestRow) (r : RequestRow)
    → first p rs ≡ some r
    → has r.id (request_ids rs) ≡ true
found-has p [] r h = absurd (ground (arith, h))
found-has p (x ∷ xs) r h = elim (Bool-cases (p x)) [
  | inl e ↦
      let it : x ≡ r = ground (arith, e, h) in
      subst (λ y. has y.id (request_ids (x ∷ xs)) ≡ true) it (ground arith)
  | inr e ↦ ground (arith, found-has p xs r (ground (arith, e, h)))
]

-- The row under review is the only one with its id, so no row that has ended has it.
pub ended_apart :
    (id : ℕ) (rs : List RequestRow) (r : RequestRow)
    → IsDistinct (request_ids rs)
    → first (λ x. x.id == id && is_awaiting x.status) rs ≡ some r
    → All (λ x. is_awaiting x.status ≡ false → (x.id == r.id) ≡ false) rs
ended_apart id [] r d h = tt
ended_apart id (x ∷ xs) r (new, d) h = elim (Bool-cases (x.id == id && is_awaiting x.status)) [
  | inl e ↦
      let it : x ≡ r = ground (arith, e, h) in
      (
        λ done. absurd (ground (arith, e, done)),
        All-imp (λ y. (y.id == x.id) ≡ false)
            (λ y. is_awaiting y.status ≡ false → (y.id == r.id) ≡ false) xs
            (λ y other _. subst (λ z. (y.id == z.id) ≡ false) it other) (differ x.id xs new),
      )
  | inr e ↦
      let later : first (λ x. x.id == id && is_awaiting x.status) xs ≡ some r =
        ground (arith, e, h) in
      (
        λ done. elim (Bool-cases (x.id == r.id)) [
          | inr apart ↦ apart
          | inl same ↦
              let at : x.id ≡ r.id = ground (arith, same) in
              absurd (
                ground (
                  arith,
                  found-has (λ x. x.id == id && is_awaiting x.status) xs r later,
                  subst (λ i. has i (request_ids xs) ≡ false) at new,
                ))
        ],
        ended_apart id xs r d later,
      )
]
