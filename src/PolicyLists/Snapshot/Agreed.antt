-- ===== src/PolicyLists/Snapshot/Agreed.antt =====
-- The command line and the control API agree on which lists are fine.
use amnezia_shared_panel.Base.{
  ℕ, suc, ◌≡◌, refl, sym, ◌∙◌, ap, Bool, true, false, not, ◌&&◌, List, [], ◌∷◌, first, first-passes,
  length, take, Bool-cases, Option-cases, inl, inr, arith,
}
use amnezia_shared_panel.PolicyLists.{
  has, delete, Check, prefix, behind, unpositioned, walk, verdict, report, find_from,
  check_recommended_prefix,
}
use amnezia_shared_panel.PolicyLists.Prefix.{IsDistinct}
use amnezia_shared_panel.PolicyLists.Snapshot.{
  Snapshot, in_prefix, offender, top_of, find_unpositioned, check_stored_prefix,
}
use amnezia_shared_panel.PolicyLists.Snapshot.Among.{
  among, among-has, has-among, among-delete, delete-shorter, delete-same, delete-next, dedupe-same,
  delete-IsDistinct, too_many, length-take-le, first-misses, first-has, take-has,
}

abbrev pub is_fine : Snapshot → Bool
is_fine in_prefix = true
is_fine (offender id reason) = false

abbrev pub is_prefix : Check → Bool
is_prefix (prefix canonical) = true
is_prefix (behind id position) = false
is_prefix (unpositioned id) = false

abbrev is_empty : List ℕ → Bool
is_empty [] = true
is_empty (id ∷ ids) = false

-- A walk that stops at once wants nothing, or wants more than fits.
stopped :
    (id : ℕ) (ids wanted : List ℕ)
    → IsDistinct wanted
    → has id wanted ≡ false
    → is_empty wanted ≡ among wanted (take (length wanted) (id ∷ ids))
stopped id ids [] d e = refl
stopped id ids (w ∷ ws) d e = sym (
    among-delete id (w ∷ ws) (take (length ws) ids)
    ∙ ap (λ l. among l (take (length ws) ids)) (delete-same id (w ∷ ws) e)
    ∙ too_many (w ∷ ws) (take (length ws) ids) d (omega (arith, length-take-le (length ws) ids)))

-- The walk ends with nothing left exactly if the wanted ids are the first of the order.
pub walk-among :
    (order wanted : List ℕ)
    → IsDistinct wanted
    → is_empty (walk order wanted).1 ≡ among wanted (take (length wanted) order)
unfolding walk
walk-among [] [] d = refl
walk-among [] (w ∷ ws) d = refl
walk-among (id ∷ ids) wanted d = elim (Bool-cases (has id wanted)) [
  | inl e ↦
      let size : length wanted ≡ suc (length (delete id wanted)) =
        omega (arith, delete-next id wanted d, delete-shorter id wanted e) in
      rw (e, walk, size)
        (walk-among ids (delete id wanted) (delete-IsDistinct id wanted d)
          ∙ sym (among-delete id wanted (take (length (delete id wanted)) ids)))
  | inr e ↦ rw (e, walk) (stopped id ids wanted d e)
]

pub verdict-accepted :
    (recommended order : List ℕ) (walked : List ℕ × List ℕ)
    → is_prefix (verdict recommended order walked) ≡ is_empty walked.1
unfolding verdict report
verdict-accepted recommended order (canonical, []) = refl
verdict-accepted recommended order (canonical, left ∷ lefts) =
    elim (Option-cases (find_from 0 (left ∷ lefts) order)) [
      | inl e ↦ rw (e, report) refl
      | inr (found, e) ↦ rw (e, report) refl
    ]

module _ (recommended order : List ℕ) where
  -- An offender is recommended and not at the top.
  refuted :
      (id : ℕ)
      → has id recommended ≡ true
      → has id (top_of recommended order) ≡ false
      → false ≡ among recommended (top_of recommended order)
  refuted id h out = elim (Bool-cases (among recommended (top_of recommended order))) [
    | inl all ↦
        let there = among-has recommended (top_of recommended order) id all h in
        absurd (ground (arith, out, there))
    | inr e ↦ sym e
  ]

  missing-out : (id : ℕ) → has id order ≡ false → has id (top_of recommended order) ≡ false
  missing-out id h = elim (Bool-cases (has id (top_of recommended order))) [
    | inl e ↦ absurd (ground (arith, h, take-has (length recommended) id order e))
    | inr e ↦ e
  ]

  snapshot-among :
      is_fine (check_stored_prefix recommended order) ≡ among recommended (top_of recommended order)
  unfolding check_stored_prefix
  snapshot-among =
      let p : ℕ → Bool = λ id. has id recommended && not (has id (top_of recommended order)) in
      elim (Option-cases (first p order)) [
        | inr (id, e) ↦
            let w = first-passes p order id e in
            rw (e, check_stored_prefix) (refuted id (ground (arith, w)) (ground (arith, w)))
        | inl e ↦ elim (Option-cases (first (λ id. not (has id order)) recommended)) [
          | inr (id, f) ↦
              let w = first-passes (λ id. not (has id order)) recommended id f in
              rw (e, f, check_stored_prefix, find_unpositioned)
                (refuted id (first-has (λ id. not (has id order)) recommended id f)
                  (missing-out id (ground (arith, w))))
          | inl f ↦
              rw (e, f, check_stored_prefix, find_unpositioned)
                (sym (
                  has-among recommended (top_of recommended order) (λ x w.
                    let there = first-misses (λ id. not (has id order)) recommended x f w in
                    let top = first-misses p order x e (ground (arith, there)) in
                    ground (arith, top, w))))
        ]
      ]

-- If no recommended id is repeated, then whatever the order, the check of the command line passes
-- exactly the lists that the control API's check accepts.
pub check_stored_prefix-agrees :
    (recommended order : List ℕ)
    → IsDistinct recommended
    → is_fine (check_stored_prefix recommended order)
      ≡ is_prefix (check_recommended_prefix recommended order)
unfolding check_recommended_prefix
check_stored_prefix-agrees recommended order d = rw (dedupe-same recommended d) (
    snapshot-among recommended order
    ∙ sym (
        verdict-accepted recommended order (walk order recommended)
        ∙ walk-among order recommended d))
