-- ===== src/Cidr/Cut/Touched.antt =====
-- When a prefix counts as touched by the blocks.
use mathlib.Core.Logic.{∥∥₁_elim}
use mathlib.Core.Bool.{Bool-set}
use amnezia_shared_panel.Base.{
  max, sym, ◌∙◌, ◌↔◌, get_elem?-drop, ap, ℕ, ◌≤◌, ◌≡◌, true, List, ◌∷◌, arith, inl, inr,
}
use amnezia_shared_panel.Cidr.{Range, holds, covers, cut, cut_at}
use amnezia_shared_panel.Cidr.Merge.{Separated}
use amnezia_shared_panel.Cidr.Cut.{
  covers-below, count_before, drop-Separated, Meets, drop-Meets, drop-covers, first_block_lem,
}

meeting_address :
    (r b : Range) (rest : List Range)
    → r.start ≤ r.end
    → Separated 0 (b ∷ rest)
    → Meets r.start (b ∷ rest)
    → b.start ≤ r.end
    → (holds r (max r.start b.start) ≡ true) × (covers (b ∷ rest) (max r.start b.start) ≡ true)
meeting_address r b rest v s m h = ground arith

cut_at-touched :
    (r : Range) (blocks : List Range)
    → r.start ≤ r.end
    → Separated 0 blocks
    → (cut_at r blocks (count_before r.start blocks)).1 ≡ true
    → (a : ℕ) × (holds r a ≡ true) × (covers blocks a ≡ true)
unfolding cut_at
cut_at-touched r blocks v s t = elim (get_elem?-drop blocks (count_before r.start blocks)) [
  | inl (missing, gone) ↦ absurd (ground (arith, missing))
  | inr (b, rest, here, split) ↦
      let a = max r.start b.start in
      let (inside, hit) =
        meeting_address r b rest v (rw split at (drop-Separated 0 r.start blocks s))
          (rw split at (drop-Meets r.start blocks)) (ground (arith, here)) in
      (
        a,
        inside,
        sym (drop-covers r.start blocks a (omega arith)) ∙ ap (λ bs. covers bs a) split ∙ hit,
      )
]

cut_at-touched_of_hit :
    (r : Range) (blocks : List Range) (a : ℕ)
    → Separated 0 blocks
    → holds r a ≡ true
    → covers blocks a ≡ true
    → (cut_at r blocks (count_before r.start blocks)).1 ≡ true
unfolding cut_at
cut_at-touched_of_hit r blocks a s inside hit =
    elim (get_elem?-drop blocks (count_before r.start blocks)) [
      | inl (missing, gone) ↦
          absurd (ground (arith, drop-covers r.start blocks a, ap (λ bs. covers bs a) gone))
      | inr (b, rest, here, split) ↦
          let kept = rw split at (drop-Separated 0 r.start blocks s) in
          rw (here, cut_at)
            (ground (
              arith,
              drop-covers r.start blocks a,
              ap (λ bs. covers bs a) split,
              covers-below b.start (b ∷ rest) a (omega arith, kept.1, kept.2),
            ))
    ]

-- A range that is not empty counts as touched by such blocks exactly when one of them covers one
-- of its addresses.
cut-touched :
    (r : Range) (blocks : List Range)
    → r.start ≤ r.end
    → Separated 0 blocks
    → ((cut r blocks).1 ≡ true) ↔ ∥ ((a : ℕ) × (holds r a ≡ true) × (covers blocks a ≡ true)) ∥₁
cut-touched r blocks v s =
    unfold cut in
    rw (first_block_lem r blocks s) (
      λ t. ∣ cut_at-touched r blocks v s t ∣₁,
      λ h.
          ∥∥₁_elim h (Bool-set _ _)
            (λ (a, inside, hit). cut_at-touched_of_hit r blocks a s inside hit),
    )
