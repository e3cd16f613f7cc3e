-- ===== src/Cidr/Cut.antt =====
-- One prefix cut by the merged blocks of its family.
mod Touched
use mathlib.Core.Logic.{∥∥₁_elim}
use mathlib.Core.Bool.{Bool-set}
use amnezia_shared_panel.Base.{
  if◌then◌else◌, max, sym, ◌∙◌, ◌↔◌, get_elem?-drop, ap, ℕ, zero, suc, ◌+◌, ◌/◌, ◌≤◌, ◌<◌, ◌≡◌,
  refl, ◌&&◌, not, true, false, List, [], ◌∷◌, arith, All, leb, ltb, inl, inr, length, drop,
}
use amnezia_shared_panel.Cidr.{Range, holds, covers, cut_from, cut, cut_at, first_block, block_end}
use amnezia_shared_panel.Cidr.Merge.{Separated, Separated-le}

-- Nothing below the first block is covered.
pub covers-below :
    (lo : ℕ) (bs : List Range) (a : ℕ) → Separated lo bs → a < lo → covers bs a ≡ false
covers-below lo [] a s h = refl
covers-below lo (b ∷ bs) a (k, v, s) h = ground (arith, covers-below (b.end + 2) bs a s)

-- The first block does not end before `cursor` (by more than its last address).
abbrev Reaches : ℕ → List Range → Type 0
Reaches cursor [] = Unit
Reaches cursor (b ∷ bs) = cursor ≤ b.end + 1

Separated-Reaches : (lo : ℕ) (bs : List Range) → Separated (lo + 2) bs → Reaches (lo + 1) bs
Separated-Reaches lo [] s = tt
Separated-Reaches lo (b ∷ bs) (k, v, s) = omega arith

cut_from-covers :
    (r : Range) (cursor : ℕ) (bs : List Range) (lo a : ℕ)
    → Separated lo bs
    → Reaches cursor bs
    → covers (cut_from r cursor bs) a ≡ (leb cursor a && leb a r.end && not (covers bs a))
unfolding cut_from
cut_from-covers r cursor [] lo a s h = ground arith
cut_from-covers r cursor (b ∷ bs) lo a (k, v, s) h = ground (
  arith,
  cut_from-covers r (b.end + 1) bs (b.end + 2) a s (Separated-Reaches b.end bs s),
  covers-below (b.end + 2) bs a s,
)

-- How many blocks end before `start`: the blocks in front, when they stand in order.
pub count_before : ℕ → List Range → ℕ
count_before start [] = 0
count_before start (b ∷ bs) = if ltb b.end start then suc (count_before start bs) else 0

count_before-le : (start : ℕ) (bs : List Range) → count_before start bs ≤ length bs
unfolding count_before
count_before-le start [] = omega arith
count_before-le start (b ∷ bs) = ground (arith, count_before-le start bs)

count_before_low :
    (lo start : ℕ) (bs : List Range) → Separated lo bs → start ≤ lo → count_before start bs ≡ 0
unfolding count_before
count_before_low lo start [] s h = refl
count_before_low lo start (b ∷ bs) s h = ground arith

-- A block ends before `start` exactly when its index is below that count.
block_end-lt_iff :
    (lo start : ℕ) (bs : List Range) (i : ℕ)
    → Separated lo bs
    → i < length bs
    → (ltb (block_end bs i) start ≡ ltb i (count_before start bs))
unfolding count_before block_end
block_end-lt_iff lo start [] i s h = absurd (omega arith)
block_end-lt_iff lo start (b ∷ bs) zero s h = ground arith
block_end-lt_iff lo start (b ∷ bs) (suc i) (k, v, s) h =
    ground
      (arith, block_end-lt_iff (b.end + 2) start bs i s, count_before_low (b.end + 2) start bs s)

first_block-eq-count_before :
    (lo : ℕ) (blocks : List Range) (start fuel low high : ℕ)
    → Separated lo blocks
    → low ≤ count_before start blocks
    → count_before start blocks ≤ high
    → high ≤ length blocks
    → high ≤ low + fuel
    → first_block fuel blocks start low high ≡ count_before start blocks
unfolding first_block
first_block-eq-count_before lo blocks start zero low high s p q r f = omega arith
first_block-eq-count_before lo blocks start (suc fuel) low high s p q r f = ground (
  arith,
  block_end-lt_iff lo start blocks ((low + high) / 2) s,
  first_block-eq-count_before lo blocks start fuel ((low + high) / 2 + 1) high s,
  first_block-eq-count_before lo blocks start fuel low ((low + high) / 2) s,
)

-- Of the blocks from there on: they stand in order, the first one reaches `start`, and from
-- `start` on they cover what all the blocks cover.
pub drop-Separated :
    (lo start : ℕ) (bs : List Range)
    → Separated lo bs
    → Separated lo (drop (count_before start bs) bs)
unfolding count_before
drop-Separated lo start [] s = tt
drop-Separated lo start (b ∷ bs) (k, v, s) = ground (
  arith,
  drop-Separated (b.end + 2) start bs s,
  Separated-le lo (b.end + 2) (drop (count_before start bs) bs),
)

drop-Reaches : (start : ℕ) (bs : List Range) → Reaches start (drop (count_before start bs) bs)
unfolding count_before
drop-Reaches start [] = tt
drop-Reaches start (b ∷ bs) = ground (arith, drop-Reaches start bs)

-- The first of them ends at or behind `start`.
abbrev pub Meets : ℕ → List Range → Type 0
Meets start [] = Unit
Meets start (b ∷ bs) = start ≤ b.end

pub drop-Meets : (start : ℕ) (bs : List Range) → Meets start (drop (count_before start bs) bs)
unfolding count_before
drop-Meets start [] = tt
drop-Meets start (b ∷ bs) = ground (arith, drop-Meets start bs)

pub drop-covers :
    (start : ℕ) (bs : List Range) (a : ℕ)
    → start ≤ a
    → covers (drop (count_before start bs) bs) a ≡ covers bs a
unfolding count_before
drop-covers start [] a h = refl
drop-covers start (b ∷ bs) a h = ground (arith, drop-covers start bs a)

cut_at-covers :
    (r : Range) (blocks : List Range) (a : ℕ)
    → Separated 0 blocks
    → covers (cut_at r blocks (count_before r.start blocks)).0 a
      ≡ (holds r a && not (covers blocks a))
unfolding cut_at
cut_at-covers r blocks a s = elim (get_elem?-drop blocks (count_before r.start blocks)) [
  | inl (missing, gone) ↦
      rw (missing, cut_at)
        (ground (arith, drop-covers r.start blocks a, ap (λ bs. covers bs a) gone))
  | inr (b, rest, here, split) ↦
      let inside = drop-Separated 0 r.start blocks s in
      rw (here, cut_at)
        (ground (
          arith,
          drop-covers r.start blocks a,
          ap (λ bs. covers bs a) split,
          covers-below b.start (b ∷ rest) a
              (omega arith, (rw split at inside).1, (rw split at inside).2),
          cut_from-covers r r.start (drop (count_before r.start blocks) blocks) 0 a inside
              (drop-Reaches r.start blocks),
        ))
]

first_block_lem :
    (r : Range) (blocks : List Range)
    → Separated 0 blocks
    → first_block (length blocks) blocks r.start 0 (length blocks) ≡ count_before r.start blocks
first_block_lem r blocks s =
    first_block-eq-count_before 0 blocks r.start (length blocks) 0 (length blocks) s (omega arith)
      (count_before-le r.start blocks) (omega arith) (omega arith)

-- Cutting by blocks in ascending order, none empty and none adjoining the next, keeps exactly the
-- addresses of the prefix that no block covers.
pub cut-covers :
    (r : Range) (blocks : List Range) (a : ℕ)
    → Separated 0 blocks
    → covers (cut r blocks).0 a ≡ (holds r a && not (covers blocks a))
cut-covers r blocks a s = unfold cut in rw (first_block_lem r blocks s) (cut_at-covers r blocks a s)

-- What is kept of a prefix is no empty range, and of the same family.
abbrev pub IsPieceOf : Range → Range → Type 0
IsPieceOf r p = (p.start ≤ p.end) × (p.family ≡ r.family)

cut_from-IsPieceOf :
    (r : Range) (cursor : ℕ) (bs : List Range) → All (IsPieceOf r) (cut_from r cursor bs)
unfolding cut_from
cut_from-IsPieceOf r cursor [] = ground arith
cut_from-IsPieceOf r cursor (b ∷ bs) = ground (arith, cut_from-IsPieceOf r (b.end + 1) bs)

-- What a cut leaves of a range that is not empty are ranges of its family that are not empty.
pub cut-IsPieceOf :
    (r : Range) (blocks : List Range) → r.start ≤ r.end → All (IsPieceOf r) (cut r blocks).0
unfolding cut cut_at
cut-IsPieceOf r blocks v =
    let low = first_block (length blocks) blocks r.start 0 (length blocks) in
    ground (arith, cut_from-IsPieceOf r r.start (drop low blocks))
