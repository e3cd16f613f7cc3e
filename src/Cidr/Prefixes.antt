-- ===== src/Cidr/Prefixes.antt =====
-- rangeToCidrs: a range as a list of prefixes. A prefix is its address and its number of host
-- bits; `Cidr/Text` prints it.
use native.Mathlib.Nat.{pow-suc}
use amnezia_shared_panel.Base.{
  ℕ, zero, suc, ◌+◌, ◌-◌, ◌%◌, ◌^◌, ◌≤◌, ◌<◌, ◌≡◌, ◌&&◌, ◌||◌, List, [], ◌∷◌, map, arith, leb, ◌==◌,
  if◌then◌else◌, All, Bool-cases, inl, inr,
}
use amnezia_shared_panel.Cidr.{Family, family_bits, Range, holds, covers}

pub record Prefix : Type 0 where
  pub family : Family
  pub address : ℕ
  pub host_bits : ℕ

abbrev pub prefix_range : Prefix → Range
prefix_range p = record {
  family = p.family;
  start = p.address;
  end = p.address + 2 ^ p.host_bits - 1;
}

-- The inner loop: the widest block aligned at `cursor` that does not run past `end`. The fuel is
-- what is left of `hostBits < bits`.
grow : ℕ → ℕ → ℕ → ℕ → ℕ
grow zero cursor end host_bits = host_bits
grow (suc left) cursor end host_bits =
    let wider = grow left cursor end (host_bits + 1) in
    if cursor % 2 ^ (host_bits + 1) == 0 && leb (cursor + 2 ^ (host_bits + 1) - 1) end
    then wider
    else host_bits

-- The outer loop, on `end + 1 - cursor` rounds: each prefix holds one address at least.
split_from : ℕ → Family → ℕ → ℕ → List Prefix
unfolding grow
split_from zero family cursor end = []
split_from (suc fuel) family cursor end =
    let host_bits = grow (family_bits family) cursor end 0 in
    let rest = split_from fuel family (cursor + 2 ^ host_bits) end in
    if leb cursor end
    then record { family = family; address = cursor; host_bits = host_bits } ∷ rest
    else []

unfoldable pub range_to_prefixes : Range → List Prefix
unfolding split_from
range_to_prefixes r = split_from (r.end + 1 - r.start) r.family r.start r.end

pow-pos : (n : ℕ) → 0 < 2 ^ n
pow-pos zero = omega arith
pow-pos (suc n) = rw (pow-suc 2 n) (omega (arith, pow-pos n))

grow_fits :
    (left cursor end host_bits : ℕ)
    → cursor + 2 ^ host_bits ≤ end + 1
    → cursor + 2 ^ grow left cursor end host_bits ≤ end + 1
unfolding grow
grow_fits zero cursor end h fits = fits
grow_fits (suc left) cursor end h fits =
    ground (arith, grow_fits left cursor end (h + 1), pow-pos (h + 1))

-- Each prefix starts at a multiple of its size and has at most as many host bits as the family.
abbrev pub IsAligned : Prefix → Type 0
IsAligned p = (p.address % 2 ^ p.host_bits ≡ 0) × (p.host_bits ≤ family_bits p.family)

grow_aligned :
    (left cursor end host_bits : ℕ)
    → cursor % 2 ^ host_bits ≡ 0
    → (cursor % 2 ^ grow left cursor end host_bits ≡ 0)
      × (grow left cursor end host_bits ≤ host_bits + left)
unfolding grow
grow_aligned zero cursor end h al = (al, omega arith)
grow_aligned (suc left) cursor end h al = ground (arith, grow_aligned left cursor end (h + 1))

-- A first block of `size` addresses and what follows it.
block_then_rest :
    (cursor size end a : ℕ)
    → 0 < size
    → cursor + size ≤ end + 1
    → (leb cursor a && leb a (cursor + size - 1) || leb (cursor + size) a && leb a end)
      ≡ (leb cursor a && leb a end)
block_then_rest cursor size end a pos fits = ground arith

split_from-covers :
    (fuel : ℕ) (family : Family) (cursor end a : ℕ)
    → end + 1 ≤ cursor + fuel
    → covers (map prefix_range (split_from fuel family cursor end)) a ≡ (leb cursor a && leb a end)
unfolding split_from
split_from-covers zero family cursor end a h = ground arith
split_from-covers (suc fuel) family cursor end a h =
    let bits : ℕ = grow (family_bits family) cursor end 0 in
    let pos : 0 < 2 ^ bits = pow-pos bits in
    elim (Bool-cases (leb cursor end)) [
      | inl more ↦ rw more (
          rw (split_from-covers fuel family (cursor + 2 ^ bits) end a (omega arith)) (
            block_then_rest cursor (2 ^ bits) end a pos
              (grow_fits (family_bits family) cursor end 0 (ground arith))))
      | inr done ↦ rw done (ground arith)
    ]

-- The prefixes of a range cover exactly its addresses.
pub range_to_prefixes-covers :
    (r : Range) (a : ℕ) → covers (map prefix_range (range_to_prefixes r)) a ≡ holds r a
unfolding range_to_prefixes
range_to_prefixes-covers r a =
    split_from-covers (r.end + 1 - r.start) r.family r.start r.end a (omega arith)

split_from-IsAligned :
    (fuel : ℕ) (family : Family) (cursor end : ℕ)
    → All IsAligned (split_from fuel family cursor end)
unfolding split_from
split_from-IsAligned zero family cursor end = tt
split_from-IsAligned (suc fuel) family cursor end =
    let bits = grow (family_bits family) cursor end 0 in
    ground (
      arith,
      grow_aligned (family_bits family) cursor end 0,
      split_from-IsAligned fuel family (cursor + 2 ^ bits) end,
    )

-- Each prefix of a range starts at a multiple of its size and has at most its family's bits.
pub range_to_prefixes-IsAligned : (r : Range) → All IsAligned (range_to_prefixes r)
unfolding range_to_prefixes
range_to_prefixes-IsAligned r = split_from-IsAligned (r.end + 1 - r.start) r.family r.start r.end
