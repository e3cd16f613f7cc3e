-- ===== src/Cidr.antt =====
-- apps/worker/src/cidrSet.ts: taking one set of address prefixes away from another.
-- `Range` is a closed interval of addresses of one family. This file has the arithmetic on
-- ranges; `Cidr/Text` reads and prints prefixes, and `Cidr/Subtract` is `subtractCidrs` itself.
mod Tests
pub mod Merge
pub mod Cut
pub mod Prefixes
pub mod Subtract
pub mod Text
use amnezia_shared_panel.Base.{
  ℕ, zero, suc, ◌+◌, ◌-◌, ◌*◌, ◌/◌, ◌%◌, ◌^◌, Bool, true, false, ◌&&◌, List, [], ◌∷◌, ◌++◌, ltb,
  leb, ◌==◌, if◌then◌else◌, any, Option, none, some, get_elem?, length, drop,
}

pub data Family : Type 0 where
  v4 v6 : Family

-- FAMILY_BITS
abbrev pub family_bits : Family → ℕ
family_bits v4 = 32
family_bits v6 = 128

pub record Range : Type 0 where
  pub family : Family
  pub start : ℕ
  pub end : ℕ

-- Whether a range has an address, and whether one of some ranges has it.
abbrev pub holds : Range → ℕ → Bool
holds r a = leb r.start a && leb a r.end

abbrev pub covers : List Range → ℕ → Bool
covers rs a = any (λ r. holds r a) rs

-- The stable sort by `start` of `mergeRanges`.
insert_range : Range → List Range → List Range
insert_range r [] = r ∷ []
insert_range r (x ∷ xs) = if leb r.start x.start then r ∷ x ∷ xs else x ∷ insert_range r xs

sort_ranges : List Range → List Range
unfolding insert_range
sort_ranges [] = []
sort_ranges (r ∷ rs) = insert_range r (sort_ranges rs)

-- `if (range.end > last.end) last.end = range.end`
abbrev widen : Range → Range → Range
widen last r = if ltb last.end r.end then record last { end = r.end } else last

-- The loop of `mergeRanges`; `last` is the newest entry of `merged`.
merge_onto : Range → List Range → List Range
merge_onto last [] = last ∷ []
merge_onto last (r ∷ rs) =
    let joined = merge_onto (widen last r) rs in
    let apart = last ∷ merge_onto r rs in if leb r.start (last.end + 1) then joined else apart

merge_sorted : List Range → List Range
unfolding merge_onto
merge_sorted [] = []
merge_sorted (r ∷ rs) = merge_onto r rs

unfoldable pub merge_ranges : List Range → List Range
unfolding merge_sorted sort_ranges
merge_ranges rs = merge_sorted (sort_ranges rs)

-- sizeOf, over ranges that are merged already.
total_size : List Range → ℕ
total_size [] = 0
total_size (r ∷ rs) = r.end - r.start + 1 + total_size rs

unfoldable pub size_of : List Range → ℕ
unfolding total_size merge_ranges
size_of rs = total_size (merge_ranges rs)

-- The binary search for the first block that ends at or after `start`, on `high - low` rounds.
block_end : List Range → ℕ → ℕ
block_end blocks i = elim (get_elem? blocks i) [ none ↦ 0 | some b ↦ b.end ]

first_block : ℕ → List Range → ℕ → ℕ → ℕ → ℕ
first_block zero blocks start low high = low
first_block (suc fuel) blocks start low high =
    let middle = (low + high) / 2 in
    let right = first_block fuel blocks start (middle + 1) high in
    let left = first_block fuel blocks start low middle in
    if ltb low high then if ltb (block_end blocks middle) start then right else left else low

-- The pieces of a prefix between the blocks, from `cursor` on: the loop over the blocks and the
-- piece behind the last of them.
abbrev piece : Range → ℕ → ℕ → List Range
piece r from to = record r { start = from; end = to } ∷ []

abbrev last_piece : Range → ℕ → List Range
last_piece r cursor = if leb cursor r.end then piece r cursor r.end else []

cut_from : Range → ℕ → List Range → List Range
cut_from r cursor [] = last_piece r cursor
cut_from r cursor (b ∷ bs) =
    let rest = if leb r.end b.end then last_piece r (r.end + 1) else cut_from r (b.end + 1) bs in
    let before = if ltb cursor b.start then piece r cursor (b.start - 1) else [] in
    if leb b.start r.end then before ++ rest else last_piece r cursor

-- One prefix against the merged blocks of its family, `low` being the first that reaches it: what
-- is kept, and whether the prefix was touched.
cut_at : Range → List Range → ℕ → List Range × Bool
unfolding cut_from
cut_at r blocks low = elim (get_elem? blocks low) [
  | none ↦ (r ∷ [], false)
  | some b ↦
      if ltb r.end b.start then (r ∷ [], false) else (cut_from r r.start (drop low blocks), true)
]

unfoldable pub cut : Range → List Range → List Range × Bool
unfolding cut_at first_block block_end
cut r blocks = cut_at r blocks (first_block (length blocks) blocks r.start 0 (length blocks))
