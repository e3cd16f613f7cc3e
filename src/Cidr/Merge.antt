-- ===== src/Cidr/Merge.antt =====
-- mergeRanges: the merged ranges cover the same addresses, in order, with a gap between any two.
use amnezia_shared_panel.Base.{
  ℕ, ◌+◌, ◌≤◌, ◌≡◌, refl, ◌∙◌, ◌||◌, List, [], ◌∷◌, arith, All, leb, Bool-cases, inl, inr,
}
use amnezia_shared_panel.Cidr.{
  Range, holds, covers, insert_range, sort_ranges, merge_onto, merge_sorted, merge_ranges, widen,
}

-- No range starts before `lo`, nor before the one in front of it.
abbrev Ascending : ℕ → List Range → Type 0
Ascending lo [] = Unit
Ascending lo (r ∷ rs) = (lo ≤ r.start) × Ascending r.start rs

-- Nonempty ranges in order, each at least one free address behind the one before.
abbrev pub Separated : ℕ → List Range → Type 0
Separated lo [] = Unit
Separated lo (r ∷ rs) = (lo ≤ r.start) × (r.start ≤ r.end) × Separated (r.end + 2) rs

abbrev pub IsRange : Range → Type 0
IsRange r = r.start ≤ r.end

Ascending-le : (lo hi : ℕ) (rs : List Range) → lo ≤ hi → Ascending hi rs → Ascending lo rs
Ascending-le lo hi [] h s = tt
Ascending-le lo hi (r ∷ rs) h (k, s) = (omega arith, s)

pub Separated-le : (lo hi : ℕ) (rs : List Range) → lo ≤ hi → Separated hi rs → Separated lo rs
Separated-le lo hi [] h s = tt
Separated-le lo hi (r ∷ rs) h (k, v, s) = (omega arith, v, s)

insert_range-Ascending :
    (lo : ℕ) (r : Range) (rs : List Range)
    → lo ≤ r.start
    → Ascending lo rs
    → Ascending lo (insert_range r rs)
unfolding insert_range
insert_range-Ascending lo r [] h s = (h, tt)
insert_range-Ascending lo r (x ∷ xs) h (k, s) = ground (arith, insert_range-Ascending x.start r xs)

sort_ranges-Ascending : (rs : List Range) → Ascending 0 (sort_ranges rs)
unfolding sort_ranges
sort_ranges-Ascending [] = tt
sort_ranges-Ascending (r ∷ rs) =
    insert_range-Ascending 0 r (sort_ranges rs) (omega arith) (sort_ranges-Ascending rs)

insert_range-covers :
    (r : Range) (rs : List Range) (a : ℕ)
    → covers (insert_range r rs) a ≡ (holds r a || covers rs a)
unfolding insert_range
insert_range-covers r [] a = refl
insert_range-covers r (x ∷ xs) a = ground (arith, insert_range-covers r xs a)

sort_ranges-covers : (rs : List Range) (a : ℕ) → covers (sort_ranges rs) a ≡ covers rs a
unfolding sort_ranges
sort_ranges-covers [] a = refl
sort_ranges-covers (r ∷ rs) a =
    ground (arith, insert_range-covers r (sort_ranges rs) a, sort_ranges-covers rs a)

insert_range-All :
    (r : Range) (rs : List Range) → IsRange r → All IsRange rs → All IsRange (insert_range r rs)
unfolding insert_range
insert_range-All r [] h v = (h, tt)
insert_range-All r (x ∷ xs) h (k, v) = ground (arith, insert_range-All r xs h v)

sort_ranges-All : (rs : List Range) → All IsRange rs → All IsRange (sort_ranges rs)
unfolding sort_ranges
sort_ranges-All [] v = tt
sort_ranges-All (r ∷ rs) (h, v) = insert_range-All r (sort_ranges rs) h (sort_ranges-All rs v)

widen-holds :
    (last r : Range) (a : ℕ)
    → last.start ≤ r.start
    → r.start ≤ last.end + 1
    → holds (widen last r) a ≡ (holds last a || holds r a)
widen-holds last r a h k = ground arith

merge_onto-covers :
    (last : Range) (rs : List Range) (a : ℕ)
    → Ascending last.start rs
    → covers (merge_onto last rs) a ≡ (holds last a || covers rs a)
unfolding merge_onto
merge_onto-covers last [] a s = refl
merge_onto-covers last (r ∷ rs) a (h, s) = ground (
  arith,
  widen-holds last r a h,
  merge_onto-covers (widen last r) rs a,
  Ascending-le last.start r.start rs h s,
  merge_onto-covers r rs a s,
)

merge_sorted-covers :
    (rs : List Range) (a : ℕ) → Ascending 0 rs → covers (merge_sorted rs) a ≡ covers rs a
unfolding merge_sorted
merge_sorted-covers [] a s = refl
merge_sorted-covers (r ∷ rs) a (_, s) = merge_onto-covers r rs a s

-- Merging keeps exactly the addresses that were covered.
pub merge_ranges-covers : (rs : List Range) (a : ℕ) → covers (merge_ranges rs) a ≡ covers rs a
unfolding merge_ranges
merge_ranges-covers rs a =
    merge_sorted-covers (sort_ranges rs) a (sort_ranges-Ascending rs) ∙ sort_ranges-covers rs a

merge_onto-Separated :
    (last : Range) (rs : List Range)
    → IsRange last
    → All IsRange rs
    → Ascending last.start rs
    → Separated last.start (merge_onto last rs)
unfolding merge_onto
merge_onto-Separated last [] v vs s = (omega arith, v, tt)
merge_onto-Separated last (r ∷ rs) v (w, vs) (h, s) =
    let wider : IsRange (widen last r) = ground arith in
    let same : (widen last r).start ≡ last.start = ground arith in
    let joined = merge_onto-Separated (widen last r) rs wider vs in
    let apart = merge_onto-Separated r rs w vs s in
    elim (Bool-cases (leb r.start (last.end + 1))) [
      | inl near ↦ rw near (rw same at (joined (rw same (Ascending-le last.start r.start rs h s))))
      | inr far ↦
          rw far (omega arith, v, Separated-le (last.end + 2) r.start _ (ground arith) apart)
    ]

merge_sorted-Separated :
    (rs : List Range) → All IsRange rs → Ascending 0 rs → Separated 0 (merge_sorted rs)
unfolding merge_sorted
merge_sorted-Separated [] v s = tt
merge_sorted-Separated (r ∷ rs) (w, v) (h, s) =
    Separated-le 0 r.start _ h (merge_onto-Separated r rs w v s)

-- Ranges of which none is empty are merged into ranges that stand in order and are not empty, with
-- a free address between any two.
pub merge_ranges-Separated : (rs : List Range) → All IsRange rs → Separated 0 (merge_ranges rs)
unfolding merge_ranges
merge_ranges-Separated rs v =
    merge_sorted-Separated (sort_ranges rs) (sort_ranges-All rs v) (sort_ranges-Ascending rs)
