-- ===== src/Cidr/Subtract.antt =====
-- `subtractCidrs`, over prefixes that are read already: an entry is its text and the range that
-- `parseCidr` gives for it, or none.
pub mod Exact
use amnezia_shared_panel.Base.{
  ℕ, ◌+◌, ◌-◌, ◌*◌, ◌/◌, ◌≤◌, ◌≡◌, refl, Bool, true, false, ◌&&◌, ◌||◌, not, List, [], ◌∷◌, ◌++◌,
  map, arith, ltb, leb, ◌==◌, if◌then◌else◌, All, Option, none, some, any-append,
}
use amnezia_shared_panel.Cidr.{Family, v4, v6, Range, holds, covers, merge_ranges, cut, size_of}
use amnezia_shared_panel.Cidr.Prefixes.{Prefix, range_to_prefixes}

-- Record<Family, Range[]>
pub record ByFamily : Type 0 where
  pub four : List Range
  pub six : List Range

abbrev pub of_family : Family → ByFamily → List Range
of_family v4 m = m.four
of_family v6 m = m.six

abbrev pub push : Family → List Range → ByFamily → ByFamily
push v4 rs m = record m { four = m.four ++ rs }
push v6 rs m = record m { six = m.six ++ rs }

-- The loop over `exclude`.
collect : ByFamily → List (Option Range) → ByFamily
collect m [] = m
collect m (none ∷ es) = collect m es
collect m (some r ∷ es) = collect (push r.family (r ∷ []) m) es

-- What the loop over `include` builds; `passed` are the entries that could not be read.
pub record Work (A : Type 0) : Type 0 where
  pub included : ByFamily
  pub kept : ByFamily
  pub passed : List A
  pub touched : ℕ

module _ {A : Type 0} (blocks : ByFamily) where
  visit : Work A → A → Option Range → Work A
  visit w text none = record w { passed = w.passed ++ text ∷ [] }
  visit w text (some r) =
      let (pieces, hit) = cut r (of_family r.family blocks) in
      record {
        included = push r.family (r ∷ []) w.included;
        kept = push r.family pieces w.kept;
        passed = w.passed;
        touched = if hit then w.touched + 1 else w.touched;
      }

  visit_all : Work A → List (A × Option Range) → Work A
  visit_all w [] = w
  visit_all w ((text, parsed) ∷ es) = visit_all (visit w text parsed) es

abbrev empty : ByFamily
empty = record { four = []; six = [] }

-- The share in ten-thousandths, as the source scales it before the division.
share_of : Family → ByFamily → ByFamily → ℕ
share_of family included kept =
    let total = size_of (of_family family included) in
    if total == 0 then 0 else (total - size_of (of_family family kept)) * 10_000 / total

prefixes_of : List Range → List Prefix
prefixes_of [] = []
prefixes_of (r ∷ rs) = range_to_prefixes r ++ prefixes_of rs

pub record Subtraction (A : Type 0) : Type 0 where
  pub passed : List A
  pub prefixes4 : List Prefix
  pub prefixes6 : List Prefix
  pub touched : ℕ
  pub share4 : ℕ
  pub share6 : ℕ

module _ {A : Type 0} where
  work_of : List (A × Option Range) → List (Option Range) → Work A
  unfolding collect visit visit_all
  work_of include exclude =
      let excluded = collect empty exclude in
      visit_all (record { four = merge_ranges excluded.four; six = merge_ranges excluded.six })
        (record { included = empty; kept = empty; passed = []; touched = 0 }) include

  unfoldable pub subtract : List (A × Option Range) → List (Option Range) → Subtraction A
  unfolding work_of prefixes_of share_of
  subtract include exclude =
      let w = work_of include exclude in
      record {
        passed = w.passed;
        prefixes4 = prefixes_of (merge_ranges w.kept.four);
        prefixes6 = prefixes_of (merge_ranges w.kept.six);
        touched = w.touched;
        share4 = share_of v4 w.included w.kept;
        share6 = share_of v6 w.included w.kept;
      }
