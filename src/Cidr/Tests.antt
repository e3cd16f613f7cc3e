-- ===== src/Cidr/Tests.antt =====
-- Ranges written as numbers.
use amnezia_shared_panel.Base.{
  ℕ, ◌≡◌, not, ◌&&◌, [], ◌∷◌, map, All, List, arith, Option, some, none, any,
}
use amnezia_shared_panel.Cidr.{Range, v4, holds, covers, merge_ranges, cut}
use amnezia_shared_panel.Cidr.Merge.{merge_ranges-Separated, Separated}
use amnezia_shared_panel.Cidr.Cut.{cut-IsPieceOf, IsPieceOf}
use amnezia_shared_panel.Cidr.Prefixes.{
  prefix_range, range_to_prefixes, range_to_prefixes-covers, range_to_prefixes-IsAligned, IsAligned,
}
use amnezia_shared_panel.Cidr.Subtract.{subtract}
use amnezia_shared_panel.Cidr.Subtract.Exact.{subtract_exact, prefixes, lists_address, has_address}

abbrev range : ℕ → ℕ → Range
range start end = record { family = v4; start = start; end = end }

merge_ranges-Separated_example :
    Separated 0 (merge_ranges (range 8 15 ∷ range 0 7 ∷ range 20 30 ∷ []))
merge_ranges-Separated_example =
    merge_ranges-Separated (range 8 15 ∷ range 0 7 ∷ range 20 30 ∷ [])
      (omega arith, (omega arith, (omega arith, tt)))

abbrev listed : List (ℕ × Option Range)
listed = (1, some (range 0 15)) ∷ (2, none) ∷ []

abbrev blocks : List Range
blocks = range 4 7 ∷ range 12 13 ∷ []

blocks-Separated : Separated 0 blocks
blocks-Separated = (omega arith, omega arith, (omega arith, omega arith, tt))

cut-IsPieceOf_example : All (IsPieceOf (range 5 20)) (cut (range 5 20) blocks).0
cut-IsPieceOf_example = cut-IsPieceOf (range 5 20) blocks (omega arith)

range_to_prefixes-covers_example :
    covers (map prefix_range (range_to_prefixes (range 3 17))) 9 ≡ holds (range 3 17) 9
range_to_prefixes-covers_example = range_to_prefixes-covers (range 3 17) 9

range_to_prefixes-IsAligned_example : All IsAligned (range_to_prefixes (range 3 17))
range_to_prefixes-IsAligned_example = range_to_prefixes-IsAligned (range 3 17)

subtract_exact_example :
    covers (map prefix_range (prefixes v4 (subtract listed (some (range 4 7) ∷ none ∷ [])))) 9
    ≡ (lists_address v4 9 listed && not (any (has_address v4 9) (some (range 4 7) ∷ none ∷ [])))
subtract_exact_example =
    subtract_exact v4 9 listed (some (range 4 7) ∷ none ∷ []) (omega arith, (tt, tt))
