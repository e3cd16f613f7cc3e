-- ===== src/Cidr/Subtract/Exact.antt =====
-- What `subtractCidrs` leaves: the addresses that are included and not excluded.
use amnezia_shared_panel.Base.{
  ℕ, ◌≤◌, ◌≡◌, refl, ◌∙◌, Bool, true, false, ◌&&◌, ◌||◌, not, List, [], ◌∷◌, ◌++◌, map, arith, any,
  All, All-append, Option, none, some, any-append,
}
use amnezia_shared_panel.Cidr.{Family, v4, v6, Range, holds, covers, merge_ranges, cut}
use amnezia_shared_panel.Cidr.Merge.{
  Separated, IsRange, merge_ranges-Separated, merge_ranges-covers,
}
use amnezia_shared_panel.Cidr.Cut.{cut-covers}
use amnezia_shared_panel.Cidr.Prefixes.{
  Prefix, prefix_range, range_to_prefixes, range_to_prefixes-covers,
}
use amnezia_shared_panel.Cidr.Subtract.{
  ByFamily, of_family, push, collect, Work, visit, visit_all, empty, prefixes_of, Subtraction,
  work_of, subtract,
}

abbrev pub same_family : Family → Family → Bool
same_family v4 v4 = true
same_family v6 v6 = true
same_family _ _ = false

-- Whether an entry that could be read has an address of a family, and whether one of some has it.
abbrev pub has_address : Family → ℕ → Option Range → Bool
has_address f a none = false
has_address f a (some r) = same_family f r.family && holds r a

abbrev pub lists_address {ℓ} : {A : Type ℓ} → Family → ℕ → List (A × Option Range) → Bool
lists_address f a es = any (λ e. has_address f a e.1) es

abbrev pub IsReadable : Option Range → Type 0
IsReadable none = Unit
IsReadable (some r) = r.start ≤ r.end

push-covers :
    (f g : Family) (rs : List Range) (m : ByFamily) (a : ℕ)
    → covers (of_family f (push g rs m)) a
      ≡ (covers (of_family f m) a || (same_family f g && covers rs a))
push-covers v4 v4 rs m a = ground (arith, any-append (λ r. holds r a) m.four rs)
push-covers v4 v6 rs m a = ground arith
push-covers v6 v4 rs m a = ground arith
push-covers v6 v6 rs m a = ground (arith, any-append (λ r. holds r a) m.six rs)

collect-covers :
    (f : Family) (m : ByFamily) (es : List (Option Range)) (a : ℕ)
    → covers (of_family f (collect m es)) a ≡ (covers (of_family f m) a || any (has_address f a) es)
unfolding collect
collect-covers f m [] a = ground arith
collect-covers f m (none ∷ es) a = collect-covers f m es a
collect-covers f m (some r ∷ es) a =
    ground
      (arith, collect-covers f (push r.family (r ∷ []) m) es a, push-covers f r.family (r ∷ []) m a)

-- The blocks of both families stand in order.
abbrev AreSeparated : ByFamily → Type 0
AreSeparated blocks = (f : Family) → Separated 0 (of_family f blocks)

blocks_of_same :
    (f g : Family) (x : Bool) (blocks : ByFamily) (a : ℕ)
    → (same_family f g && (x && not (covers (of_family g blocks) a)))
      ≡ (same_family f g && x && not (covers (of_family f blocks) a))
blocks_of_same v4 v4 x blocks a = ground arith
blocks_of_same v4 v6 x blocks a = refl
blocks_of_same v6 v4 x blocks a = refl
blocks_of_same v6 v6 x blocks a = ground arith

module _ {A : Type 0} (blocks : ByFamily) (s : AreSeparated blocks) where
  visit-kept :
      (f : Family) (w : Work A) (text : A) (e : Option Range) (a : ℕ)
      → covers (of_family f (visit blocks w text e).kept) a ≡ (
          covers (of_family f w.kept) a
          || (has_address f a e && not (covers (of_family f blocks) a)))
  unfolding visit
  visit-kept f w text none a = ground arith
  visit-kept f w text (some r) a = ground (
    arith,
    push-covers f r.family (cut r (of_family r.family blocks)).0 w.kept a,
    cut-covers r (of_family r.family blocks) a (s r.family),
    blocks_of_same f r.family (holds r a) blocks a,
  )

  visit_all-kept :
      (f : Family) (w : Work A) (es : List (A × Option Range)) (a : ℕ)
      → covers (of_family f (visit_all blocks w es).kept) a ≡ (
          covers (of_family f w.kept) a
          || (lists_address f a es && not (covers (of_family f blocks) a)))
  unfolding visit_all
  visit_all-kept f w [] a = ground arith
  visit_all-kept f w ((text, e) ∷ es) a =
      ground (arith, visit_all-kept f (visit blocks w text e) es a, visit-kept f w text e a)

map-append_prefixes :
    (xs ys : List Prefix) (a : ℕ)
    → covers (map prefix_range (xs ++ ys)) a
      ≡ (covers (map prefix_range xs) a || covers (map prefix_range ys) a)
map-append_prefixes [] ys a = refl
map-append_prefixes (x ∷ xs) ys a = ground (arith, map-append_prefixes xs ys a)

prefixes_of-covers :
    (rs : List Range) (a : ℕ) → covers (map prefix_range (prefixes_of rs)) a ≡ covers rs a
unfolding prefixes_of
prefixes_of-covers [] a = refl
prefixes_of-covers (r ∷ rs) a = ground (
  arith,
  map-append_prefixes (range_to_prefixes r) (prefixes_of rs) a,
  range_to_prefixes-covers r a,
  prefixes_of-covers rs a,
)

push-IsRange :
    (f g : Family) (rs : List Range) (m : ByFamily)
    → All IsRange (of_family f m)
    → All IsRange rs
    → All IsRange (of_family f (push g rs m))
push-IsRange v4 v4 rs m h k = All-append IsRange m.four rs h k
push-IsRange v4 v6 rs m h k = h
push-IsRange v6 v4 rs m h k = h
push-IsRange v6 v6 rs m h k = All-append IsRange m.six rs h k

collect-IsRange :
    (f : Family) (m : ByFamily) (es : List (Option Range))
    → All IsRange (of_family f m)
    → All IsReadable es
    → All IsRange (of_family f (collect m es))
unfolding collect
collect-IsRange f m [] h v = h
collect-IsRange f m (none ∷ es) h (_, v) = collect-IsRange f m es h v
collect-IsRange f m (some r ∷ es) h (k, v) =
    collect-IsRange f (push r.family (r ∷ []) m) es (push-IsRange f r.family (r ∷ []) m h (k, tt)) v

-- The prefixes of a family in a result.
abbrev pub prefixes : {A : Type 0} → Family → Subtraction A → List Prefix
prefixes v4 r = r.prefixes4
prefixes v6 r = r.prefixes6

abbrev start_work : (A : Type 0) → Work A
start_work A = record { included = empty; kept = empty; passed = []; touched = 0 }

blocks_of : List (Option Range) → ByFamily
blocks_of exclude = record {
  four = merge_ranges (collect empty exclude).four;
  six = merge_ranges (collect empty exclude).six;
}

blocks_of-Separated :
    (exclude : List (Option Range)) → All IsReadable exclude → AreSeparated (blocks_of exclude)
unfolding blocks_of
blocks_of-Separated exclude v v4 = merge_ranges-Separated _ (collect-IsRange v4 empty exclude tt v)
blocks_of-Separated exclude v v6 = merge_ranges-Separated _ (collect-IsRange v6 empty exclude tt v)

blocks_of-covers :
    (f : Family) (exclude : List (Option Range)) (a : ℕ)
    → covers (of_family f (blocks_of exclude)) a ≡ any (has_address f a) exclude
unfolding blocks_of
blocks_of-covers v4 exclude a =
    merge_ranges-covers (collect empty exclude).four a ∙ collect-covers v4 empty exclude a
blocks_of-covers v6 exclude a =
    merge_ranges-covers (collect empty exclude).six a ∙ collect-covers v6 empty exclude a

module _ {A : Type 0} (include : List (A × Option Range)) (exclude : List (Option Range)) where
  work_of-kept :
      (f : Family) (a : ℕ)
      → All IsReadable exclude
      → covers (of_family f (work_of include exclude).kept) a
        ≡ (lists_address f a include && not (any (has_address f a) exclude))
  unfolding work_of blocks_of
  work_of-kept v4 a v = ground (
    arith,
    visit_all-kept (blocks_of exclude) (blocks_of-Separated exclude v) v4 (start_work A) include a,
    blocks_of-covers v4 exclude a,
  )
  work_of-kept v6 a v = ground (
    arith,
    visit_all-kept (blocks_of exclude) (blocks_of-Separated exclude v) v6 (start_work A) include a,
    blocks_of-covers v6 exclude a,
  )

-- If no excluded range is empty, the prefixes of a family that are left cover an address exactly
-- when some included prefix of that family has it and no excluded one does.
pub subtract_exact :
    {A : Type 0} (f : Family) (a : ℕ) (include : List (A × Option Range))
    (exclude : List (Option Range))
    → All IsReadable exclude
    → covers (map prefix_range (prefixes f (subtract include exclude))) a
      ≡ (lists_address f a include && not (any (has_address f a) exclude))
unfolding subtract
subtract_exact v4 a include exclude v =
    prefixes_of-covers _ a ∙ merge_ranges-covers _ a ∙ work_of-kept include exclude v4 a v
subtract_exact v6 a include exclude v =
    prefixes_of-covers _ a ∙ merge_ranges-covers _ a ∙ work_of-kept include exclude v6 a v
