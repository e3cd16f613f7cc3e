-- ===== src/PolicyLists/Prefix.antt =====
-- Only the top of the order can be recommended.
use amnezia_shared_panel.Base.{
  ℕ, suc, ◌+◌, ◌≡◌, refl, true, false, not, ◌&&◌, ◌||◌, List, [], ◌∷◌, ◌++◌, none, some, ◌==◌,
  any-append, first, first-passes, sym, ◌∙◌, ◌⊎◌, arith, Bool-cases, Option-cases, inl, inr,
  get_elem?,
}
use amnezia_shared_panel.PolicyLists.{
  has, delete, dedupe_node_ids, Check, prefix, behind, unpositioned, walk, find_from, report,
  verdict, check_recommended_prefix,
}

pub has-delete : (x id : ℕ) (ids : List ℕ) → has x (delete id ids) ≡ (has x ids && not (id == x))
has-delete x id [] = ground arith
has-delete x id (y ∷ ys) = ground (arith, has-delete x id ys)

has-dedupe : (x : ℕ) (ids : List ℕ) → has x (dedupe_node_ids ids) ≡ has x ids
unfolding dedupe_node_ids
has-dedupe x [] = refl
has-dedupe x (id ∷ ids) = ground (arith, has-dedupe x ids, has-delete x id (dedupe_node_ids ids))

walk-has :
    (x : ℕ) (order wanted : List ℕ)
    → has x wanted ≡ (has x (walk order wanted).0 || has x (walk order wanted).1)
unfolding walk
walk-has x [] wanted = ground arith
walk-has x (id ∷ ids) wanted =
    ground (arith, walk-has x ids (delete id wanted), has-delete x id wanted)

walk-prefix : (order wanted : List ℕ) → (rest : List ℕ) × ((walk order wanted).0 ++ rest ≡ order)
unfolding walk
walk-prefix [] wanted = ([], refl)
walk-prefix (id ∷ ids) wanted =
    let shorter = walk-prefix ids (delete id wanted) in
    elim (Bool-cases (has id wanted)) [
      | inl e ↦ rw (e, walk) (shorter.0, ground (arith, shorter.1))
      | inr e ↦ rw (e, walk) (id ∷ ids, refl)
    ]

-- What each answer means: an accepted set is a prefix of the order with the same ids; a refused id
-- is recommended, and stands at the position that is named, or is not in the order at all.
abbrev pub IsRight : List ℕ → List ℕ → Check → Type 0
IsRight recommended order (prefix canonical) =
    ((rest : List ℕ) × (canonical ++ rest ≡ order))
    × ((x : ℕ) → has x canonical ≡ has x recommended)
IsRight recommended order (behind id position) =
    (has id recommended ≡ true) × ((n : ℕ) × (position ≡ n + 1) × (get_elem? order n ≡ some id))
IsRight recommended order (unpositioned id) = (has id recommended ≡ true) × (has id order ≡ false)

find_from_lem :
    (n : ℕ) (wanted order : List ℕ)
    → ((k : ℕ) × (id : ℕ) × (find_from n wanted order ≡ some (n + k, id))
        × (has id wanted ≡ true)
        × (get_elem? order k ≡ some id))
      ⊎ ((find_from n wanted order ≡ none) × ((x : ℕ) → has x wanted ≡ true → has x order ≡ false))
unfolding find_from
find_from_lem n wanted [] = inr (refl, λ x h. refl)
find_from_lem n wanted (id ∷ ids) = elim (Bool-cases (has id wanted)) [
  | inl e ↦ inl (0, id, ground (arith, e), e, refl)
  | inr e ↦ elim (find_from_lem (n + 1) wanted ids) [
    | inl (k, x, f, w, g) ↦ inl (suc k, x, ground (arith, e, f), w, g)
    | inr (f, none_of) ↦
        inr (ground (arith, e, f), λ x h. let later = none_of x h in ground (arith, e))
  ]
]

report-IsRight :
    (recommended order : List ℕ) (left : ℕ) (lefts : List ℕ)
    → ((x : ℕ) → has x (left ∷ lefts) ≡ true → has x recommended ≡ true)
    → IsRight recommended order (report recommended order left lefts)
unfolding report
report-IsRight recommended order left lefts from_set = elim (find_from_lem 0 (left ∷ lefts) order) [
  | inl (k, id, f, w, g) ↦ rw (f, report) (from_set id w, (k, omega arith, g))
  | inr (f, none_of) ↦ elim (Option-cases (first (λ id. has id (left ∷ lefts)) recommended)) [
    | inl e ↦ rw (f, e, report) (from_set left (ground arith), none_of left (ground arith))
    | inr (id, e) ↦
        let w = first-passes (λ id. has id (left ∷ lefts)) recommended id e in
        rw (f, e, report) (from_set id w, none_of id w)
  ]
]

verdict-IsRight :
    (recommended order : List ℕ) (walked : List ℕ × List ℕ)
    → ((rest : List ℕ) × (walked.0 ++ rest ≡ order))
    → ((x : ℕ) → has x recommended ≡ (has x walked.0 || has x walked.1))
    → IsRight recommended order (verdict recommended order walked)
unfolding verdict
verdict-IsRight recommended order (canonical, []) starts same =
    (starts, λ x. ground (arith, same x))
verdict-IsRight recommended order (canonical, left ∷ lefts) starts same =
    report-IsRight recommended order left lefts (λ x h. ground (arith, same x))

-- Whatever is recommended and whatever the order: an accepted list is a prefix of the order and has
-- the recommended ids; a refused id is recommended, and it stands at the position that the answer
-- names, or the order does not have it.
pub check_recommended_prefix-IsRight :
    (recommended order : List ℕ)
    → IsRight recommended order (check_recommended_prefix recommended order)
unfolding check_recommended_prefix
check_recommended_prefix-IsRight recommended order =
    verdict-IsRight recommended order (walk order (dedupe_node_ids recommended))
      (walk-prefix order (dedupe_node_ids recommended))
      (λ x. sym (has-dedupe x recommended) ∙ walk-has x order (dedupe_node_ids recommended))

-- Ids that are not repeated.
abbrev pub IsDistinct : List ℕ → Type 0
IsDistinct [] = Unit
IsDistinct (id ∷ ids) = (has id ids ≡ false) × IsDistinct ids

-- A walk that wants nothing.
walk-none : (order : List ℕ) → walk order [] ≡ ([], [])
unfolding walk
walk-none [] = refl
walk-none (id ∷ ids) = refl

pub nothing : (wanted : List ℕ) → ((x : ℕ) → has x wanted ≡ false) → wanted ≡ []
nothing [] h = refl
nothing (w ∷ ws) h = let self = h w in absurd (ground arith)

has-drop :
    (x id : ℕ) (front back wanted : List ℕ)
    → has id (front ++ back) ≡ false
    → has x wanted ≡ has x (id ∷ front)
    → has x (delete id wanted) ≡ has x front
has-drop x id front back wanted new same =
    let fresh : has id front ≡ false = ground (arith, any-append (λ y. y == id) front back) in
    ground (arith, has-delete x id wanted, fresh, same)

walk-front :
    (front back wanted : List ℕ)
    → IsDistinct (front ++ back)
    → ((x : ℕ) → has x wanted ≡ has x front)
    → walk (front ++ back) wanted ≡ (front, [])
unfolding walk
walk-front [] back wanted distinct same = rw (nothing wanted same) (walk-none back)
walk-front (id ∷ front) back wanted (new, distinct) same =
    let later =
      walk-front front back (delete id wanted) distinct
        (λ x. has-drop x id front back wanted new (same x)) in
    let here : has id wanted ≡ true = ground (arith, same id) in rw (here, later) refl

-- A set that is the set of the first ids of an order without repetitions is accepted, and stored
-- in the order's sequence.
pub check_recommended_prefix-front :
    (recommended front back : List ℕ)
    → IsDistinct (front ++ back)
    → ((x : ℕ) → has x recommended ≡ has x front)
    → check_recommended_prefix recommended (front ++ back) ≡ prefix front
unfolding check_recommended_prefix verdict
check_recommended_prefix-front recommended front back distinct same =
    rw
      (walk-front front back (dedupe_node_ids recommended) distinct
        (λ x. has-dedupe x recommended ∙ same x))
      refl
