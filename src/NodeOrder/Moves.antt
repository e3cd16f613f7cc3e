-- ===== src/NodeOrder/Moves.antt =====
-- The moves of the editor lose no row and repeat none.
use mathlib.Core.Path.{subst}
use amnezia_shared_panel.Base.{
  ℕ, zero, suc, ◌-◌, ◌<◌, min, ◌≡◌, refl, sym, ap, ◌∙◌, true, false, not, ◌&&◌, ◌||◌, List, [], ◌∷◌,
  Option, none, some, ◌==◌, leb, length, get_elem?, Bool-cases, inl, inr, ◌⊎◌, arith,
}
use amnezia_shared_panel.PolicyLists.{has}
use amnezia_shared_panel.PolicyLists.Prefix.{IsDistinct}
use amnezia_shared_panel.NodeOrder.{
  index_of, exchange, swap, shift_row, Direction, up, down, move_node_in_order, remove_at,
  insert_at, move_from, move_node_to_index,
}

-- An order with the same ids, and with none of them twice.
abbrev pub Rearranges : List ℕ → List ℕ → Type 0
Rearranges before after = IsDistinct after × ((x : ℕ) → has x after ≡ has x before)

pub index_of-get :
    (id : ℕ) (ids : List ℕ)
    → ((index_of id ids ≡ none) × (has id ids ≡ false))
      ⊎ ((i : ℕ) × (index_of id ids ≡ some i) × (get_elem? ids i ≡ some id) × (has id ids ≡ true))
unfolding index_of
index_of-get id [] = inl (refl, refl)
index_of-get id (x ∷ xs) = elim (Bool-cases (x == id)) [
  | inl e ↦ inr (0, ground (arith, e), ground (arith, e), ground (arith, e))
  | inr e ↦ elim (index_of-get id xs) [
    | inl (f, g) ↦ inl (rw (e, f) refl, ground (arith, e, g))
    | inr (i, f, g, h) ↦ inr (suc i, rw (e, f) refl, g, ground (arith, e, h))
  ]
]

pub get-has : (ids : List ℕ) (i id : ℕ) → get_elem? ids i ≡ some id → has id ids ≡ true
get-has [] i id h = absurd (ground (arith, h))
get-has (x ∷ xs) zero id h = ground (arith, h)
get-has (x ∷ xs) (suc i) id h = ground (arith, get-has xs i id h)

pub get-lt : (ids : List ℕ) (i id : ℕ) → get_elem? ids i ≡ some id → i < length ids
get-lt [] i id h = absurd (ground (arith, h))
get-lt (x ∷ xs) zero id h = omega arith
get-lt (x ∷ xs) (suc i) id h = omega (arith, get-lt xs i id h)

apart : (y x : ℕ) (ys : List ℕ) → has y ys ≡ false → (y == x) ≡ true → has x ys ≡ false
apart y x ys new e = let same : y ≡ x = ground (arith, e) in subst (λ z. has z ys ≡ false) same new

pub differs : (y id : ℕ) (ys : List ℕ) → has y ys ≡ false → has id ys ≡ true → (y == id) ≡ false
differs y id ys new there = elim (Bool-cases (y == id)) [
  | inl e ↦ absurd (ground (arith, apart y id ys new e, there))
  | inr e ↦ e
]

-- What is taken out is not there any more, and the others are.
pub has-remove_at :
    (ids : List ℕ) (i id x : ℕ)
    → IsDistinct ids
    → get_elem? ids i ≡ some id
    → has x (remove_at i ids) ≡ (has x ids && not (id == x))
has-remove_at [] i id x d h = absurd (ground (arith, h))
has-remove_at (y ∷ ys) zero id x (new, d) h =
    let first : y ≡ id = ground (arith, h) in
    elim (Bool-cases (y == x)) [
      | inl e ↦ ground (arith, e, first, apart y x ys new e)
      | inr e ↦ ground (arith, e, first)
    ]
has-remove_at (y ∷ ys) (suc i) id x (new, d) h =
    ground (arith, has-remove_at ys i id x d h, differs y id ys new (get-has ys i id h))

stays_out : (ids : List ℕ) (i y : ℕ) → has y ids ≡ false → has y (remove_at i ids) ≡ false
stays_out [] i y h = refl
stays_out (x ∷ xs) zero y h = ground (arith, h)
stays_out (x ∷ xs) (suc i) y h = ground (arith, h, stays_out xs i y)

remove_at-IsDistinct : (ids : List ℕ) (i : ℕ) → IsDistinct ids → IsDistinct (remove_at i ids)
remove_at-IsDistinct [] i d = tt
remove_at-IsDistinct (y ∷ ys) zero (new, d) = d
remove_at-IsDistinct (y ∷ ys) (suc i) (new, d) = (stays_out ys i y new, remove_at-IsDistinct ys i d)

has-insert_at : (ids : List ℕ) (i id x : ℕ) → has x (insert_at i id ids) ≡ ((id == x) || has x ids)
has-insert_at ids zero id x = refl
has-insert_at [] (suc i) id x = refl
has-insert_at (y ∷ ys) (suc i) id x = ground (arith, has-insert_at ys i id x)

insert_at-IsDistinct :
    (ids : List ℕ) (i id : ℕ)
    → IsDistinct ids
    → has id ids ≡ false
    → IsDistinct (insert_at i id ids)
insert_at-IsDistinct ids zero id d new = (new, d)
insert_at-IsDistinct [] (suc i) id d new = (new, d)
insert_at-IsDistinct (y ∷ ys) (suc i) id (apart, d) new = (
  ground (arith, has-insert_at ys i id y, apart, new),
  insert_at-IsDistinct ys i id d (ground (arith, new)),
)

pub move_from-Rearranges :
    (ids : List ℕ) (id from to : ℕ)
    → IsDistinct ids
    → get_elem? ids from ≡ some id
    → Rearranges ids (move_from ids id from to)
move_from-Rearranges ids id from to d at = elim (Bool-cases (to == from)) [
  | inl e ↦ rw e (d, λ x. refl)
  | inr e ↦ rw e (
    insert_at-IsDistinct (remove_at from ids) to id (remove_at-IsDistinct ids from d)
        (ground (arith, has-remove_at ids from id id d at)),
    λ x. moved x,
  )
]
  where
    moved : (x : ℕ) → has x (insert_at to id (remove_at from ids)) ≡ has x ids
    moved x = ground (
      arith,
      has-insert_at (remove_at from ids) to id x,
      has-remove_at ids from id x d at,
      get-has ids from id at,
    )

pub move_node_to_index-Rearranges :
    (ids : List ℕ) (id target : ℕ)
    → IsDistinct ids
    → Rearranges ids (move_node_to_index ids id target)
unfolding move_node_to_index
move_node_to_index-Rearranges ids id target d = elim (index_of-get id ids) [
  | inl (e, no_id) ↦ rw (e, move_node_to_index) (d, λ x. refl)
  | inr (from, e, at, there) ↦
      rw (e, move_node_to_index)
        (move_from-Rearranges ids id from (min target (length ids - 1)) d at)
]

-- The exchange of two neighbours.
abbrev swap_next : ℕ → List ℕ → List ℕ
swap_next i [] = []
swap_next i (x ∷ []) = x ∷ []
swap_next zero (x ∷ y ∷ ys) = y ∷ x ∷ ys
swap_next (suc i) (x ∷ y ∷ ys) = x ∷ swap_next i (y ∷ ys)

has-swap_next : (i : ℕ) (ids : List ℕ) (x : ℕ) → has x (swap_next i ids) ≡ has x ids
has-swap_next i [] x = refl
has-swap_next i (y ∷ []) x = refl
has-swap_next zero (y ∷ z ∷ zs) x = ground arith
has-swap_next (suc i) (y ∷ z ∷ zs) x = ground (arith, has-swap_next i (z ∷ zs) x)

swap_next-IsDistinct : (i : ℕ) (ids : List ℕ) → IsDistinct ids → IsDistinct (swap_next i ids)
swap_next-IsDistinct i [] d = tt
swap_next-IsDistinct i (y ∷ []) d = d
swap_next-IsDistinct zero (y ∷ z ∷ zs) (new, (other, d)) =
    (ground (arith, new, other), (ground (arith, new), d))
swap_next-IsDistinct (suc i) (y ∷ z ∷ zs) (new, d) =
    (has-swap_next i (z ∷ zs) y ∙ new, swap_next-IsDistinct i (z ∷ zs) d)

exchange-later :
    (a b x : ℕ) (moved displaced : Option ℕ) (xs : List ℕ)
    → exchange (suc a) (suc b) moved displaced (x ∷ xs) ≡ x ∷ exchange a b moved displaced xs
exchange-later a b x none displaced xs = refl
exchange-later a b x (some m) none xs = refl
exchange-later a b x (some m) (some d) xs = refl

swap-later : (a b x : ℕ) (xs : List ℕ) → swap (suc a) (suc b) (x ∷ xs) ≡ x ∷ swap a b xs
unfolding swap
swap-later a b x xs = exchange-later a b x (get_elem? xs a) (get_elem? xs b) xs

swap-down : (i : ℕ) (ids : List ℕ) → suc i < length ids → swap i (suc i) ids ≡ swap_next i ids
unfolding swap
swap-down i [] h = absurd (omega (arith, h))
swap-down i (x ∷ []) h = absurd (omega (arith, h))
swap-down zero (x ∷ y ∷ ys) h = refl
swap-down (suc i) (x ∷ y ∷ ys) h =
    swap-later i (suc i) x (y ∷ ys) ∙ ap (λ l. x ∷ l) (swap-down i (y ∷ ys) (omega (arith, h)))

swap-up : (i : ℕ) (ids : List ℕ) → suc i < length ids → swap (suc i) i ids ≡ swap_next i ids
unfolding swap
swap-up i [] h = absurd (omega (arith, h))
swap-up i (x ∷ []) h = absurd (omega (arith, h))
swap-up zero (x ∷ y ∷ ys) h = refl
swap-up (suc i) (x ∷ y ∷ ys) h =
    swap-later (suc i) i x (y ∷ ys) ∙ ap (λ l. x ∷ l) (swap-up i (y ∷ ys) (omega (arith, h)))

swap_next-Rearranges : (i : ℕ) (ids : List ℕ) → IsDistinct ids → Rearranges ids (swap_next i ids)
swap_next-Rearranges i ids d = (swap_next-IsDistinct i ids d, λ x. has-swap_next i ids x)

shift_row-Rearranges :
    (direction : Direction) (from : ℕ) (ids : List ℕ)
    → from < length ids
    → IsDistinct ids
    → Rearranges ids (shift_row direction from ids)
shift_row-Rearranges up zero ids h d = (d, λ x. refl)
shift_row-Rearranges up (suc to) ids h d =
    subst (Rearranges ids) (sym (swap-up to ids h)) (swap_next-Rearranges to ids d)
shift_row-Rearranges down from ids h d = elim (Bool-cases (leb (length ids) (suc from))) [
  | inl e ↦ rw e (d, λ x. refl)
  | inr e ↦ rw e (
      subst (Rearranges ids) (sym (swap-down from ids (ground (arith, e))))
        (swap_next-Rearranges from ids d))
]

pub move_node_in_order-Rearranges :
    (ids : List ℕ) (id : ℕ) (direction : Direction)
    → IsDistinct ids
    → Rearranges ids (move_node_in_order ids id direction)
unfolding move_node_in_order
move_node_in_order-Rearranges ids id direction d = elim (index_of-get id ids) [
  | inl (e, no_id) ↦ rw (e, move_node_in_order) (d, λ x. refl)
  | inr (from, e, at, there) ↦
      rw (e, move_node_in_order) (shift_row-Rearranges direction from ids (get-lt ids from id at) d)
]
