-- ===== src/Panel/Create/Ordering.antt =====
-- The order of the servers that users see.
use mathlib.Core.Path.{subst}
use amnezia_shared_panel.Base.{
  ℕ, sym, ap, ap₂, ◌∙◌, ◌≡◌, ◌≤◌, ◌<◌, ◌⊎◌, ltb, ◌==◌, refl, Bool, true, false, List, [], ◌∷◌,
  Option, none, some, String, if◌then◌else◌, keep, length, arith, or_else, Bool-cases, inl, inr,
}
use amnezia_shared_panel.Panel.Create.{
  Server, Order, less, same, more, is_more, or_then, compare_numbers, compare_positions, position,
  compare_servers, insert_server, order_nodes_for_users,
}

abbrev pub opposite : Order → Order
opposite less = more
opposite same = same
opposite more = less

compare_numbers_flip : (a b : ℕ) → compare_numbers b a ≡ opposite (compare_numbers a b)
compare_numbers_flip a b = ground arith

compare_positions_flip : (a b : Option ℕ) → compare_positions b a ≡ opposite (compare_positions a b)
unfolding compare_positions
compare_positions_flip none none = refl
compare_positions_flip none (some b) = refl
compare_positions_flip (some a) none = refl
compare_positions_flip (some a) (some b) = compare_numbers_flip a b

or_then_flip : (x y : Order) → opposite (or_then x y) ≡ or_then (opposite x) (opposite y)
or_then_flip less y = refl
or_then_flip same y = refl
or_then_flip more y = refl

more_flip : (x : Order) → is_more x ≡ true → is_more (opposite x) ≡ false
more_flip less h = absurd (ground arith)
more_flip same h = refl
more_flip more h = refl

keep_swap {ℓ} :
    {A : Type ℓ} (q : A → Bool) (s t : A) (xs ts : List A)
    → length (keep q xs) ≡ length (keep q (s ∷ ts))
    → length (keep q (t ∷ xs)) ≡ length (keep q (s ∷ t ∷ ts))
keep_swap q s t xs ts h = ground arith

keep_more {ℓ} :
    {A : Type ℓ} (q : A → Bool) (s : A) (xs ys : List A)
    → length (keep q xs) ≡ length (keep q ys)
    → length (keep q (s ∷ xs)) ≡ length (keep q (s ∷ ys))
keep_more q s xs ys h = ground arith

by_name :
    (c : Order) (x y : ℕ)
    → is_more (or_then c (compare_numbers x y)) ≡ false
    → (c ≡ less) ⊎ ((c ≡ same) × (x ≤ y))
by_name less x y h = inl refl
by_name same x y h = inr (refl, ground (arith, h))
by_name more x y h = absurd (ground (arith, h))

tied :
    (m n : ℕ) (next : Order)
    → ltb m n ≡ false
    → (m == n) ≡ true
    → is_more (or_then (compare_numbers m n) next) ≡ false
    → is_more next ≡ false
tied m n next e f h =
    let both : compare_numbers m n ≡ same = ground (arith, e, f) in
    subst (λ c. is_more (or_then c next) ≡ false) both h

-- The name that users see.
abbrev pub shown_name : Server → String
shown_name s = elim s.public_name [ none ↦ s.name | some name ↦ name ]

shown_is :
    (o : Option String) (name : String)
    → or_else o name ≡ elim o [ none ↦ name | some public_name ↦ public_name ]
shown_is none name = refl
shown_is (some public_name) name = refl

module _ (compare : String → String → Order) (order : List ℕ) where
  -- No server comes before the one in front of it.
  abbrev pub follows : Server → List Server → Bool
  follows s [] = true
  follows s (t ∷ ts) = if is_more (compare_servers compare order s t) then false else true

  abbrev IsSorted : List Server → Type 0
  IsSorted [] = Unit
  IsSorted (s ∷ ss) = (follows s ss ≡ true) × IsSorted ss

  -- The lesser displayed name, or the same name and no greater id.
  abbrev pub IsNamedBefore : Server → Server → Type 0
  IsNamedBefore a b =
      (compare (shown_name a) (shown_name b) ≡ less)
      ⊎ ((compare (shown_name a) (shown_name b) ≡ same) × (a.id ≤ b.id))

  abbrev pub IsPlacedBefore : Option ℕ → Option ℕ → Server → Server → Type 0
  IsPlacedBefore none none a b = IsNamedBefore a b
  IsPlacedBefore none (some n) a b = ⊥
  IsPlacedBefore (some m) none a b = Unit
  IsPlacedBefore (some m) (some n) a b = (m < n) ⊎ ((m ≡ n) × IsNamedBefore a b)

  abbrev pub IsAscending : List Server → Type 0
  IsAscending [] = Unit
  IsAscending (a ∷ []) = Unit
  IsAscending (a ∷ b ∷ ss) =
      IsPlacedBefore (position a.id order) (position b.id order) a b × IsAscending (b ∷ ss)

  named :
      (a b : Server)
      → is_more (or_then (compare (shown_name a) (shown_name b)) (compare_numbers a.id b.id))
        ≡ false
      → IsNamedBefore a b
  named a b h = by_name (compare (shown_name a) (shown_name b)) a.id b.id h

  placed :
      (m n : Option ℕ) (a b : Server)
      → is_more (
          or_then
            (compare_positions m n)
            (or_then (compare (shown_name a) (shown_name b)) (compare_numbers a.id b.id)))
        ≡ false
      → IsPlacedBefore m n a b
  unfolding compare_positions
  placed none none a b h = named a b h
  placed none (some n) a b h = absurd (ground (arith, h))
  placed (some m) none a b h = tt
  placed (some m) (some n) a b h = elim (Bool-cases (ltb m n)) [
    | inl e ↦ inl (ground (arith, e))
    | inr e ↦ elim (Bool-cases (m == n)) [
      | inl f ↦ inr (
        ground (arith, f),
        named a b (
            tied m n (or_then (compare (shown_name a) (shown_name b)) (compare_numbers a.id b.id)) e
              f h),
      )
      | inr f ↦ absurd (ground (arith, e, f, h))
    ]
  ]

  spelled :
      (a b : Server)
      → compare_servers compare order a b
        ≡ or_then
            (compare_positions (position a.id order) (position b.id order))
            (or_then (compare (shown_name a) (shown_name b)) (compare_numbers a.id b.id))
  unfolding compare_servers
  spelled a b =
      ap₂
        (λ x y.
          or_then (compare_positions (position a.id order) (position b.id order))
            (or_then (compare x y) (compare_numbers a.id b.id)))
        (shown_is a.public_name a.name) (shown_is b.public_name b.name)

  not_more :
      (a b : Server)
      → (if is_more (compare_servers compare order a b) then false else true) ≡ true
      → is_more (
          or_then
            (compare_positions (position a.id order) (position b.id order))
            (or_then (compare (shown_name a) (shown_name b)) (compare_numbers a.id b.id)))
        ≡ false
  not_more a b h =
      let behind : is_more (compare_servers compare order a b) ≡ false = ground (arith, h) in
      subst (λ c. is_more c ≡ false) (spelled a b) behind

  sorted-IsAscending : (ss : List Server) → IsSorted ss → IsAscending ss
  unfolding compare_servers
  sorted-IsAscending [] h = tt
  sorted-IsAscending (a ∷ []) h = tt
  sorted-IsAscending (a ∷ b ∷ ss) (f, h) = (
    placed (position a.id order) (position b.id order) a b (not_more a b f),
    sorted-IsAscending (b ∷ ss) h,
  )

  module _ (flip : (a b : String) → compare b a ≡ opposite (compare a b)) where
    compare_servers_flip :
        (a b : Server)
        → compare_servers compare order b a ≡ opposite (compare_servers compare order a b)
    unfolding compare_servers
    compare_servers_flip a b =
        rw
          (
            compare_positions_flip (position a.id order) (position b.id order),
            flip (or_else a.public_name a.name) (or_else b.public_name b.name),
            compare_numbers_flip a.id b.id,
          )
          (sym (
            or_then_flip (compare_positions (position a.id order) (position b.id order)) (
              or_then (compare (or_else a.public_name a.name) (or_else b.public_name b.name))
                (compare_numbers a.id b.id))
            ∙ ap
                (or_then (opposite (compare_positions (position a.id order) (position b.id order))))
                (or_then_flip
                  (compare (or_else a.public_name a.name) (or_else b.public_name b.name))
                  (compare_numbers a.id b.id))))

    follows_insert :
        (u s : Server) (ts : List Server)
        → is_more (compare_servers compare order u s) ≡ false
        → follows u ts ≡ true
        → follows u (insert_server compare order s ts) ≡ true
    unfolding insert_server
    follows_insert u s [] h k = ground arith
    follows_insert u s (t ∷ ts) h k =
        elim (Bool-cases (is_more (compare_servers compare order s t))) [
          | inl e ↦ rw (e, insert_server) k
          | inr e ↦ rw (e, insert_server) (ground arith)
        ]

    insert_server-IsSorted :
        (s : Server) (ts : List Server) → IsSorted ts → IsSorted (insert_server compare order s ts)
    unfolding insert_server
    insert_server-IsSorted s [] h = (refl, tt)
    insert_server-IsSorted s (t ∷ ts) (k, h) =
        elim (Bool-cases (is_more (compare_servers compare order s t))) [
          | inl e ↦
              rw (e, insert_server)
                (
                  follows_insert t s ts
                      (rw (compare_servers_flip s t)
                        (more_flip (compare_servers compare order s t) e))
                      k,
                  insert_server-IsSorted s ts h,
                )
          | inr e ↦ rw (e, insert_server) (ground arith, (k, h))
        ]

    ascending : (ss : List Server) → IsSorted (order_nodes_for_users compare order ss)
    unfolding order_nodes_for_users
    ascending [] = tt
    ascending (s ∷ ss) =
        insert_server-IsSorted s (order_nodes_for_users compare order ss) (ascending ss)

    insert_server-keep :
        (q : Server → Bool) (s : Server) (ts : List Server)
        → length (keep q (insert_server compare order s ts)) ≡ length (keep q (s ∷ ts))
    unfolding insert_server
    insert_server-keep q s [] = refl
    insert_server-keep q s (t ∷ ts) =
        elim (Bool-cases (is_more (compare_servers compare order s t))) [
          | inl e ↦
              rw (e, insert_server)
                (keep_swap q s t (insert_server compare order s ts) ts (insert_server-keep q s ts))
          | inr e ↦ rw (e, insert_server) refl
        ]

    order_nodes-keep :
        (q : Server → Bool) (ss : List Server)
        → length (keep q (order_nodes_for_users compare order ss)) ≡ length (keep q ss)
    unfolding order_nodes_for_users
    order_nodes-keep q [] = refl
    order_nodes-keep q (s ∷ ss) =
        insert_server-keep q s (order_nodes_for_users compare order ss)
        ∙ keep_more q s (order_nodes_for_users compare order ss) ss (order_nodes-keep q ss)

    -- If the collator compares in both directions alike: of two neighbours, both in the admin's
    -- order, the first is not behind in it; one in the order is before one that is not; and of two
    -- at one place, or both in none, the first has the lesser displayed name, or the same and no
    -- greater id. As many servers as before pass any test.
    pub order_nodes_for_users-IsAscending :
        (q : Server → Bool) (ss : List Server)
        → IsAscending (order_nodes_for_users compare order ss)
          × (length (keep q (order_nodes_for_users compare order ss)) ≡ length (keep q ss))
    order_nodes_for_users-IsAscending q ss = (
      sorted-IsAscending (order_nodes_for_users compare order ss) (ascending ss),
      order_nodes-keep q ss,
    )
