-- ===== src/Access/Sets.antt =====
-- Lists of texts as sets: `has`, `unique` and the comparison of two sets.
use mathlib.Core.Path.{subst}
use text.Mathlib.Text.{◌==◌ as str_eq}
use amnezia_shared_panel.Base.{
  ◌≤◌, ◌<◌, ◌≡◌, refl, sym, ap, ◌∙◌, Bool, true, false, not, ◌&&◌, ◌||◌, List, [], ◌∷◌, ◌++◌, map,
  String, Bool-cases, inl, inr, arith, every, keep, length, length-keep-le, eq_iff, eq_refl,
  any-append, Option, none, some, or_else,
}
use amnezia_shared_panel.Access.{has, unique, non_empty, present}
use amnezia_shared_panel.Access.Sync.{same_set}

without : String → List String → List String
without x ys = keep (λ y. not (str_eq y x)) ys

-- Another element is there after a removal if it was before.
has-without :
    (e x : String) (ys : List String) → str_eq x e ≡ false → has e (without x ys) ≡ has e ys
unfolding without
has-without e x [] h = refl
has-without e x (y ∷ ys) h = elim (Bool-cases (str_eq y x)) [
  | inl q ↦
      let other : str_eq y e ≡ false = subst (λ z. str_eq z e ≡ false) (sym ((eq_iff y x).0 q)) h in
      ground (arith, q, other, has-without e x ys h)
  | inr q ↦ ground (arith, q, has-without e x ys h)
]

hasnt-without : (x : String) (ys : List String) → has x (without x ys) ≡ false
unfolding without
hasnt-without x [] = refl
hasnt-without x (y ∷ ys) = ground (arith, hasnt-without x ys)

length-without :
    (x : String) (ys : List String) → has x ys ≡ true → length (without x ys) < length ys
unfolding without
length-without x [] h = absurd (ground arith)
length-without x (y ∷ ys) h = elim (Bool-cases (str_eq y x)) [
  | inl q ↦ ground (arith, q, length-keep-le (λ z. not (str_eq z x)) ys)
  | inr q ↦ ground (arith, q, length-without x ys (ground (arith, q, h)))
]

pub has-unique : (e : String) (xs : List String) → has e (unique xs) ≡ has e xs
unfolding without
has-unique e [] = refl
has-unique e (x ∷ xs) = elim (Bool-cases (str_eq x e)) [
  | inl q ↦ ground (arith, q)
  | inr q ↦ ground (arith, q, has-without e x (unique xs) q, has-unique e xs)
]

AreDistinct : List String → Type 0
AreDistinct [] = Unit
AreDistinct (x ∷ xs) = (has x xs ≡ false) × AreDistinct xs

hasnt-keep :
    (e : String) (p : String → Bool) (xs : List String)
    → has e xs ≡ false
    → has e (keep p xs) ≡ false
hasnt-keep e p [] h = h
hasnt-keep e p (x ∷ xs) h = ground (arith, hasnt-keep e p xs)

keep-AreDistinct : (p : String → Bool) (xs : List String) → AreDistinct xs → AreDistinct (keep p xs)
unfolding AreDistinct
keep-AreDistinct p [] h = tt
keep-AreDistinct p (x ∷ xs) (h, hs) = elim (Bool-cases (p x)) [
  | inl e ↦ rw e (hasnt-keep x p xs h, keep-AreDistinct p xs hs)
  | inr e ↦ rw e (keep-AreDistinct p xs hs)
]

unique-AreDistinct : (xs : List String) → AreDistinct (unique xs)
unfolding AreDistinct without
unique-AreDistinct [] = tt
unique-AreDistinct (x ∷ xs) = (
  hasnt-without x (unique xs),
  keep-AreDistinct (λ y. not (str_eq y x)) (unique xs) (unique-AreDistinct xs),
)

other_element :
    (x e : String) (xs : List String) → has x xs ≡ false → has e xs ≡ true → str_eq x e ≡ false
other_element x e xs d h = elim (Bool-cases (str_eq x e)) [
  | inr q ↦ q
  | inl q ↦
      let same : has x xs ≡ true = subst (λ z. has z xs ≡ true) (sym ((eq_iff x e).0 q)) h in
      absurd (ground (arith, same, d))
]

AreDistinct-length :
    (xs ys : List String)
    → AreDistinct xs
    → ((e : String) → has e xs ≡ true → has e ys ≡ true)
    → length xs ≤ length ys
unfolding AreDistinct
AreDistinct-length [] ys d h = omega arith
AreDistinct-length (x ∷ xs) ys (d, ds) h =
    let later : (e : String) → has e xs ≡ true → has e (without x ys) ≡ true =
      λ e q. has-without e x ys (other_element x e xs d q) ∙ h e (ground (arith, q)) in
    let rest = AreDistinct-length xs (without x ys) ds later in
    let here = length-without x ys (h x (ground (arith, eq_refl x))) in omega (arith, rest, here)

every-has :
    (xs ys : List String)
    → ((e : String) → has e xs ≡ true → has e ys ≡ true)
    → every (λ x. has x ys) xs ≡ true
every-has [] ys h = refl
every-has (x ∷ xs) ys h =
    let here : has x ys ≡ true = h x (ground (arith, eq_refl x)) in
    let rest = every-has xs ys (λ e q. h e (ground (arith, q))) in ground (arith, here, rest)

-- Two sets of the same elements are the same for the source's test.
pub same_set-unique :
    (xs ys : List String)
    → ((e : String) → has e xs ≡ has e ys)
    → same_set (unique xs) (unique ys) ≡ true
same_set-unique xs ys h =
    let forth : (e : String) → has e (unique xs) ≡ true → has e (unique ys) ≡ true =
      λ e q. has-unique e ys ∙ sym (h e) ∙ sym (has-unique e xs) ∙ q in
    let back : (e : String) → has e (unique ys) ≡ true → has e (unique xs) ≡ true =
      λ e q. has-unique e xs ∙ h e ∙ sym (has-unique e ys) ∙ q in
    ground (
      arith,
      every-has (unique xs) (unique ys) forth,
      AreDistinct-length (unique xs) (unique ys) (unique-AreDistinct xs) forth,
      AreDistinct-length (unique ys) (unique xs) (unique-AreDistinct ys) back,
    )

pub keep-nothing :
    (p : String → Bool) (xs : List String)
    → ((e : String) → has e xs ≡ true → p e ≡ false)
    → keep p xs ≡ []
keep-nothing p [] h = refl
keep-nothing p (x ∷ xs) h =
    let here : p x ≡ false = h x (ground (arith, eq_refl x)) in
    let rest = keep-nothing p xs (λ e q. h e (ground (arith, q))) in ground (arith, here, rest)

pub keep-ext :
    {A : Type 0} (p q : A → Bool) (xs : List A) → ((x : A) → p x ≡ q x) → keep p xs ≡ keep q xs
keep-ext p q [] h = refl
keep-ext p q (x ∷ xs) h = ground (arith, h x, keep-ext p q xs h)

-- The non-empty texts that a function gives on a list.
module _ {A : Type 0} (f : A → String) where
  abbrev pub names : List A → List String
  names xs = keep non_empty (map f xs)

  pub names-append : (xs ys : List A) → names (xs ++ ys) ≡ names xs ++ names ys
  names-append [] ys = refl
  names-append (x ∷ xs) ys = ground (arith, names-append xs ys)

  pub names-keep : (xs : List A) → names (keep (λ x. non_empty (f x)) xs) ≡ names xs
  names-keep [] = refl
  names-keep (x ∷ xs) = ground (arith, names-keep xs)

  abbrev pub strangers : List String → List A → List A
  strangers known xs = keep (λ x. non_empty (f x) && not (has (f x) known)) xs

  strangers-names :
      (e : String) (known : List String) (xs : List A)
      → has e (names (strangers known xs)) ≡ (has e (names xs) && not (has e known))
  strangers-names e known [] = refl
  strangers-names e known (x ∷ xs) = elim (Bool-cases (str_eq (f x) e)) [
    | inl q ↦
        let same : has (f x) known ≡ has e known = ap (λ z. has z known) ((eq_iff (f x) e).0 q) in
        ground (arith, q, same, strangers-names e known xs)
    | inr q ↦ ground (arith, q, strangers-names e known xs)
  ]

  -- If every known name is a name of the list, its strangers' names and the known ones are all
  -- its names.
  pub strangers-and_known :
      (e : String) (known : List String) (xs : List A)
      → (has e known ≡ true → has e (names xs) ≡ true)
      → has e (names (strangers known xs) ++ known) ≡ has e (names xs)
  strangers-and_known e known xs h = ground (
    arith,
    h,
    any-append (λ x. str_eq x e) (names (strangers known xs)) known,
    strangers-names e known xs,
  )

  -- A name among the third or the last of five lists is one of the whole.
  pub names-in_five :
      (n : String) (a b c d e : List A)
      → (has n (names c) || has n (names e)) ≡ true
      → has n (names (a ++ b ++ c ++ d ++ e)) ≡ true
  names-in_five n a b c d e h =
      rw
        (
          names-append (a ++ b ++ c ++ d) e,
          names-append (a ++ b ++ c) d,
          names-append (a ++ b) c,
          any-append (λ x. str_eq x n) (names (a ++ b) ++ names c ++ names d) (names e),
          any-append (λ x. str_eq x n) (names (a ++ b) ++ names c) (names d),
          any-append (λ x. str_eq x n) (names (a ++ b)) (names c),
        )
        (ground (arith, h))

-- Dropping the absent and empty values first changes nothing, for a function that keeps the empty
-- text.
pub keep-present :
    (f : String → String) (os : List (Option String))
    → f "" ≡ ""
    → keep non_empty (map f (present os)) ≡ keep non_empty (map (λ o. f (or_else o "")) os)
keep-present f [] h = refl
keep-present f (none ∷ os) h = rw h (keep-present f os h)
keep-present f (some x ∷ os) h = elim (Bool-cases (str_eq x "")) [
  | inl q ↦
      let dropped : f x ≡ "" = subst (λ z. f z ≡ "") (sym ((eq_iff x "").0 q)) h in
      ground (arith, q, ap non_empty dropped, keep-present f os h)
  | inr q ↦ ground (arith, q, keep-present f os h)
]
