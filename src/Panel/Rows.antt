-- ===== src/Panel/Rows.antt =====
-- Lemmas on rows: updates, filters and tests over a table.
use amnezia_shared_panel.Base.{
  ℕ, ◌==◌, ◌≡◌, refl, Bool, true, false, List, [], ◌∷◌, ◌++◌, arith, any, keep, All, if◌then◌else◌,
  Bool-cases, inl, inr,
}
use amnezia_shared_panel.Panel.{update_where}

module _ {ℓ} {A : Type ℓ} where
  -- A test that the change keeps still passes on the changed rows.
  pub any-update_where :
      (q p : A → Bool) (f : A → A) (xs : List A)
      → ((x : A) → q x ≡ true → q (f x) ≡ true)
      → any q xs ≡ true
      → any q (update_where p f xs) ≡ true
  any-update_where q p f [] k h = h
  any-update_where q p f (x ∷ xs) k h = ground (arith, k x, any-update_where q p f xs k)

  -- So it does if no row that passes is touched.
  pub any-update_where_off :
      (q p : A → Bool) (f : A → A) (xs : List A)
      → All (λ x. q x ≡ true → p x ≡ false) xs
      → any q xs ≡ true
      → any q (update_where p f xs) ≡ true
  any-update_where_off q p f [] k h = h
  any-update_where_off q p f (x ∷ xs) (k, ks) h =
      ground (arith, k, any-update_where_off q p f xs ks)

  pub any-append_left : (q : A → Bool) (xs ys : List A) → any q xs ≡ true → any q (xs ++ ys) ≡ true
  any-append_left q [] ys h = absurd (ground arith)
  any-append_left q (x ∷ xs) ys h = ground (arith, any-append_left q xs ys)

  pub any-append_right : (q : A → Bool) (xs ys : List A) → any q ys ≡ true → any q (xs ++ ys) ≡ true
  any-append_right q [] ys h = h
  any-append_right q (x ∷ xs) ys h = ground (arith, any-append_right q xs ys)

  -- Rows that pass `q` and are kept.
  pub any-keep :
      (q p : A → Bool) (xs : List A)
      → ((x : A) → q x ≡ true → p x ≡ true)
      → any q xs ≡ true
      → any q (keep p xs) ≡ true
  any-keep q p [] k h = h
  any-keep q p (x ∷ xs) k h = ground (arith, k x, any-keep q p xs k)

module _ {ℓ κ} {A : Type ℓ} (P : A → Type κ) where
  pub All-keep : (p : A → Bool) (xs : List A) → All P xs → All P (keep p xs)
  All-keep p [] h = tt
  All-keep p (x ∷ xs) (h, hs) = elim (Bool-cases (p x)) [
    | inl e ↦ rw e (h, All-keep p xs hs)
    | inr e ↦ rw e (All-keep p xs hs)
  ]

module _ {ℓ κ μ} {A : Type ℓ} (P : A → Type κ) (Q : A → Type μ) where
  pub All-keep_imp :
      (p : A → Bool) (xs : List A)
      → ((x : A) → p x ≡ true → P x → Q x)
      → All P xs
      → All Q (keep p xs)
  All-keep_imp p [] k h = tt
  All-keep_imp p (x ∷ xs) k (h, hs) = elim (Bool-cases (p x)) [
    | inl e ↦ rw e (k x e h, All-keep_imp p xs k hs)
    | inr e ↦ rw e (All-keep_imp p xs k hs)
  ]

module _ {ℓ κ μ} {A : Type ℓ} (P : A → Type κ) (Q : A → Type μ) where
  pub All-imp : (xs : List A) → ((x : A) → P x → Q x) → All P xs → All Q xs
  All-imp [] k h = tt
  All-imp (x ∷ xs) k (h, hs) = (k x h, All-imp xs k hs)

  -- Every row keeps the property: the changed ones by `k`, the others by `m`.
  pub All-update_where :
      (p : A → Bool) (f : A → A) (xs : List A)
      → ((x : A) → p x ≡ true → P x → Q (f x))
      → ((x : A) → p x ≡ false → P x → Q x)
      → All P xs
      → All Q (update_where p f xs)
  All-update_where p f [] k m h = tt
  All-update_where p f (x ∷ xs) k m (h, hs) = (here (p x) refl, All-update_where p f xs k m hs)
    where
      here : (b : Bool) → p x ≡ b → Q (if b then f x else x)
      here true e = k x e h
      here false e = m x e h

module _ {ℓ κ μ} {A : Type ℓ} (P : A → Type κ) (Q : A → Type μ) where
  pub All-and : (xs : List A) → All P xs → All Q xs → All (λ x. P x × Q x) xs
  All-and [] h k = tt
  All-and (x ∷ xs) (h, hs) (k, ks) = ((h, k), All-and xs hs ks)

module _ {ℓ} {A : Type ℓ} where
  pub none_passes : (p : A → Bool) (xs : List A) → any p xs ≡ false → All (λ x. p x ≡ false) xs
  none_passes p [] h = tt
  none_passes p (x ∷ xs) h =
      let rest : any p xs ≡ false = ground arith in (ground arith, none_passes p xs rest)

module _ {ℓ κ} {A : Type ℓ} (id_of : A → ℕ) (P : A → Type κ) where
  -- The rows with an id, after an update of those rows.
  pub updated :
      (id : ℕ) (f : A → A) (xs : List A)
      → ((x : A) → id_of (f x) ≡ id_of x)
      → ((x : A) → P (f x))
      → All (λ x. id_of x ≡ id → P x) (update_where (λ x. id_of x == id) f xs)
  updated id f [] same h = tt
  updated id f (x ∷ xs) same h = elim (Bool-cases (id_of x == id)) [
    | inl e ↦ rw e (λ s. h x, updated id f xs same h)
    | inr e ↦ rw e (λ s. absurd (ground arith), updated id f xs same h)
  ]
