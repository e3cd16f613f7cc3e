-- ===== src/Cidr/Text/Exact.antt =====
-- `subtractCidrs` from texts.
use native.Mathlib.Nat.{one-le-pow}
use amnezia_shared_panel.Base.{
  ℕ, ◌≡◌, refl, ◌∙◌, ap, Bool, ◌&&◌, ◌||◌, not, List, [], ◌∷◌, map, Option, none, some, arith, any,
  Bool-cases, inl, inr, ◌-◌, All, ltb,
}
use amnezia_shared_panel.Cidr.{Family, family_bits, covers}
use amnezia_shared_panel.Cidr.Prefixes.{prefix_range}
use amnezia_shared_panel.Cidr.Subtract.Exact.{
  has_address, lists_address, IsReadable, prefixes, subtract_exact,
}
use amnezia_shared_panel.Cidr.Text.{
  Text, network, parse_cidr, read_all, subtract_cidrs, range_of, parse_address, pieces, split_on,
  family_of_version,
}

network-IsReadable :
    (family : Family) (value host_bits : ℕ) → IsReadable (some (network family value host_bits))
network-IsReadable family value host_bits = omega (arith, one-le-pow host_bits 2)

range_of-IsReadable :
    (address : Text) (family : Option Family) (prefix : Option ℕ)
    → IsReadable (range_of address family prefix)
unfolding range_of
range_of-IsReadable address none prefix = tt
range_of-IsReadable address (some family) none = tt
range_of-IsReadable address (some family) (some prefix) =
    elim (Bool-cases (ltb (family_bits family) prefix)) [
      | inl long ↦ rw long tt
      | inr fits ↦
          rw fits
            (network-IsReadable family (parse_address family address) (family_bits family - prefix))
    ]

module _ (is_ip : Text → ℕ) (number : Text → Option ℕ) where
  parse_cidr-IsReadable : (t : Text) → IsReadable (parse_cidr is_ip number t)
  unfolding parse_cidr
  parse_cidr-IsReadable t =
      let (address, prefix_raw) = pieces (split_on b'/' t) in
      range_of-IsReadable address (family_of_version (is_ip address)) (number prefix_raw)

  map-IsReadable : (ts : List Text) → All IsReadable (map (parse_cidr is_ip number) ts)
  map-IsReadable [] = tt
  map-IsReadable (t ∷ ts) = (parse_cidr-IsReadable t, map-IsReadable ts)

  -- Whether a text reads as a prefix of a family that has an address.
  abbrev pub text_has : Family → ℕ → Text → Bool
  text_has f a t = has_address f a (parse_cidr is_ip number t)

  read_all-lists :
      (f : Family) (a : ℕ) (ts : List Text)
      → lists_address f a (read_all is_ip number ts) ≡ any (text_has f a) ts
  unfolding read_all
  read_all-lists f a [] = refl
  read_all-lists f a (t ∷ ts) = ap (λ b. text_has f a t || b) (read_all-lists f a ts)

  any-map :
      (f : Family) (a : ℕ) (ts : List Text)
      → any (has_address f a) (map (parse_cidr is_ip number) ts) ≡ any (text_has f a) ts
  any-map f a [] = refl
  any-map f a (t ∷ ts) = ap (λ b. text_has f a t || b) (any-map f a ts)

  -- An address of a family is covered by the prefixes that `subtractCidrs` computes exactly when
  -- an included text reads as a prefix that has it and no excluded text does.
  pub subtract_cidrs_exact :
      (f : Family) (a : ℕ) (include exclude : List Text)
      → covers (map prefix_range (prefixes f (subtract_cidrs is_ip number include exclude))) a
        ≡ (any (text_has f a) include && not (any (text_has f a) exclude))
  unfolding subtract_cidrs
  subtract_cidrs_exact f a include exclude =
      subtract_exact f a (read_all is_ip number include) (map (parse_cidr is_ip number) exclude)
        (map-IsReadable exclude)
      ∙ ap (λ b. b && not (any (has_address f a) (map (parse_cidr is_ip number) exclude)))
          (read_all-lists f a include)
      ∙ ap (λ b. any (text_has f a) include && not b) (any-map f a exclude)
