-- ===== src/Cidr/Text/Tests.antt =====
-- Small inputs, followed in the source.
use Prim.Native.Char.{code}
use amnezia_shared_panel.Base.{
  ℕ, ◌≡◌, refl, [], ◌∷◌, if◌then◌else◌, Option, some, any, ◌==◌, String, ◌+◌, ◌^◌, ◌*◌,
}
use amnezia_shared_panel.Cidr.{v6, merge_ranges, cut}
use amnezia_shared_panel.Cidr.Prefixes.{range_to_prefixes}
use amnezia_shared_panel.Cidr.Subtract.{subtract}
use amnezia_shared_panel.Cidr.Text.{
  Text, read_base, format_address, parse_cidr, result_cidrs, print_prefix,
}

abbrev codes : String → Text
codes String.[] = []
codes (String.◌∷◌ c s) = code c ∷ codes s

-- An answer for `isIP` on the texts below: a text with a colon is IPv6.
abbrev sample_is_ip : Text → ℕ
sample_is_ip t = if any (λ c. c == b':') t then 6 else 4

abbrev sample_number : Text → Option ℕ
sample_number t = some (read_base 10 0 t)

zero_run : format_address v6 (0x2001 * 2 ^ 112 + 1) ≡ codes "2001::1"
unfolding format_address
zero_run = refl

quarter_cut :
    result_cidrs sample_is_ip sample_number
      (codes "10.0.0.0/24" ∷ codes "10.0.1.0/24" ∷ [])
      (codes "10.0.0.64/26" ∷ [])
    ≡ codes "10.0.0.0/26" ∷ codes "10.0.0.128/25" ∷ codes "10.0.1.0/24" ∷ []
unfolding read_base result_cidrs subtract parse_cidr merge_ranges cut range_to_prefixes print_prefix
quarter_cut = refl

unreadable_passes :
    result_cidrs (λ _. 0) sample_number (codes "fe80::/10" ∷ codes "x" ∷ codes "x" ∷ []) []
    ≡ codes "fe80::/10" ∷ codes "x" ∷ []
unfolding read_base result_cidrs subtract parse_cidr merge_ranges cut range_to_prefixes print_prefix
unreadable_passes = refl

embedded_quad :
    result_cidrs sample_is_ip sample_number (codes "::ffff:192.0.2.1/128" ∷ []) []
    ≡ codes "::ffff:c000:201/128" ∷ []
unfolding read_base result_cidrs subtract parse_cidr merge_ranges cut range_to_prefixes print_prefix
embedded_quad = refl
