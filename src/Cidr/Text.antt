-- ===== src/Cidr/Text.antt =====
-- Prefixes as text: `parseCidr`, `formatAddress` and the texts that `subtractCidrs` returns.
-- A text is its list of character codes. `isIP` of node:net is a parameter, which answers 4, 6 or
-- another number, and so is `Number` on the text of a prefix length, which answers with the integer
-- that is not negative, or with none. A group of an IPv6 address is read up to the first character
-- that is no hexadecimal digit, as `parseInt` does with a zone id; a zone id with a dot or a colon,
-- on which the source may throw, is left out.
pub mod Exact
mod Tests
use Prim.Native.Nat.{bit_or}
use amnezia_shared_panel.Base.{
  ℕ, zero, suc, ◌+◌, ◌-◌, ◌*◌, ◌/◌, ◌%◌, ◌^◌, Bool, true, false, ◌&&◌, ◌||◌, List, [], ◌∷◌, ◌++◌,
  map, Option, none, some, ltb, leb, ◌==◌, if◌then◌else◌, length, any, every, get_elem?, take, drop,
}
use amnezia_shared_panel.Cidr.{Family, v4, v6, family_bits, Range}
use amnezia_shared_panel.Cidr.Prefixes.{Prefix}
use amnezia_shared_panel.Cidr.Subtract.{Subtraction, subtract}

abbrev pub Text : Type 0
Text = List ℕ

abbrev cons_head : ℕ → List Text → List Text
cons_head c [] = (c ∷ []) ∷ []
cons_head c (t ∷ ts) = (c ∷ t) ∷ ts

-- text.split(c) for one character
split_on : ℕ → Text → List Text
split_on c [] = [] ∷ []
split_on c (x ∷ xs) = let rest = split_on c xs in if x == c then [] ∷ rest else cons_head x rest

-- The text before the first "::", and the text behind it if there is one.
abbrev before_colons : ℕ → Text × Option Text → Text × Option Text
before_colons c (head, rest) = (c ∷ head, rest)

split_colons : Text → Text × Option Text
split_colons [] = ([], none)
split_colons (c ∷ []) = (c ∷ [], none)
split_colons (c ∷ d ∷ xs) =
    let later = split_colons (d ∷ xs) in
    if c == b':' && d == b':' then ([], some xs) else before_colons c later

-- The text behind the last occurrence of `c`, and the text up to it with `c` itself.
split_last : ℕ → Text → Text × Text
split_last c [] = ([], [])
split_last c (x ∷ xs) =
    let (front, tail) = split_last c xs in
    if any (λ y. y == c) xs
    then (x ∷ front, tail)
    else if x == c
    then (x ∷ [], xs)
    else ([], x ∷ xs)

abbrev digit_value : ℕ → ℕ
digit_value c = if leb b'a' c then c - b'a' + 10 else if leb b'A' c then c - b'A' + 10 else c - b'0'

read_base : ℕ → ℕ → Text → ℕ
read_base base value [] = value
read_base base value (c ∷ cs) = read_base base (value * base + digit_value c) cs

abbrev is_hex_digit : ℕ → Bool
is_hex_digit c =
    (leb b'0' c && leb c b'9') || ((leb b'a' c && leb c b'f') || (leb b'A' c && leb c b'F'))

-- Number.parseInt(text, base), for a text that begins with a digit
parse_int : ℕ → ℕ → Text → ℕ
parse_int base value [] = value
parse_int base value (c ∷ cs) =
    let onward = parse_int base (value * base + digit_value c) cs in
    if is_hex_digit c then onward else value

abbrev digit : ℕ → ℕ
digit d = if ltb d 10 then b'0' + d else b'a' + d - 10

-- value.toString(base), on `value + 1` rounds
print_base : ℕ → ℕ → ℕ → Text → Text
print_base base zero value out = out
print_base base (suc fuel) value out =
    let more = print_base base fuel (value / base) (digit (value % base) ∷ out) in
    if ltb value base then digit value ∷ out else more

unfoldable pub to_decimal : ℕ → Text
unfolding print_base
to_decimal n = print_base 10 (n + 1) n []

to_hex : ℕ → Text
unfolding print_base
to_hex n = print_base 16 (n + 1) n []

-- parseIpv4 and parseIpv6: the groups are shifted in from the left.
fold_groups : (Text → ℕ) → ℕ → ℕ → List Text → ℕ
fold_groups read size value [] = value
fold_groups read size value (g ∷ gs) = fold_groups read size (bit_or (value * 2 ^ size) (read g)) gs

parse_ipv4 : Text → ℕ
unfolding fold_groups split_on read_base
parse_ipv4 address = fold_groups (read_base 10 0) 8 0 (split_on b'.' address)

-- An embedded dotted quad becomes the last two groups.
without_dotted_quad : Text → Text
unfolding split_last parse_ipv4 to_hex
without_dotted_quad address =
    let (front, tail) = split_last b':' address in
    let quad = parse_ipv4 tail in
    if any (λ c. c == b'.') tail
    then front ++ (to_hex (quad / 2 ^ 16) ++ (b':' ∷ to_hex (quad % 2 ^ 16)))
    else address

groups_of : Text → List Text
unfolding split_on
groups_of [] = []
groups_of (c ∷ cs) = split_on b':' (c ∷ cs)

zero_groups : ℕ → List Text
zero_groups zero = []
zero_groups (suc n) = (b'0' ∷ []) ∷ zero_groups n

abbrev all_groups : Text × Option Text → List Text
unfolding groups_of zero_groups split_colons
all_groups (head, none) = groups_of head
all_groups (head, some rest) =
    let front = groups_of head in
    let back = groups_of (split_colons rest).0 in
    front ++ (zero_groups (8 - length front - length back) ++ back)

parse_ipv6 : Text → ℕ
unfolding fold_groups all_groups split_colons without_dotted_quad parse_int
parse_ipv6 address =
    fold_groups (parse_int 16 0) 16 0 (all_groups (split_colons (without_dotted_quad address)))

abbrev family_of_version : ℕ → Option Family
family_of_version version = if version == 4 then some v4 else if version == 6 then some v6 else none

abbrev parse_address : Family → Text → ℕ
unfolding parse_ipv4 parse_ipv6
parse_address v4 t = parse_ipv4 t
parse_address v6 t = parse_ipv6 t

-- The address part and the prefix part: the first two pieces of a split at "/".
abbrev pieces : List Text → Text × Text
pieces [] = ([], [])
pieces (a ∷ []) = (a, [])
pieces (a ∷ p ∷ _) = (a, p)

abbrev network : Family → ℕ → ℕ → Range
network family value host_bits =
    let start = value / 2 ^ host_bits * 2 ^ host_bits in
    record { family = family; start = start; end = start + 2 ^ host_bits - 1 }

-- The checks of `parseCidr` once the version and the prefix length are read.
range_of : Text → Option Family → Option ℕ → Option Range
unfolding parse_address
range_of address none prefix = none
range_of address (some family) none = none
range_of address (some family) (some prefix) =
    if ltb (family_bits family) prefix
    then none
    else some (network family (parse_address family address) (family_bits family - prefix))

module _ (is_ip : Text → ℕ) (number : Text → Option ℕ) where
  unfoldable pub parse_cidr : Text → Option Range
  unfolding split_on range_of
  parse_cidr cidr =
      let (address, prefix_raw) = pieces (split_on b'/' cidr) in
      range_of address (family_of_version (is_ip address)) (number prefix_raw)

-- texts.join(c) for one character
join_with : ℕ → List Text → Text
join_with c [] = []
join_with c (t ∷ []) = t
join_with c (t ∷ u ∷ ts) = t ++ (c ∷ join_with c (u ∷ ts))

abbrev octets : ℕ → List ℕ
octets value = value / 2 ^ 24 % 256 ∷ value / 2 ^ 16 % 256 ∷ value / 2 ^ 8 % 256 ∷ value % 256 ∷ []

-- The eight groups of an IPv6 address, the first one highest.
hex_groups : ℕ → ℕ → List ℕ
hex_groups zero value = []
hex_groups (suc n) value = value / 2 ^ (n * 16) % 2 ^ 16 ∷ hex_groups n value

zeros_in_front : List ℕ → ℕ
zeros_in_front [] = 0
zeros_in_front (g ∷ gs) = let more = zeros_in_front gs in if g == 0 then suc more else 0

-- The search for the longest run of zero groups: `best_start` is none for -1.
longest_run : ℕ → List ℕ → ℕ → Option ℕ → ℕ → Option ℕ × ℕ
longest_run zero groups index best_start best_length = (best_start, best_length)
longest_run (suc fuel) groups index best_start best_length =
    let run = zeros_in_front (drop index groups) in
    let onward = longest_run fuel groups (index + 1) best_start best_length in
    let longer = longest_run fuel groups (index + run) (some index) run in
    let shorter = longest_run fuel groups (index + run) best_start best_length in
    if leb 8 index
    then (best_start, best_length)
    else if run == 0
    then onward
    else if ltb best_length run
    then longer
    else shorter

abbrev compress : List Text → Option ℕ × ℕ → Text
unfolding join_with
compress groups (none, _) = join_with b':' groups
compress groups (some start, n) =
    join_with b':' (take start groups) ++ (b':' ∷ b':' ∷ join_with b':' (drop (start + n) groups))

unfoldable pub format_address : Family → ℕ → Text
unfolding join_with to_decimal to_hex hex_groups longest_run zeros_in_front compress
format_address v4 value = join_with b'.' (map to_decimal (octets value))
format_address v6 value =
    let groups = hex_groups 8 value in compress (map to_hex groups) (longest_run 9 groups 0 none 1)

unfoldable pub print_prefix : Prefix → Text
unfolding format_address to_decimal
print_prefix p =
    format_address p.family p.address ++ (b'/' ∷ to_decimal (family_bits p.family - p.host_bits))

text_eq : Text → Text → Bool
text_eq [] [] = true
text_eq (x ∷ xs) (y ∷ ys) = x == y && text_eq xs ys
text_eq _ _ = false

-- [...new Set(texts)]: the first occurrence of each text stays.
unique_from : List Text → List Text → List Text
unique_from seen [] = []
unique_from seen (t ∷ ts) =
    let rest = unique_from (t ∷ seen) ts in
    let skipped = unique_from seen ts in if any (text_eq t) seen then skipped else t ∷ rest

module _ (is_ip : Text → ℕ) (number : Text → Option ℕ) where
  read_all : List Text → List (Text × Option Range)
  read_all [] = []
  read_all (t ∷ ts) = (t, parse_cidr is_ip number t) ∷ read_all ts

  unfoldable pub subtract_cidrs : List Text → List Text → Subtraction Text
  unfolding read_all
  subtract_cidrs include exclude =
      subtract (read_all include) (map (parse_cidr is_ip number) exclude)

  unfoldable pub result_cidrs : List Text → List Text → List Text
  unfolding subtract_cidrs unique_from text_eq
  result_cidrs include exclude =
      let r = subtract_cidrs include exclude in
      unique_from [] (r.passed ++ (map print_prefix r.prefixes4 ++ map print_prefix r.prefixes6))
