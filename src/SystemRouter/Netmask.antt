-- ===== src/SystemRouter/Netmask.antt =====
-- `ipaddress.IPv4Network(f"0.0.0.0/{netmask}").prefixlen`, which frontend/routers/system.py asks for;
-- `none` is a `ValueError`.
pub mod Masks
use mo_ip_checker.Base.{
  ℕ, zero, suc, ◌+◌, ◌-◌, ◌*◌, ◌/◌, ◌%◌, ◌^◌, Bool, true, false, not, ◌&&◌, ◌||◌, Option, none,
  some, List, [], ◌∷◌, Text, codes, ltb, leb, ◌==◌, nat_eq, text_eq, if◌then◌else◌, length, all,
}
use mo_ip_checker.Base.Decimal.{value_from}
use mo_ip_checker.Base.Texts.{split_on}

-- `text.isascii() and text.isdigit()`
unfoldable pub is_ascii_digits : Text → Bool
is_ascii_digits [] = false
is_ascii_digits s = all (λ c. leb b'0' c && leb c b'9') s

abbrev ascii_digit : ℕ → Option ℕ
ascii_digit c = if leb b'0' c && leb c b'9' then some (c - b'0') else none

-- `int(text)` of such a text
unfoldable pub decimal : Text → Option ℕ
unfolding is_ascii_digits
decimal s = if is_ascii_digits s then value_from ascii_digit 0 s else none

at_most : ℕ → Option ℕ → Option ℕ
at_most bound none = none
at_most bound (some n) = if leb n bound then some n else none

has_leading_zero : Text → Bool
has_leading_zero (c ∷ d ∷ s) = c == b'0'
has_leading_zero _ = false

-- `_parse_octet`
unfoldable pub parse_octet : Text → Option ℕ
unfolding at_most has_leading_zero nat_eq
parse_octet s = if ltb 3 (length s) || has_leading_zero s then none else at_most 255 (decimal s)

parse_octets : ℕ → List Text → Option ℕ
parse_octets value [] = some value
parse_octets value (s ∷ parts) = elim (parse_octet s) [
  | none ↦ none
  | some octet ↦ parse_octets (value * 256 + octet) parts
]

-- `_ip_int_from_string`
unfoldable pub ip_int_from_string : Text → Option ℕ
unfolding parse_octets nat_eq
ip_int_from_string s =
    let parts = split_on b'.' s in if length parts == 4 then parse_octets 0 parts else none

-- `_count_righthand_zero_bits`
unfoldable pub trailing_zeroes : ℕ → ℕ → ℕ
trailing_zeroes zero n = 0
trailing_zeroes (suc bits) n =
    let more = suc (trailing_zeroes bits (n / 2)) in if n % 2 == 0 then more else 0

-- `_prefix_from_ip_int`
unfoldable pub prefix_from_ip_int : ℕ → Option ℕ
unfolding nat_eq
prefix_from_ip_int ip_int =
    let zeroes = trailing_zeroes 32 ip_int in
    if ip_int / 2 ^ zeroes == 2 ^ (32 - zeroes) - 1 then some (32 - zeroes) else none

-- A netmask, or else a hostmask
prefix_of_mask : Option ℕ → Option ℕ
prefix_of_mask none = none
prefix_of_mask (some ip_int) = elim (prefix_from_ip_int ip_int) [
  | some n ↦ some n
  | none ↦ prefix_from_ip_int (2 ^ 32 - 1 - ip_int)
]

-- `_make_netmask`: the length of the prefix, or a dotted mask
unfoldable pub make_netmask : Text → Option ℕ
unfolding prefix_of_mask at_most
make_netmask s = elim (at_most 32 (decimal s)) [
  | some n ↦ some n
  | none ↦ prefix_of_mask (ip_int_from_string s)
]

-- More than one slash is refused.
unfoldable pub prefixlen : Text → Option ℕ
unfolding nat_eq
prefixlen netmask = if all (λ c. not (c == b'/')) netmask then make_netmask netmask else none
