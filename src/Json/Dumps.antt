-- ===== src/Json/Dumps.antt =====
-- `json.dumps`, with its default separators, with and without `ensure_ascii`.
use mo_ip_checker.Base.{
  ℕ, ◌+◌, ◌-◌, ◌/◌, ◌%◌, ◌&&◌, Bool, true, false, [], ◌∷◌, ◌++◌, Text, codes, ltb, ◌==◌, nat_eq,
  if◌then◌else◌,
}
use mo_ip_checker.Base.Decimal
use mo_ip_checker.Json.{
  Json, null, bool, num, real, str, arr, obj, Items, nil, cons, Fields, end, field,
}

hex_digit : ℕ → ℕ
hex_digit d = if ltb d 10 then 48 + d else 87 + d

-- `\u` and four digits
unicode_escape : ℕ → Text
unfolding hex_digit
unicode_escape n =
    codes "\\u"
    ++ hex_digit (n / 4096)
      ∷ hex_digit (n / 256 % 16)
      ∷ hex_digit (n / 16 % 16)
      ∷ hex_digit (n % 16)
      ∷ []

-- With `ensure_ascii`, what is not ASCII, and the character 127, become one escape or a pair of them.
ascii_escape : ℕ → Text
unfolding unicode_escape
ascii_escape c =
    if ltb c 65536
    then unicode_escape c
    else unicode_escape (0xd800 + (c - 65536) / 1024)
      ++ unicode_escape (0xdc00 + (c - 65536) % 1024)

-- Control characters, the quotation mark and the backslash are escaped.
escape : Bool → ℕ → Text
unfolding unicode_escape ascii_escape
escape ascii c =
    if c == b'"'
    then codes "\\\""
    else if c == b'\\'
    then codes "\\\\"
    else if c == 10
    then codes "\\n"
    else if c == 13
    then codes "\\r"
    else if c == 9
    then codes "\\t"
    else if c == 12
    then codes "\\f"
    else if c == 8
    then codes "\\b"
    else if ltb c 32
    then unicode_escape c
    else if ascii && ltb 126 c
    then ascii_escape c
    else c ∷ []

unfoldable pub escaped : Bool → Text → Text
unfolding escape
escaped ascii [] = []
escaped ascii (c ∷ s) = escape ascii c ++ escaped ascii s

abbrev quoted : Bool → Text → Text
quoted ascii s = codes "\"" ++ (escaped ascii s ++ codes "\"")

unfoldable mutual
  unfolding escaped Decimal.str

  -- The first flag is `ensure_ascii`.
  pub dumps_with : Bool → Json → Text
  dumps_with ascii null = codes "null"
  dumps_with ascii (bool b) = if b then codes "true" else codes "false"
  dumps_with ascii (num n) = Decimal.str n
  dumps_with ascii (real s) = s
  dumps_with ascii (str s) = quoted ascii s
  dumps_with ascii (arr xs) = codes "[" ++ (dumps_items ascii true xs ++ codes "]")
  dumps_with ascii (obj fs) = codes "{" ++ (dumps_fields ascii true fs ++ codes "}")

  -- The second flag is set in front of the first element, which has no comma before it.
  pub dumps_items : Bool → Bool → Items → Text
  dumps_items ascii first nil = []
  dumps_items ascii first (cons x xs) =
      (if first then [] else codes ", ") ++ (dumps_with ascii x ++ dumps_items ascii false xs)

  pub dumps_fields : Bool → Bool → Fields → Text
  dumps_fields ascii first end = []
  dumps_fields ascii first (field k v fs) =
      (if first then [] else codes ", ")
      ++ (quoted ascii (codes k)
          ++ (codes ": " ++ (dumps_with ascii v ++ dumps_fields ascii false fs)))

-- `json.dumps(value, ensure_ascii=False)` and `json.dumps(value)`
abbrev pub dumps : Json → Text
dumps value = dumps_with false value

abbrev pub dumps_ascii : Json → Text
dumps_ascii value = dumps_with true value
