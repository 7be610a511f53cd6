-- ===== src/Base/Texts.antt =====
-- Tests of Python's `str`.
use mathlib.Core.List.{reverse}
use mo_ip_checker.Base.{
  Bool, true, false, ◌&&◌, ◌||◌, List, [], ◌∷◌, Text, ◌==◌, nat_eq, ltb, ◌++◌, if◌then◌else◌, ℕ,
}

-- `text.startswith(prefix)` and `text.endswith(suffix)`
unfoldable pub starts_with : Text → Text → Bool
starts_with [] s = true
starts_with (c ∷ prefix) [] = false
starts_with (c ∷ prefix) (x ∷ s) = c == x && starts_with prefix s

abbrev pub ends_with : Text → Text → Bool
ends_with suffix s = starts_with (reverse suffix) (reverse s)

unfoldable pub contains_text : Text → Text → Bool
contains_text part [] = starts_with part []
contains_text part (c ∷ s) = starts_with part (c ∷ s) || contains_text part s

-- `a < b`, by code points
unfoldable pub lt_text : Text → Text → Bool
unfolding nat_eq
lt_text s [] = false
lt_text [] (b ∷ t) = true
lt_text (a ∷ s) (b ∷ t) = ltb a b || (a == b && lt_text s t)

-- `text.split(c)`
unfoldable pub split_on : ℕ → Text → List Text
split_on c [] = [] ∷ []
split_on c (x ∷ s) = elim (split_on c s) [
  | [] ↦ []
  | part ∷ parts ↦ if x == c then [] ∷ part ∷ parts else (x ∷ part) ∷ parts
]

-- `separator.join(parts)`
unfoldable pub join : Text → List Text → Text
join separator [] = []
join separator (part ∷ []) = part
join separator (part ∷ next ∷ parts) = part ++ (separator ++ join separator (next ∷ parts))
