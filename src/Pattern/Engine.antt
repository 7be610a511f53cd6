-- ===== src/Pattern/Engine.antt =====
-- The matcher, with the text of each closed group.
use mo_ip_checker.Base.{
  ℕ, ◌-◌, Bool, true, false, ◌&&◌, ◌||◌, Option, none, some, List, [], ◌∷◌, ◌++◌, Text, leb, ltb,
  ◌==◌, nat_eq, if◌then◌else◌,
}

-- What Unicode says of the characters outside ASCII: the value of a decimal digit, white space, and
-- the letters and digits of words.
pub record Unicode : Type 0 where
  pub decimal : ℕ → Option ℕ
  pub space : ℕ → Bool
  pub word : ℕ → Bool

pub data Class : Type 0 where
  literal : ℕ → Class
  space digit word hex : Class

pub data Item : Type 0 where
  one plus opt : Class → Item
  open_group close_group : Item

-- A literal text, one character after the other.
abbrev pub literals : Text → List Item → List Item
literals [] items = items
literals (c ∷ s) items = one (literal c) ∷ literals s items

abbrev within : ℕ → ℕ → ℕ → Bool
within lo hi c = leb lo c && leb c hi

-- What was read since the last open group, and the closed groups in order.
pub record Captures : Type 0 where
  pub current : Text
  pub groups : List Text

abbrev pub start : Captures
start = record { current = []; groups = [] }

abbrev pub took : ℕ → Captures → Captures
took c st = record st { current = st.current ++ c ∷ [] }

abbrev pub opened : Captures → Captures
opened st = record st { current = [] }

abbrev pub closed : Captures → Captures
closed st = record st { groups = st.groups ++ st.current ∷ [] }

abbrev pub first_some {ℓ} : {A : Type ℓ} → Option A → Option A → Option A
first_some none y = y
first_some (some a) y = some a

module _ (u : Unicode) where
  -- The value that `int` gives to a digit, and `\d` at the same time.
  unfoldable pub digit_value : ℕ → Option ℕ
  digit_value c =
      if ltb c 128 then (if within b'0' b'9' c then some (c - b'0') else none) else u.decimal c

  unfoldable pub is_space : ℕ → Bool
  is_space c = if ltb c 128 then within 9 13 c || within 28 31 c || c == b' ' else u.space c

  unfoldable pub is_word : ℕ → Bool
  is_word c =
      if ltb c 128
      then within b'a' b'z' c || within b'A' b'Z' c || within b'0' b'9' c || c == b'_'
      else u.word c

  unfoldable pub fits : Class → ℕ → Bool
  fits (literal l) c = c == l
  fits space c = is_space c
  fits digit c = elim (digit_value c) [ none ↦ false | some d ↦ true ]
  fits word c = is_word c
  fits hex c = within b'0' b'9' c || within b'a' b'f' c

  -- One or more characters of the class, as many as possible at first, and then `k`.
  unfoldable pub plus_here :
      Class → (Text → Captures → Option Captures) → Text → Captures → Option Captures
  plus_here cls k [] st = none
  plus_here cls k (c ∷ s) st =
      let more = plus_here cls k s (took c st) in
      if fits cls c then first_some more (k s (took c st)) else none

  unfoldable pub opt_here :
      Class → (Text → Captures → Option Captures) → Text → Captures → Option Captures
  opt_here cls k [] st = k [] st
  opt_here cls k (c ∷ s) st =
      if fits cls c then first_some (k s (took c st)) (k (c ∷ s) st) else k (c ∷ s) st

  unfoldable pub match_here : List Item → Text → Captures → Option Captures
  match_here [] s st = some st
  match_here (one cls ∷ items) [] st = none
  match_here (one cls ∷ items) (c ∷ s) st =
      if fits cls c then match_here items s (took c st) else none
  match_here (plus cls ∷ items) s st = plus_here cls (match_here items) s st
  match_here (opt cls ∷ items) s st = opt_here cls (match_here items) s st
  match_here (open_group ∷ items) s st = match_here items s (opened st)
  match_here (close_group ∷ items) s st = match_here items s (closed st)

  -- `pattern.search(s)`: the groups of the leftmost match.
  unfoldable pub search_from : List Item → Text → Option Captures
  search_from items [] = match_here items [] start
  search_from items (c ∷ s) =
      let later = search_from items s in first_some (match_here items (c ∷ s) start) later
