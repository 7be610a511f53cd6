-- ===== src/ConfigStore/Template/Pieces.antt =====
-- The pieces that a template is made of, and what each is replaced by.
use mo_ip_checker.Base.{
  ℕ, ◌≡◌, Bool, true, not, ◌&&◌, List, [], ◌∷◌, ◌++◌, Text, ◌==◌, nat_eq, text_eq, all,
}
use mo_ip_checker.Base.Dict.{Dict}
use mo_ip_checker.Base.Exec.{Result, ok, raised}
use mo_ip_checker.ConfigStore.Template.{is_letter, is_name_char, value_of, prefixed}

-- A text without `$`, `$$`, `$name` and `${name}`
pub data Piece : Type 0 where
  literal : Text → Piece
  dollar : Piece
  bare : ℕ → Text → Piece
  in_braces : ℕ → Text → Piece

unfoldable pub printed : List Piece → Text
printed [] = []
printed (literal s ∷ ps) = s ++ printed ps
printed (dollar ∷ ps) = b'$' ∷ b'$' ∷ printed ps
printed (bare c s ∷ ps) = b'$' ∷ c ∷ (s ++ printed ps)
printed (in_braces c s ∷ ps) = b'$' ∷ b'{' ∷ c ∷ (s ++ b'}' ∷ printed ps)

-- No name goes on with this text.
unfoldable pub ends_name : Text → Bool
unfolding is_name_char
ends_name [] = true
ends_name (c ∷ s) = not (is_name_char c)

unfoldable pub is_name : ℕ → Text → Bool
unfolding is_name_char is_letter
is_name c s = is_letter c && all is_name_char s

-- The pieces are what they stand for.
abbrev pub ArePieces : List Piece → Type 0
ArePieces [] = Unit
ArePieces (literal s ∷ ps) = (all (λ c. not (c == b'$')) s ≡ true) × ArePieces ps
ArePieces (dollar ∷ ps) = ArePieces ps
ArePieces (bare c s ∷ ps) = (is_name c s ≡ true) × (ends_name (printed ps) ≡ true) × ArePieces ps
ArePieces (in_braces c s ∷ ps) = (is_name c s ≡ true) × ArePieces ps

module _ (mapping : Dict Text Text) where
  unfoldable pub and_then : Result Text → Result Text → Result Text
  unfolding prefixed
  and_then (ok v) rest = prefixed mapping v rest
  and_then (raised e) rest = raised e

  -- Each name replaced by its value; the first name without one raises.
  unfoldable pub filled : List Piece → Result Text
  unfolding prefixed value_of and_then
  filled [] = ok []
  filled (literal s ∷ ps) = prefixed mapping s (filled ps)
  filled (dollar ∷ ps) = prefixed mapping (b'$' ∷ []) (filled ps)
  filled (bare c s ∷ ps) = and_then (value_of mapping (c ∷ s)) (filled ps)
  filled (in_braces c s ∷ ps) = and_then (value_of mapping (c ∷ s)) (filled ps)
