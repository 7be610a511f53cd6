-- ===== src/ConfigStore/Template.antt =====
-- `string.Template.substitute`: one pass over the text with what the current placeholder has so far.
pub mod Pieces
pub mod Scanned
pub mod Known
use mo_ip_checker.Base.{
  ℕ, Bool, ◌&&◌, ◌||◌, [], ◌∷◌, ◌++◌, Text, leb, ◌==◌, nat_eq, text_eq, if◌then◌else◌,
}
use mo_ip_checker.Base.Dict
use mo_ip_checker.Base.Dict.{Dict}
use mo_ip_checker.Base.Exec.{Result, ok, raised, key_error, value_error, some_or}

pub data Mode : Type 0 where
  copying after_dollar : Mode
  named braced : Text → Mode

is_letter : ℕ → Bool
is_letter c = leb b'a' c && leb c b'z' || leb b'A' c && leb c b'Z' || c == b'_'

is_name_char : ℕ → Bool
unfolding is_letter
is_name_char c = is_letter c || leb b'0' c && leb c b'9'

module _ (mapping : Dict Text Text) where
  value_of : Text → Result Text
  value_of name = some_or key_error (Dict.get name mapping)

  -- `c` ends a name: it is copied, or begins the next placeholder.
  end_name : ℕ → Result Text → Result (Mode × Text)
  end_name c (ok v) = if c == b'$' then ok (after_dollar, v) else ok (copying, v ++ c ∷ [])
  end_name c (raised e) = raised e

  close_brace : Result Text → Result (Mode × Text)
  close_brace (ok v) = ok (copying, v)
  close_brace (raised e) = raised e

  scan_char : Mode → ℕ → Result (Mode × Text)
  unfolding is_name_char end_name close_brace value_of
  scan_char copying c = if c == b'$' then ok (after_dollar, []) else ok (copying, c ∷ [])
  scan_char after_dollar c =
      if c == b'$'
      then ok (copying, c ∷ [])
      else if c == b'{'
      then ok (braced [], [])
      else if is_letter c
      then ok (named (c ∷ []), [])
      else raised value_error
  scan_char (named name) c =
      if is_name_char c then ok (named (name ++ c ∷ []), []) else end_name c (value_of name)
  scan_char (braced []) c = if is_letter c then ok (braced (c ∷ []), []) else raised value_error
  scan_char (braced (d ∷ name)) c =
      if is_name_char c
      then ok (braced (d ∷ name ++ c ∷ []), [])
      else if c == b'}'
      then close_brace (value_of (d ∷ name))
      else raised value_error

  scan_end : Mode → Result Text
  unfolding value_of
  scan_end copying = ok []
  scan_end after_dollar = raised value_error
  scan_end (named name) = value_of name
  scan_end (braced name) = raised value_error

  prefixed : Text → Result Text → Result Text
  prefixed out (ok rest) = ok (out ++ rest)
  prefixed out (raised e) = raised e

  scan : Mode → Text → Result Text
  scan mode [] = scan_end mode
  scan mode (c ∷ s) = elim (scan_char mode c) [
    | raised e ↦ raised e
    | ok (next, out) ↦ prefixed out (scan next s)
  ]

  unfoldable pub substitute : Text → Result Text
  unfolding scan scan_char scan_end prefixed
  substitute = scan copying
