-- ===== src/LogReader/Line/Format.antt =====
-- The columns of ptp4l's lines against the groups of the patterns of `_parse_line`.
use mathlib.Core.Path.{subst}
use mo_ip_checker.Base.{
  ℕ, zero, suc, ◌+◌, ◌<◌, ◌≡◌, refl, sym, ◌∙◌, ap, true, false, Option, some, List, [], ◌∷◌, ◌++◌,
  Text, arith, All, nat_eq, length, ◌≤◌,
}
use mo_ip_checker.Base.Int.{ℤ, pos, negsuc}
use mo_ip_checker.Base.Decimal.{
  str, str_ℕ, IsDecimal, value_from, value_from-cons, value_from-str_ℕ, str_ℕ-All, str_ℕ-cons,
}
use mo_ip_checker.Base.Exec.{ok}
use mo_ip_checker.Pattern.Engine.{
  Unicode, literal, space, digit, Item, plus, close_group, Captures, took, opened, digit_value,
  is_space, fits, plus_here, opt_here, match_here,
}
use mo_ip_checker.Pattern.Runs.{Stops, took_all, plus_here-run}
use mo_ip_checker.LogReader.Line.{signed_group, int_of, max_str_digits, unsigned, signed}

-- One or more blanks.
abbrev pub spaces : ℕ → Text
spaces zero = []
spaces (suc n) = b' ' ∷ spaces n

abbrev pub blanks : ℕ → Text
blanks n = b' ' ∷ spaces n

module _ (u : Unicode) where
  digit_value-IsDecimal : IsDecimal (digit_value u)
  unfolding digit_value
  digit_value-IsDecimal d h = ground arith

  pub digit-fits : (d : ℕ) → d < 10 → fits u digit (48 + d) ≡ true
  unfolding fits
  digit-fits d h = rw (digit_value-IsDecimal d h, fits)

  pub digit-not-space : (d : ℕ) → d < 10 → fits u space (48 + d) ≡ false
  unfolding fits is_space nat_eq
  digit-not-space d h = ground arith

  digit-not-minus : (d : ℕ) → d < 10 → fits u (literal b'-') (48 + d) ≡ false
  unfolding fits nat_eq
  digit-not-minus d h = ground arith

  -- A printed number is read whole by `\d+`, and does not begin with a minus sign.
  pub digits-fit : (n : ℕ) → All (λ c. fits u digit c ≡ true) (str_ℕ n)
  digits-fit = str_ℕ-All (λ c. fits u digit c ≡ true) digit-fits

  -- A printed number does not begin with a blank.
  digits-Stops :
      (w rest : Text)
      → (d : ℕ) × (s : Text) × (w ≡ d ∷ s)
      → All (λ c. fits u space c ≡ false) w
      → Stops u space (w ++ rest)
  digits-Stops [] rest (d, s, e) h = absurd (cc)
  digits-Stops (c ∷ w) rest _ h = h.0

  pub str_ℕ-Stops : (n : ℕ) (rest : Text) → Stops u space (str_ℕ n ++ rest)
  str_ℕ-Stops n rest =
      digits-Stops (str_ℕ n) rest (str_ℕ-cons n)
        (str_ℕ-All (λ c. fits u space c ≡ false) digit-not-space n)

  pub str-Stops : (z : ℤ) (rest : Text) → Stops u space (str z ++ rest)
  unfolding str fits is_space nat_eq
  str-Stops (pos n) rest = str_ℕ-Stops n rest
  str-Stops (negsuc n) rest = refl

  pub plus_here-digits :
      (k : Text → Captures → Option Captures) (w rest : Text) (st : Captures) {t : Captures}
      → (d : ℕ) × (s : Text) × (w ≡ d ∷ s)
      → All (λ c. fits u digit c ≡ true) w
      → Stops u digit rest
      → k rest (took_all w st) ≡ some t
      → plus_here u digit k (w ++ rest) st ≡ some t
  plus_here-digits k w rest st {t} (d, s, e) fit stops goes =
      subst (λ x. plus_here u digit k (x ++ rest) st ≡ some t) (sym e)
        (plus_here-run u digit k d s rest st {t = t}
          (subst (All (λ c. fits u digit c ≡ true)) e fit) stops
          (subst (λ x. k rest (took_all x st) ≡ some t) e goes))

  opt_here-digits :
      (k : Text → Captures → Option Captures) (w rest : Text) (st : Captures)
      → (d : ℕ) × (s : Text) × (w ≡ d ∷ s)
      → All (λ c. fits u (literal b'-') c ≡ false) w
      → opt_here u (literal b'-') k (w ++ rest) st ≡ k (w ++ rest) st
  unfolding opt_here
  opt_here-digits k w rest st (d, s, e) fit =
      subst (λ x. opt_here u (literal b'-') k (x ++ rest) st ≡ k (x ++ rest) st) (sym e)
        (rw (subst (All (λ c. fits u (literal b'-') c ≡ false)) e fit).0)

  -- `(-?\d+)` and what follows, on a printed integer
  pub signed_group-str :
      (z : ℤ) (items : List Item) (rest : Text) (st : Captures) {t : Captures}
      → Stops u digit rest
      → match_here u items rest (record { current = str z; groups = st.groups ++ str z ∷ [] })
        ≡ some t
      → match_here u (signed_group items) (str z ++ rest) st ≡ some t
  unfolding match_here opt_here str fits nat_eq
  signed_group-str (pos n) items rest st stops goes =
      opt_here-digits (match_here u (plus digit ∷ close_group ∷ items)) (str_ℕ n) rest (opened st)
        (str_ℕ-cons n) (str_ℕ-All (λ c. fits u (literal b'-') c ≡ false) digit-not-minus n)
      ∙ plus_here-digits (match_here u (close_group ∷ items)) (str_ℕ n) rest (opened st)
          (str_ℕ-cons n) (digits-fit n) stops goes
  signed_group-str (negsuc n) items rest st stops goes = rw (
      plus_here-digits (match_here u (close_group ∷ items)) (str_ℕ (suc n)) rest
        (took b'-' (opened st)) (str_ℕ-cons (suc n)) (digits-fit (suc n)) stops goes)

  spaces-fit : (n : ℕ) → All (λ c. fits u space c ≡ true) (blanks n)
  unfolding fits is_space nat_eq
  spaces-fit zero = (refl, tt)
  spaces-fit (suc n) = (refl, spaces-fit n)

  -- Blanks are read whole by `\s+`.
  pub plus_here-blanks :
      (n : ℕ) (items : List Item) (rest : Text) (st : Captures) {t : Captures}
      → Stops u space rest
      → match_here u items rest (took_all (blanks n) st) ≡ some t
      → match_here u (plus space ∷ items) (blanks n ++ rest) st ≡ some t
  unfolding match_here
  plus_here-blanks n items rest st {t} stops goes =
      plus_here-run u space (match_here u items) b' ' (spaces n) rest st {t = t} (spaces-fit n)
        stops goes

  unsigned-cons :
      (w : Text) {n : ℕ}
      → (d : ℕ) × (s : Text) × (w ≡ d ∷ s)
      → length w ≤ max_str_digits
      → value_from (digit_value u) 0 w ≡ some n
      → unsigned u w ≡ ok n
  unfolding unsigned
  unsigned-cons [] (d, s, e) short v = absurd (cc)
  unsigned-cons (c ∷ w) _ short v = ground arith

  unsigned-str : (n : ℕ) → length (str_ℕ n) ≤ max_str_digits → unsigned u (str_ℕ n) ≡ ok n
  unsigned-str n short =
      unsigned-cons (str_ℕ n) (str_ℕ-cons n) short
        (value_from-str_ℕ (digit_value u) digit_value-IsDecimal n)

  int_of-unsigned :
      (w : Text)
      → (d : ℕ) × (s : Text) × (w ≡ d ∷ s)
      → All (λ c. fits u (literal b'-') c ≡ false) w
      → int_of u w ≡ signed u pos (unsigned u w)
  unfolding int_of fits
  int_of-unsigned [] (d, s, e) h = absurd (cc)
  int_of-unsigned (c ∷ w) _ (h, _) = rw (h, int_of)

  -- `int` reads back what `str` printed, up to Python's limit on digits.
  pub int_of-str : (z : ℤ) → length (str z) ≤ max_str_digits → int_of u (str z) ≡ ok z
  unfolding str signed
  int_of-str (pos n) short =
      int_of-unsigned (str_ℕ n) (str_ℕ-cons n)
        (str_ℕ-All (λ c. fits u (literal b'-') c ≡ false) digit-not-minus n)
      ∙ rw (unsigned-str n short)
  int_of-str (negsuc n) short = unfold int_of nat_eq in rw (unsigned-str (suc n) (omega arith))

  pub int_of-digit : (d : ℕ) → d < 10 → int_of u ((48 + d) ∷ []) ≡ ok (pos d)
  unfolding signed
  int_of-digit d h =
      int_of-unsigned ((48 + d) ∷ []) (48 + d, [], refl) (digit-not-minus d h, tt)
      ∙ rw (
          unsigned-cons ((48 + d) ∷ []) {n = d} (48 + d, [], refl) (omega arith)
            (value_from-cons (digit_value u) digit_value-IsDecimal 0 (48 + d) d []
                (digit_value-IsDecimal d h)
              ∙ unfold value_from in ap some (omega arith)))
