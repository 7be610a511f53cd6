-- ===== src/Base/Decimal.antt =====
-- `int` and `str` between integers and decimal text.
use mo_ip_checker.Base.{
  ℕ, zero, suc, ◌+◌, ◌*◌, ◌/◌, ◌%◌, ◌<◌, ◌≡◌, refl, ◌∙◌, ap, false, Option, none, some, inl, inr,
  Bool-cases, [], ◌∷◌, arith, ltb, if◌then◌else◌, Text, All, nat_eq,
}
use mo_ip_checker.Base.Int.{ℤ, pos, negsuc}

-- The digits of `n`, in front of `acc`. A number below 10 has one digit.
digits_from : ℕ → ℕ → Text → Text
digits_from zero n acc = acc
digits_from (suc fuel) n acc =
    let more = digits_from fuel (n / 10) ((48 + n % 10) ∷ acc) in
    if ltb n 10 then (48 + n) ∷ acc else more

unfoldable pub str_ℕ : ℕ → Text
unfolding digits_from
str_ℕ n = digits_from (suc n) n []

-- `str(a)` of an integer
unfoldable pub str : ℤ → Text
str (pos n) = str_ℕ n
str (negsuc n) = b'-' ∷ str_ℕ (suc n)

-- The value of each decimal digit, ASCII or not, is a parameter of what reads digits.
module _ (digit : ℕ → Option ℕ) where
  unfoldable pub value_from : ℕ → Text → Option ℕ
  value_from acc [] = some acc
  value_from acc (c ∷ s) = elim (digit c) [ none ↦ none | some d ↦ value_from (acc * 10 + d) s ]

-- The digit values that `str` relies on.
abbrev pub IsDecimal : (ℕ → Option ℕ) → Type 0
IsDecimal digit = (d : ℕ) → d < 10 → digit (48 + d) ≡ some d

module _ (digit : ℕ → Option ℕ) (dec : IsDecimal digit) where
  pub value_from-cons :
      (start c d : ℕ) (s : Text)
      → digit c ≡ some d
      → value_from digit start (c ∷ s) ≡ value_from digit (start * 10 + d) s
  unfolding value_from
  value_from-cons start c d s e = rw (e, value_from)

  -- `start` is shifted by the number of digits.
  abbrev Shifts : ℕ → ℕ → ℕ → Text → Type 0
  Shifts fuel n start acc =
      (k : ℕ) × (value_from digit start (digits_from fuel n acc)
        ≡ value_from digit (start * k + n) acc)

  shift_digit :
      (fuel n start : ℕ) (acc : Text)
      → ltb n 10 ≡ false
      → Shifts fuel (n / 10) start ((48 + n % 10) ∷ acc)
      → Shifts (suc fuel) n start acc
  unfolding digits_from
  shift_digit fuel n start acc big (k, e) = (
    k * 10,
    rw big (
        e
        ∙ value_from-cons (start * k + n / 10) (48 + n % 10) (n % 10) acc
            (dec (n % 10) (omega arith))
        ∙ ap (λ m. value_from digit m acc) (omega arith)),
  )

  digits_from-value : (fuel n start : ℕ) (acc : Text) → n < fuel → Shifts fuel n start acc
  unfolding digits_from
  digits_from-value zero n start acc h = absurd (omega arith)
  digits_from-value (suc fuel) n start acc h = elim (Bool-cases (ltb n 10)) [
    | inl small ↦ (10, rw small (value_from-cons start (48 + n) n acc (dec n (ground arith))))
    | inr big ↦
        shift_digit fuel n start acc big
          (digits_from-value fuel (n / 10) start ((48 + n % 10) ∷ acc) (ground arith))
  ]

  -- Reading back what `str` wrote of a natural number.
  pub value_from-str_ℕ : (n : ℕ) → value_from digit 0 (str_ℕ n) ≡ some n
  unfolding str_ℕ value_from
  value_from-str_ℕ n =
      let (k, e) = digits_from-value (suc n) n 0 [] (omega arith) in e ∙ ap some (omega arith)

-- What holds of each of the ten digits holds of every character of a printed number.
module _ {ℓ} (P : ℕ → Type ℓ) (digits : (d : ℕ) → d < 10 → P (48 + d)) where
  digits_from-All : (fuel n : ℕ) (acc : Text) → All P acc → All P (digits_from fuel n acc)
  unfolding digits_from
  digits_from-All zero n acc h = h
  digits_from-All (suc fuel) n acc h = elim (Bool-cases (ltb n 10)) [
    | inl small ↦ rw small (digits n (ground arith), h)
    | inr big ↦
        rw big
          (digits_from-All fuel (n / 10) ((48 + n % 10) ∷ acc) (digits (n % 10) (omega arith), h))
  ]

  pub str_ℕ-All : (n : ℕ) → All P (str_ℕ n)
  unfolding str_ℕ
  str_ℕ-All n = digits_from-All (suc n) n [] tt

digits_from-cons :
    (fuel n c : ℕ) (acc : Text) → (d : ℕ) × (s : Text) × (digits_from fuel n (c ∷ acc) ≡ d ∷ s)
unfolding digits_from
digits_from-cons zero n c acc = (c, acc, refl)
digits_from-cons (suc fuel) n c acc = elim (Bool-cases (ltb n 10)) [
  | inl small ↦ (48 + n, c ∷ acc, rw small)
  | inr big ↦ rw big (digits_from-cons fuel (n / 10) (48 + n % 10) (c ∷ acc))
]

-- A number has at least one digit.
pub str_ℕ-cons : (n : ℕ) → (d : ℕ) × (s : Text) × (str_ℕ n ≡ d ∷ s)
unfolding str_ℕ digits_from
str_ℕ-cons n = elim (Bool-cases (ltb n 10)) [
  | inl small ↦ (48 + n, [], rw small)
  | inr big ↦ rw big (digits_from-cons n (n / 10) (48 + n % 10) [])
]
