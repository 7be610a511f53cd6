-- ===== src/Base/Int/Average.antt =====
-- The rounded average of a list, and its least and greatest element.
use native.Mathlib.Nat.{le-div_iff_mul-le, div-lt_iff_lt-mul, div-le_of_le-mul}
use mathlib.Core.Path.{subst}
use mo_ip_checker.Base.{
  ℕ, suc, ◌+◌, ◌*◌, ◌≤◌, ◌<◌, ◌≡◌, refl, sym, ap, inl, inr, Bool-cases, Bool, true, false, List, [],
  ◌∷◌, arith, if◌then◌else◌, length, All, Member,
}
use mo_ip_checker.Base.Int.{
  ℤ, pos, negsuc, pos_part, neg_part, ◌≤ℤ◌, ltb_ℤ, floor_div, sum, max, min, +ℤ_parts,
}

-- `k * m ≤ s` and `s ≤ k * m`, by parts
abbrev ScaledLe : ℕ → ℤ → ℤ → Type 0
ScaledLe k m s = k * pos_part m + neg_part s ≤ pos_part s + k * neg_part m

abbrev LeScaled : ℕ → ℤ → ℤ → Type 0
LeScaled k m s = pos_part s + k * neg_part m ≤ k * pos_part m + neg_part s

ScaledLe-sum : (m : ℤ) (xs : List ℤ) → All (λ x. m ≤ℤ x) xs → ScaledLe (length xs) m (sum xs)
unfolding sum
ScaledLe-sum m [] h = omega arith
ScaledLe-sum m (x ∷ xs) (h, hs) = omega (arith, ScaledLe-sum m xs hs, +ℤ_parts x (sum xs))

LeScaled-sum : (m : ℤ) (xs : List ℤ) → All (λ x. x ≤ℤ m) xs → LeScaled (length xs) m (sum xs)
unfolding sum
LeScaled-sum m [] h = omega arith
LeScaled-sum m (x ∷ xs) (h, hs) = omega (arith, LeScaled-sum m xs hs, +ℤ_parts x (sum xs))

le-floor_div : (k : ℕ) (m s : ℤ) → 0 < k → ScaledLe k m s → m ≤ℤ floor_div s k
unfolding floor_div
le-floor_div k (pos a) (pos b) p h =
    omega (arith, (le-div_iff_mul-le {x = a} {y = b} p).1 (omega arith))
le-floor_div k (pos a) (negsuc b) p h = absurd (omega arith)
le-floor_div k (negsuc a) (pos b) p h = omega arith
le-floor_div k (negsuc a) (negsuc b) p h =
    omega (arith, (div-lt_iff_lt-mul {x = b} {y = suc a} p).1 (omega arith))

floor_div-le : (k : ℕ) (m s : ℤ) → 0 < k → LeScaled k m s → floor_div s k ≤ℤ m
unfolding floor_div
floor_div-le k (pos a) (pos b) p h = omega (arith, div-le_of_le-mul k {m = b} {n = a} (omega arith))
floor_div-le k (pos a) (negsuc b) p h = omega arith
floor_div-le k (negsuc a) (pos b) p h = absurd (omega arith)
floor_div-le k (negsuc a) (negsuc b) p h =
    omega (arith, (le-div_iff_mul-le {x = a} {y = b} p).1 (omega arith))

ltb_ℤ-trans_le : (a b c : ℤ) → ltb_ℤ a b ≡ true → b ≤ℤ c → a ≤ℤ c
ltb_ℤ-trans_le a b c h k = ground arith

not_ltb_ℤ-trans_le : (a b c : ℤ) → ltb_ℤ a b ≡ false → a ≤ℤ c → b ≤ℤ c
not_ltb_ℤ-trans_le a b c h k = ground arith

le-ltb_ℤ_trans : (a b c : ℤ) → ltb_ℤ b a ≡ true → c ≤ℤ b → c ≤ℤ a
le-ltb_ℤ_trans a b c h k = ground arith

le-not_ltb_ℤ_trans : (a b c : ℤ) → ltb_ℤ b a ≡ false → c ≤ℤ a → c ≤ℤ b
le-not_ltb_ℤ_trans a b c h k = ground arith

-- An element that bounds every element from above; from below.
abbrev pub IsGreatest : ℤ → List ℤ → Type 0
IsGreatest a xs = All (λ x. x ≤ℤ a) xs × Member a xs

abbrev pub IsLeast : ℤ → List ℤ → Type 0
IsLeast a xs = All (λ x. a ≤ℤ x) xs × Member a xs

max-cons :
    (m x : ℤ) (xs : List ℤ) (b : Bool)
    → ltb_ℤ m x ≡ b
    → max m (x ∷ xs) ≡ max (if b then x else m) xs
unfolding max
max-cons m x xs b e = ap (λ c. max (if c then x else m) xs) e

skip_second_max :
    (m x : ℤ) (xs : List ℤ) → Member (max m xs) (m ∷ xs) → Member (max m xs) (m ∷ x ∷ xs)
skip_second_max m x xs (inl e) = inl e
skip_second_max m x xs (inr e) = inr (inr e)

pub max-IsGreatest : (m : ℤ) (xs : List ℤ) → IsGreatest (max m xs) (m ∷ xs)
max-IsGreatest m [] = unfold max in ((omega arith, tt), inl refl)
max-IsGreatest m (x ∷ xs) = elim (Bool-cases (ltb_ℤ m x)) [
  | inl taken ↦
      let ih = max-IsGreatest x xs in
      subst (λ a. IsGreatest a (m ∷ x ∷ xs)) (sym (max-cons m x xs true taken))
        ((ltb_ℤ-trans_le m x (max x xs) taken ih.0.0, (ih.0.0, ih.0.1)), inr ih.1)
  | inr other ↦
      let ih = max-IsGreatest m xs in
      subst (λ a. IsGreatest a (m ∷ x ∷ xs)) (sym (max-cons m x xs false other))
        (
          (ih.0.0, (not_ltb_ℤ-trans_le m x (max m xs) other ih.0.0, ih.0.1)),
          skip_second_max m x xs ih.1,
        )
]

min-cons :
    (m x : ℤ) (xs : List ℤ) (b : Bool)
    → ltb_ℤ x m ≡ b
    → min m (x ∷ xs) ≡ min (if b then x else m) xs
unfolding min
min-cons m x xs b e = ap (λ c. min (if c then x else m) xs) e

skip_second_min :
    (m x : ℤ) (xs : List ℤ) → Member (min m xs) (m ∷ xs) → Member (min m xs) (m ∷ x ∷ xs)
skip_second_min m x xs (inl e) = inl e
skip_second_min m x xs (inr e) = inr (inr e)

pub min-IsLeast : (m : ℤ) (xs : List ℤ) → IsLeast (min m xs) (m ∷ xs)
min-IsLeast m [] = unfold min in ((omega arith, tt), inl refl)
min-IsLeast m (x ∷ xs) = elim (Bool-cases (ltb_ℤ x m)) [
  | inl taken ↦
      let ih = min-IsLeast x xs in
      subst (λ a. IsLeast a (m ∷ x ∷ xs)) (sym (min-cons m x xs true taken))
        ((le-ltb_ℤ_trans m x (min x xs) taken ih.0.0, (ih.0.0, ih.0.1)), inr ih.1)
  | inr other ↦
      let ih = min-IsLeast m xs in
      subst (λ a. IsLeast a (m ∷ x ∷ xs)) (sym (min-cons m x xs false other))
        (
          (ih.0.0, (le-not_ltb_ℤ_trans m x (min m xs) other ih.0.0, ih.0.1)),
          skip_second_min m x xs ih.1,
        )
]

-- The average, rounded down, lies between the bounds of the list.
pub average_bounds :
    (x : ℤ) (xs : List ℤ) (a b : ℤ)
    → All (λ y. a ≤ℤ y) (x ∷ xs)
    → All (λ y. y ≤ℤ b) (x ∷ xs)
    → (a ≤ℤ floor_div (sum (x ∷ xs)) (length (x ∷ xs)))
      × (floor_div (sum (x ∷ xs)) (length (x ∷ xs)) ≤ℤ b)
average_bounds x xs a b lower upper = (
  le-floor_div (length (x ∷ xs)) a (sum (x ∷ xs)) (omega arith) (ScaledLe-sum a (x ∷ xs) lower),
  floor_div-le (length (x ∷ xs)) b (sum (x ∷ xs)) (omega arith) (LeScaled-sum b (x ∷ xs) upper),
)
