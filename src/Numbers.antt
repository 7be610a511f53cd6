-- ===== src/Numbers.antt =====
-- Python's numbers where the program mixes `int` and `float`: the clock, intervals and rates. Their
-- type and its operations are parameters, since floats are rounded.
use mo_ip_checker.Base.{◌≡◌, Bool, Option, none, some, Text, if◌then◌else◌}
use mo_ip_checker.Base.Int.{ℤ, pos, ltb_ℤ, leb_ℤ}
use mo_ip_checker.Json.{Json, bool, num, real}

pub record Numbers : Type 1 where
  pub Number : Type 0
  pub of_ℤ : ℤ → Number
  pub of_real : Text → Number
  pub add : Number → Number → Number
  pub sub : Number → Number → Number
  pub mul : Number → Number → Number
  pub div : Number → Number → Number
  pub pow2 : Number → Number
  pub round : Number → Number
  pub lt : Number → Number → Bool
  pub le : Number → Number → Bool

-- Python compares integers exactly.
pub record IsExact (N : Numbers) : Type 0 where
  pub lt-of_ℤ : (a b : ℤ) → N.lt (N.of_ℤ a) (N.of_ℤ b) ≡ ltb_ℤ a b
  pub le-of_ℤ : (a b : ℤ) → N.le (N.of_ℤ a) (N.of_ℤ b) ≡ leb_ℤ a b

-- A value that arithmetic and comparisons accept. `none` is a `TypeError` at its use.
unfoldable pub number : (N : Numbers) → Json → Option N.Number
number N (num n) = some (N.of_ℤ n)
number N (real s) = some (N.of_real s)
number N (bool b) = some (N.of_ℤ (pos (if b then 1 else 0)))
number N _ = none
