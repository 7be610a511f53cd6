-- ===== src/Tests/Fixtures.antt =====
-- A Unicode database that knows ASCII only, and numbers without fractions.
use mo_ip_checker.Base.{ℕ, ◌*◌, ◌/◌, ◌^◌, refl, false, none, Text, codes, ltb, if◌then◌else◌}
use mo_ip_checker.Base.Int.{ℤ, pos, pos_part, neg_part, ◌+ℤ◌, ◌-ℤ◌, ltb_ℤ, leb_ℤ}
use mo_ip_checker.Numbers.{Numbers, IsExact}
use mo_ip_checker.Pattern.Engine.{Unicode}
use mo_ip_checker.LogReader.Tick.{Now}

abbrev pub ascii : Unicode
ascii = record { decimal = λ _. none; space = λ _. false; word = λ _. false }

-- Products of numbers of one sign, quotients and powers rounded to whole numbers
abbrev pub whole : Numbers
whole = record {
  Number = ℤ;
  of_ℤ = λ z. z;
  of_real = λ _. pos 0;
  add = ◌+ℤ◌;
  sub = ◌-ℤ◌;
  mul = λ a b. pos (pos_part a * pos_part b);
  div = λ a b. pos (pos_part a / pos_part b);
  pow2 = λ a. pos (if ltb 0 (neg_part a) then 0 else 2 ^ pos_part a);
  round = λ a. a;
  lt = ltb_ℤ;
  le = leb_ℤ;
}

pub whole-IsExact : IsExact whole
whole-IsExact = record { lt-of_ℤ = λ a b. refl; le-of_ℤ = λ a b. refl }

abbrev pub noon : Text
noon = codes "2024-05-01T12:00:00"

abbrev pub at : ℕ → Now ℤ
at seconds = record {
  mono = pos seconds;
  lost_at = noon;
  breached_at = noon;
  freq_at = noon;
  updated_at = noon;
}
