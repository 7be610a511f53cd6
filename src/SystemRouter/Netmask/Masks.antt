-- ===== src/SystemRouter/Netmask/Masks.antt =====
-- The prefix lengths of netmasks.
use mathlib.Core.Path.{subst}
use mo_ip_checker.Base.{
  Bool-cases, inl, inr, true, ◌==◌, ℕ, zero, suc, ◌-◌, ◌*◌, ◌/◌, ◌%◌, ◌^◌, ◌≤◌, ◌≡◌, refl, sym, ap,
  Bool, true, false, ◌&&◌, Option, none, some, [], ◌∷◌, ◌++◌, Text, codes, arith, ◌==◌, nat_eq,
  ==-eq,
}
use mo_ip_checker.Base.Decimal.{str_ℕ, str_ℕ-cons, value_from}
use mo_ip_checker.Base.Texts.{split_on, join}
use mo_ip_checker.SystemRouter.Netmask.{
  trailing_zeroes, prefix_from_ip_int, make_netmask, prefixlen, decimal, ip_int_from_string,
  parse_octet, is_ascii_digits, at_most, prefix_of_mask,
}

-- The mask of a prefix, in dotted form.
abbrev pub mask : ℕ → ℕ
mask n = (2 ^ n - 1) * 2 ^ (32 - n)

unfoldable pub dotted : ℕ → Text
dotted ip = join (codes ".") (
    str_ℕ (ip / 2 ^ 24)
    ∷ str_ℕ (ip / 2 ^ 16 % 256)
    ∷ str_ℕ (ip / 2 ^ 8 % 256)
    ∷ str_ℕ (ip % 256)
    ∷ [])

append-cons : (c : ℕ) (s t u : Text) → u ≡ c ∷ s → u ++ t ≡ c ∷ (s ++ t)
append-cons c s t u h = ap (λ v. v ++ t) h

pub dotted-cons : (ip : ℕ) → (c : ℕ) × (s : Text) × (dotted ip ≡ c ∷ s)
unfolding dotted join
dotted-cons ip =
    let (c, s, e) = str_ℕ-cons (ip / 2 ^ 24) in (c, _, append-cons c s _ (str_ℕ (ip / 2 ^ 24)) e)

is_prefix : ℕ → Option ℕ → Bool
is_prefix n none = false
is_prefix n (some m) = n == m

-- Every length from 0 to `bound` is read back from its mask.
lengths_agree : (bound : ℕ) → Bool
unfolding is_prefix
lengths_agree zero = is_prefix 0 (prefixlen (dotted (mask 0)))
lengths_agree (suc k) = lengths_agree k && is_prefix (suc k) (prefixlen (dotted (mask (suc k))))

agree_on_all_lengths : lengths_agree 32 ≡ true
unfolding lengths_agree is_prefix prefixlen dotted make_netmask decimal at_most ip_int_from_string
    parse_octet prefix_from_ip_int trailing_zeroes split_on join str_ℕ value_from is_ascii_digits
    nat_eq
agree_on_all_lengths = refl

is_prefix-eq : (n : ℕ) (o : Option ℕ) → is_prefix n o ≡ true → o ≡ some n
unfolding is_prefix
is_prefix-eq n none h = absurd (cc)
is_prefix-eq n (some m) h = ap some (sym (==-eq n m h))

length_agrees :
    (bound n : ℕ) → lengths_agree bound ≡ true → n ≤ bound → prefixlen (dotted (mask n)) ≡ some n
unfolding lengths_agree
length_agrees zero zero h le = is_prefix-eq 0 (prefixlen (dotted (mask 0))) h
length_agrees zero (suc n) h le = absurd (omega arith)
length_agrees (suc k) n h le = elim (Bool-cases (n == suc k)) [
  | inl last ↦
      subst (λ l. prefixlen (dotted (mask l)) ≡ some l) (sym (==-eq n (suc k) last))
        (is_prefix-eq (suc k) (prefixlen (dotted (mask (suc k)))) (ground arith))
  | inr other ↦ length_agrees k n (ground arith) (ground arith)
]

-- The mask of a prefix length, written out, stands for this length.
pub prefixlen-dotted : (n : ℕ) → n ≤ 32 → prefixlen (dotted (mask n)) ≡ some n
prefixlen-dotted n h = length_agrees 32 n agree_on_all_lengths h

trailing_zeroes-le : (bits n : ℕ) → trailing_zeroes bits n ≤ bits
unfolding trailing_zeroes
trailing_zeroes-le zero n = omega arith
trailing_zeroes-le (suc bits) n = ground (arith, trailing_zeroes-le bits (n / 2))

at_most-le : (bound : ℕ) (o : Option ℕ) {n : ℕ} → at_most bound o ≡ some n → n ≤ bound
unfolding at_most
at_most-le bound none h = absurd (cc)
at_most-le bound (some m) h = ground arith

prefix_from_ip_int-le : (ip : ℕ) {n : ℕ} → prefix_from_ip_int ip ≡ some n → n ≤ 32
unfolding prefix_from_ip_int
prefix_from_ip_int-le ip h = ground arith

prefix_of_mask-le : (o : Option ℕ) {n : ℕ} → prefix_of_mask o ≡ some n → n ≤ 32
unfolding prefix_of_mask
prefix_of_mask-le none h = absurd (cc)
prefix_of_mask-le (some ip) {n} h =
    ground
      (arith, prefix_from_ip_int-le ip {n = n}, prefix_from_ip_int-le (2 ^ 32 - 1 - ip) {n = n})

-- A netmask never stands for a length above 32.
pub prefixlen-le : (netmask : Text) {n : ℕ} → prefixlen netmask ≡ some n → n ≤ 32
unfolding prefixlen make_netmask
prefixlen-le netmask {n} h = ground (
  arith,
  at_most-le 32 (decimal netmask) {n = n},
  prefix_of_mask-le (ip_int_from_string netmask) {n = n},
)
