-- ===== src/Monitor/Nics.antt =====
-- `get_nic_status` of frontend/services/system_monitor.py, from what psutil and the clock say.
pub mod Rates
pub mod Kept
use mo_ip_checker.Base.{
  ℕ, String, Bool, true, false, ◌*◌, ◌+◌, Option, none, some, List, [], ◌∷◌, Text, codes, ◌==◌,
  text_eq, if◌then◌else◌,
}
use mo_ip_checker.Base.Dict
use mo_ip_checker.Base.Dict.{Dict}
use mo_ip_checker.Base.Int.{ℤ, pos, negsuc, sub_ℕ, pos_part, neg_part}
use mo_ip_checker.Base.Exec.{
  Exec, Result, ok, raised, type_error, lift, modify, pure, bind_from, ◌>>=◌, ◌>>◌,
}
use mo_ip_checker.Json.{Json, null, bool, num, real, str, arr, obj, truthy}
use mo_ip_checker.Numbers.{Numbers}

-- What one call reads: `isup` of the cards that psutil knows, the bytes that each has received and
-- sent together, and the clock.
pub record Reading (Number : Type 0) : Type 0 where
  pub is_up : Text → Option Bool
  pub total_bytes : Text → Option ℕ
  pub now : Number

-- `_prev_counters`
abbrev pub Previous : Type 0 → Type 0
Previous Number = Dict Text (Number × ℕ)

pub record NicStatus (Number : Type 0) : Type 0 where
  pub name : Json
  pub link_up : Bool
  pub rate_mbps : Number

-- `name` as the key of a dict: lists and dicts are not hashable, and only texts are keys there.
unfoldable pub key_of : Json → Result (Option Text)
key_of (str s) = ok (some s)
key_of (arr xs) = raised type_error
key_of (obj fs) = raised type_error
key_of _ = ok none

-- `bool(if_stats.isup) if if_stats else False`
unfoldable pub is_link_up : Option Bool → Bool
is_link_up none = false
is_link_up (some up) = up

times_8 : ℤ → ℤ
times_8 (pos n) = pos (n * 8)
times_8 (negsuc n) = negsuc (n * 8 + 7)

module _ (N : Numbers) where
  open N use {Number, of_ℤ, of_real, sub, div, lt, round}

  abbrev pub zero_rate : Number
  zero_rate = of_real (codes "0.0")

  -- The rate between two readings of one card, if time has passed.
  unfoldable pub rate_between : Number → ℕ → Number → ℕ → Number
  unfolding times_8
  rate_between prev_ts prev_bytes now total =
      let elapsed = sub now prev_ts in
      if lt (of_ℤ (pos 0)) elapsed
      then div (div (of_ℤ (times_8 (sub_ℕ total prev_bytes))) elapsed) (of_ℤ (pos 1000000))
      else zero_rate

  unfoldable pub rate_since : Option (Number × ℕ) → Number → ℕ → Number
  rate_since none now total = zero_rate
  rate_since (some (prev_ts, prev_bytes)) now total = rate_between prev_ts prev_bytes now total

  -- `round(max(rate, 0.0), 2)`
  unfoldable pub reported : Number → Number
  reported rate = round (if lt rate zero_rate then zero_rate else rate)

  -- The rate of a card, and the counters that the next call compares with.
  unfoldable pub measure : Reading Number → Text → Previous Number → Number × Previous Number
  measure r name previous = elim (r.total_bytes name) [
    | none ↦ (zero_rate, previous)
    | some total ↦
        (rate_since (Dict.get name previous) r.now total, Dict.put name (r.now, total) previous)
  ]

  unfoldable pub status_of :
      Reading Number → Json → Option Text → Exec (Previous Number) (NicStatus Number)
  status_of r name none previous =
      (ok (record { name = name; link_up = false; rate_mbps = reported zero_rate }), previous)
  status_of r name (some key) previous =
      let (rate, after) = measure r key previous in
      (
        ok (record { name = name; link_up = is_link_up (r.is_up key); rate_mbps = reported rate }),
        after,
      )

  -- One round of the loop
  unfoldable pub nic_status : Reading Number → Json → Exec (Previous Number) (NicStatus Number)
  nic_status r name = do key ← lift (key_of name); status_of r name key

  -- A name that is empty is passed over.
  unfoldable pub get_nic_status :
      Reading Number → List Json → Exec (Previous Number) (List (NicStatus Number))
  get_nic_status r [] = pure []
  get_nic_status r (name ∷ names) =
      let rest = get_nic_status r names in
      if truthy name
      then (nic_status r name >>= λ status. rest >>= λ statuses. pure (status ∷ statuses))
      else rest
