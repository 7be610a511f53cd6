-- ===== src/Monitor/Nics/Rates.antt =====
-- The rates that `get_nic_status` reports.
use mo_ip_checker.Base.{
  ◌≡◌, false, Option, none, some, List, [], ◌∷◌, Text, text_eq, if◌then◌else◌, Bool-cases, inl, inr,
  All,
}
use mo_ip_checker.Base.Exec.{Exec, Result, ok, raised, lift, pure, bind_from, ◌>>=◌}
use mo_ip_checker.Json.{Json, truthy}
use mo_ip_checker.Numbers.{Numbers}
use mo_ip_checker.Monitor.Nics.{
  Reading, Previous, NicStatus, key_of, zero_rate, reported, measure, status_of, nic_status,
  get_nic_status,
}

module _ (N : Numbers) where
  open N use {Number, lt, round}

  -- Floats: 0.0 is not below itself, and a number that is not below it is not rounded to one that is.
  pub record IsRounding : Type 0 where
    pub lt-irrefl : lt (zero_rate N) (zero_rate N) ≡ false
    pub round-not_below :
        (x : Number) → lt x (zero_rate N) ≡ false → lt (round x) (zero_rate N) ≡ false

  abbrev pub IsNotNegative : NicStatus Number → Type 0
  IsNotNegative s = lt s.rate_mbps (zero_rate N) ≡ false

  -- What an outcome reports.
  abbrev pub Reports : Result (List (NicStatus Number)) → Type 0
  Reports (raised e) = Unit
  Reports (ok statuses) = All IsNotNegative statuses

  module _ (laws : IsRounding) where
    clamped-not_below :
        (rate : Number)
        → lt (if lt rate (zero_rate N) then zero_rate N else rate) (zero_rate N) ≡ false
    clamped-not_below rate = elim (Bool-cases (lt rate (zero_rate N))) [
      | inl low ↦ rw low laws.lt-irrefl
      | inr high ↦ rw high high
    ]

    reported-not_below : (rate : Number) → lt (reported N rate) (zero_rate N) ≡ false
    unfolding reported
    reported-not_below rate = laws.round-not_below _ (clamped-not_below rate)

    abbrev One : Result (NicStatus Number) → Type 0
    One (raised e) = Unit
    One (ok status) = IsNotNegative status

    status_of-One :
        (r : Reading Number) (name : Json) (key : Option Text) (previous : Previous Number)
        → One (status_of N r name key previous).0
    unfolding status_of
    status_of-One r name none previous = reported-not_below (zero_rate N)
    status_of-One r name (some key) previous = reported-not_below (measure N r key previous).0

    key-One :
        (r : Reading Number) (name : Json) (key : Result (Option Text)) (previous : Previous Number)
        → One ((lift key >>= λ k. status_of N r name k) previous).0
    key-One r name (ok key) previous = status_of-One r name key previous
    key-One r name (raised e) previous = tt

    cons-Reports :
        (status : NicStatus Number) (o : Result (List (NicStatus Number)) × Previous Number)
        → IsNotNegative status
        → Reports o.0
        → Reports (bind_from o (λ statuses. pure (status ∷ statuses))).0
    cons-Reports status (ok statuses, after) h hs = (h, hs)
    cons-Reports status (raised e, after) h hs = tt

    first-Reports :
        (o : Result (NicStatus Number) × Previous Number)
        (rest : Exec (Previous Number) (List (NicStatus Number)))
        → One o.0
        → ((previous : Previous Number) → Reports (rest previous).0)
        → Reports (bind_from o (λ status. rest >>= λ statuses. pure (status ∷ statuses))).0
    first-Reports (ok status, after) rest h hs = cons-Reports status (rest after) h (hs after)
    first-Reports (raised e, after) rest h hs = tt

    -- If 0.0 is not below itself and no number that is not below it is rounded to one that is, no
    -- reported rate is below 0.0, whatever the counters of the cards were and are, also when they
    -- were reset or time did not pass.
    pub get_nic_status-Reports :
        (r : Reading Number) (names : List Json) (previous : Previous Number)
        → Reports (get_nic_status N r names previous).0
    unfolding get_nic_status nic_status
    get_nic_status-Reports r [] previous = tt
    get_nic_status-Reports r (name ∷ names) previous = elim (Bool-cases (truthy name)) [
      | inl given ↦ rw given (
          first-Reports (nic_status N r name previous) (get_nic_status N r names)
            (key-One r name (key_of name) previous) (λ after. get_nic_status-Reports r names after))
      | inr empty ↦ rw empty (get_nic_status-Reports r names previous)
    ]
