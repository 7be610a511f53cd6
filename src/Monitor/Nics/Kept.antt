-- ===== src/Monitor/Nics/Kept.antt =====
-- The counters that `get_nic_status` keeps from call to call.
use mathlib.Core.Path.{subst}
use mo_ip_checker.Base.{
  ℕ, ◌≡◌, refl, ap, ◌∙◌, Bool, true, false, ◌||◌, Option, none, some, List, [], ◌∷◌, Text, ◌==◌,
  text_eq, ==-eq, Bool-cases, inl, inr, arith, Option-cases,
}
use mo_ip_checker.Base.Dict
use mo_ip_checker.Base.Dict.{Dict, get-put}
use mo_ip_checker.Base.Exec.{Exec, Result, ok, raised, pure, bind_from, ◌>>=◌}
use mo_ip_checker.Json.{Json, str, arr, obj, truthy}
use mo_ip_checker.Numbers.{Numbers}
use mo_ip_checker.Monitor.Nics.{
  Reading, Previous, NicStatus, key_of, measure, status_of, nic_status, get_nic_status,
}

-- Whether one of the names is this text, which is not empty.
abbrev pub is_name : Text → Json → Bool
is_name key (str (c ∷ s)) = key == c ∷ s
is_name key _ = false

abbrev pub is_listed : Text → List Json → Bool
is_listed key [] = false
is_listed key (name ∷ names) = is_name key name || is_listed key names

is_name-empty : (key : Text) (name : Json) → truthy name ≡ false → is_name key name ≡ false
unfolding truthy
is_name-empty key (str (c ∷ s)) h = absurd (cc)
is_name-empty key (str []) h = refl
is_name-empty key _ h = refl

module _ (N : Numbers) where
  open N use {Number}

  -- The counters of a card that a call leaves for the next one.
  abbrev pub kept : Reading Number → Bool → Option ℕ → Option (Number × ℕ) → Option (Number × ℕ)
  kept r false total old = old
  kept r true none old = old
  kept r true (some total) old = some (r.now, total)

  kept-kept :
      (r : Reading Number) (a b : Bool) (total : Option ℕ) (old : Option (Number × ℕ))
      → kept r b total (kept r a total old) ≡ kept r (a || b) total old
  kept-kept r false b total old = refl
  kept-kept r true false total old = refl
  kept-kept r true true none old = refl
  kept-kept r true true (some total) old = refl

  get-measure :
      (r : Reading Number) (key name : Text) (previous : Previous Number)
      → Dict.get key (measure N r name previous).1
        ≡ kept r (key == name) (r.total_bytes key) (Dict.get key previous)
  unfolding measure
  get-measure r key name previous = elim (Bool-cases (key == name)) [
    | inl same ↦ elim (Option-cases (r.total_bytes name)) [
      | inl absent ↦ ground (arith, ap r.total_bytes (==-eq key name same), absent)
      | inr (total, there) ↦ ground (
        arith,
        ap r.total_bytes (==-eq key name same),
        there,
        get-put key name (r.now, total) previous,
      )
    ]
    | inr differ ↦ elim (Option-cases (r.total_bytes name)) [
      | inl absent ↦ rw (differ, absent, measure) refl
      | inr (total, there) ↦ ground (arith, there, get-put key name (r.now, total) previous)
    ]
  ]

  Keeps :
      Reading Number
      → Text
      → Bool
      → Previous Number
      → {A : Type 0} → Result A × Previous Number
      → Type 0
  Keeps r key b previous (raised e, after) = Unit
  Keeps r key b previous (ok a, after) =
      Dict.get key after ≡ kept r b (r.total_bytes key) (Dict.get key previous)

  nic_status-Keeps :
      (r : Reading Number) (key : Text) (name : Json) (previous : Previous Number)
      → truthy name ≡ true
      → Keeps r key (is_name key name) previous (nic_status N r name previous)
  unfolding nic_status key_of status_of Keeps truthy
  nic_status-Keeps r key (str []) previous h = absurd (cc)
  nic_status-Keeps r key (str (c ∷ s)) previous h = get-measure r key (c ∷ s) previous
  nic_status-Keeps r key (arr xs) previous h = tt
  nic_status-Keeps r key (obj fs) previous h = tt
  nic_status-Keeps r key _ previous h = refl

  first-Keeps :
      (r : Reading Number) (key : Text) (a b : Bool) (previous : Previous Number)
      (o : Result (NicStatus Number) × Previous Number)
      (rest : Exec (Previous Number) (List (NicStatus Number)))
      → Keeps r key a previous o
      → ((before : Previous Number) → Keeps r key b before (rest before))
      → Keeps r key
          (a || b)
          previous
          (bind_from o (λ status. rest >>= λ statuses. pure (status ∷ statuses)))
  unfolding Keeps
  first-Keeps r key a b previous (raised e, t) rest h hs = tt
  first-Keeps r key a b previous (ok status, t) rest h hs = second-Keeps (rest t) (hs t)
    where
      second-Keeps :
          (o : Result (List (NicStatus Number)) × Previous Number)
          → Keeps r key b t o
          → Keeps r key (a || b) previous (bind_from o (λ statuses. pure (status ∷ statuses)))
      second-Keeps (raised e, after) k = tt
      second-Keeps (ok statuses, after) k =
          k
          ∙ ap (kept r b (r.total_bytes key)) h
          ∙ kept-kept r a b (r.total_bytes key) (Dict.get key previous)

  all-Keeps :
      (r : Reading Number) (key : Text) (names : List Json) (previous : Previous Number)
      → Keeps r key (is_listed key names) previous (get_nic_status N r names previous)
  unfolding get_nic_status Keeps
  all-Keeps r key [] previous = refl
  all-Keeps r key (name ∷ names) previous = elim (Bool-cases (truthy name)) [
    | inl given ↦ rw given (
        first-Keeps r key (is_name key name) (is_listed key names) previous
          (nic_status N r name previous) (get_nic_status N r names)
          (nic_status-Keeps r key name previous given) (all-Keeps r key names))
    | inr empty ↦ rw (empty, is_name-empty key name empty) (all-Keeps r key names previous)
  ]

  -- After a call that returns, the kept counter of a card is the reading of this call if the card
  -- is among the given names that are not empty and has counters, and else the counter kept before,
  -- so a card given twice counts once.
  pub get_nic_status-kept :
      (r : Reading Number) (names : List Json) (previous : Previous Number)
      {statuses : List (NicStatus Number)} {after : Previous Number}
      → get_nic_status N r names previous ≡ (ok statuses, after)
      → (key : Text)
      → Dict.get key after
        ≡ kept r (is_listed key names) (r.total_bytes key) (Dict.get key previous)
  unfolding Keeps
  get_nic_status-kept r names previous h key =
      subst (λ o. Keeps r key (is_listed key names) previous o) h (all-Keeps r key names previous)
