-- ===== src/LogReader/Verdicts.antt =====
-- What `_tick_second` of frontend/services/ptp_log_reader.py should say of the lock: the verdicts of
-- the ticks of a run, by the limits that are in force at each.
use mo_ip_checker.Base.{
  ℕ, zero, suc, ◌≡◌, Bool, true, false, ◌&&◌, List, [], ◌∷◌, arith, leb, ◌==◌, if◌then◌else◌,
}
use mo_ip_checker.Base.Int.{ℤ, pos, negsuc, int_eq, abs, leb_ℤ}
use mo_ip_checker.Base.Exec.{Result, ok}
use mo_ip_checker.Json.{Json, num, subscript}
use mo_ip_checker.Numbers.{Numbers}
use mo_ip_checker.Pattern.Engine.{Unicode}
use mo_ip_checker.LogReader.State.{Reader, Cfg}
use mo_ip_checker.LogReader.Run.{Input, second, reload, Service, step}

-- A configuration whose values are integers, as the settings form sends them.
pub record Limits : Type 0 where
  pub lock_threshold_ns : ℤ
  pub lock_stable_sec : ℤ
  pub offset_alert_threshold_ns : ℤ
  pub sync_interval : ℤ

abbrev pub cfg_of : Limits → Cfg
cfg_of l = record {
  lock_threshold_ns = num l.lock_threshold_ns;
  lock_stable_sec = num l.lock_stable_sec;
  offset_alert_threshold_ns = num l.offset_alert_threshold_ns;
  sync_interval = num l.sync_interval;
}

-- The limits that the module begins with.
abbrev pub default_limits : Limits
default_limits = record {
  lock_threshold_ns = pos 500;
  lock_stable_sec = pos 3;
  offset_alert_threshold_ns = pos 500;
  sync_interval = negsuc 6;
}

abbrev pub is_integer : Result Json → Bool
is_integer (ok (num n)) = true
is_integer _ = false

abbrev pub integer_of : Result Json → ℤ
integer_of (ok (num n)) = n
integer_of _ = pos 0

-- The limits of a section `ptp`
abbrev pub limits_of : Json → Limits
limits_of ptp = record {
  lock_threshold_ns = integer_of (subscript ptp "lock_threshold_ns");
  lock_stable_sec = integer_of (subscript ptp "lock_stable_sec");
  offset_alert_threshold_ns = integer_of (subscript ptp "offset_alert_threshold_ns");
  sync_interval = integer_of (subscript ptp "sync_interval");
}

abbrev pub has_limits : Json → Bool
has_limits ptp =
    is_integer (subscript ptp "lock_threshold_ns")
    && is_integer (subscript ptp "lock_stable_sec")
    && is_integer (subscript ptp "offset_alert_threshold_ns")
    && is_integer (subscript ptp "sync_interval")

-- A reload, if the input is one, finds four integers.
abbrev pub is_whole : {Number : Type 0} → Input Number → Bool
is_whole (reload ptp) = has_limits ptp
is_whole _ = true

abbrev pub is_second : {Number : Type 0} → Input Number → Bool
is_second (second _) = true
is_second _ = false

abbrev pub is_reload : {Number : Type 0} → Input Number → Bool
is_reload (reload _) = true
is_reload _ = false

-- The limits in force after an input
abbrev pub limits_after : {Number : Type 0} → Input Number → Limits → Limits
limits_after (reload ptp) l = limits_of ptp
limits_after _ l = l

-- A tick finds the clock in lock: ptp4l says `s2`, and the last offset is within the threshold.
abbrev pub good : {Number : Type 0} → Limits → Reader Number → Bool
good l r = r.sync_state == pos 2 && leb_ℤ (abs r.offset_current_ns) l.lock_threshold_ns

-- What one tick found, and how many such ticks its limits ask for.
pub record Verdict : Type 0 where
  pub is_good : Bool
  pub lock_stable_sec : ℤ

-- The good ticks at the head of a history, newest first.
unfoldable pub streak : List Verdict → ℕ
streak [] = 0
streak (v ∷ vs) = let rest = streak vs in if v.is_good then suc rest else 0

-- The newest `k` ticks exist and were all good.
unfoldable pub held : ℕ → List Verdict → Bool
held zero vs = true
held (suc k) [] = false
held (suc k) (v ∷ vs) = v.is_good && held k vs

-- A length of zero or less is held by anything.
abbrev pub held_for : ℤ → List Verdict → Bool
held_for (pos k) vs = held k vs
held_for (negsuc k) vs = true

-- The judgement of the newest tick, by its own limits
abbrev pub is_locked : List Verdict → Bool
is_locked [] = false
is_locked (v ∷ vs) = held_for v.lock_stable_sec (v ∷ vs)

pub leb-streak : (k : ℕ) (vs : List Verdict) → leb k (streak vs) ≡ held k vs
unfolding streak held
leb-streak zero vs = ground arith
leb-streak (suc k) [] = ground arith
leb-streak (suc k) (v ∷ vs) = ground (arith, leb-streak k vs)

pub leb_ℤ-streak : (k : ℤ) (vs : List Verdict) → leb_ℤ k (pos (streak vs)) ≡ held_for k vs
leb_ℤ-streak (pos k) vs = ground (arith, leb-streak k vs)
leb_ℤ-streak (negsuc k) vs = ground arith

module _ (u : Unicode) (N : Numbers) where
  open N use {Number}

  abbrev pub verdict : Limits → Reader Number → Verdict
  verdict l r = record { is_good = good l r; lock_stable_sec = l.lock_stable_sec }

  -- The verdicts of the second ticks of a run, newest first, in front of earlier ones.
  unfoldable pub verdicts :
      Limits → List (Input Number) → Service Number → List Verdict → List Verdict
  verdicts l [] s vs = vs
  verdicts l (i ∷ inputs) s vs =
      verdicts (limits_after i l) inputs (step u N i s)
        (if is_second i then verdict l s.reader ∷ vs else vs)
