-- ===== src/LogReader/Invariant.antt =====
-- The invariant of the reader's state, through `_parse_line`, the ticks and the reloads.
use mo_ip_checker.Base.{
  ◌≡◌, refl, Bool, List, [], ◌∷◌, Text, arith, leb, nat_eq, Bool-cases, inl, inr,
}
use mo_ip_checker.Base.Int.{ℤ, ◌≤ℤ◌, max, min}
use mo_ip_checker.Base.Int.Average.{average_bounds, max-IsGreatest, min-IsLeast}
use mo_ip_checker.Json.{Json}
use mo_ip_checker.Numbers.{Numbers}
use mo_ip_checker.Pattern.Engine.{Unicode}
use mo_ip_checker.LogReader.State.{Reader, initial, reload_from, set_restarting}
use mo_ip_checker.LogReader.Line.{derive_source_id, group_at, parse_line, take_sample, take_gm_id}
use mo_ip_checker.LogReader.Line.Cases.{parse_line_cases}
use mo_ip_checker.LogReader.Tick.{
  Now, average, aggregate, aggregate_samples, judge_lock, check_offset, check_freq, tick_second,
  tick_minute,
}
use mo_ip_checker.LogReader.Run.{
  Input, line, second, minute, reload, restarting, Service, started, step, run,
}

-- The source belongs to the grandmaster; the frequency flag is up exactly if the counter of late
-- second ticks is at three or more; the published average lies between the published extremes.
pub record IsConsistent {Number : Type 0} (r : Reader Number) : Type 0 where
  pub sourced : r.source_id ≡ derive_source_id r.gm_id
  pub hysteresis : r.freq_error_active ≡ leb 3 r.freq_error_miss_count
  pub above_min : r.offset_min_ns ≤ℤ r.offset_avg_ns
  pub below_max : r.offset_avg_ns ≤ℤ r.offset_max_ns

pub average_between :
    (x : ℤ) (xs : List ℤ) → (min x xs ≤ℤ average x xs) × (average x xs ≤ℤ max x xs)
average_between x xs =
    average_bounds x xs (min x xs) (max x xs) (min-IsLeast x xs).0 (max-IsGreatest x xs).0

module _ {Number : Type 0} where
  aggregate_samples-IsConsistent :
      (samples : List ℤ) {r : Reader Number}
      → IsConsistent r
      → IsConsistent (aggregate_samples samples r)
  unfolding aggregate_samples
  aggregate_samples-IsConsistent [] c = ground arith
  aggregate_samples-IsConsistent (x ∷ xs) c = record {
    sourced = c.sourced;
    hysteresis = c.hysteresis;
    above_min = (average_between x xs).0;
    below_max = (average_between x xs).1;
  }

  tick_minute-IsConsistent :
      (now : Text) {r : Reader Number} → IsConsistent r → IsConsistent (tick_minute now r)
  unfolding tick_minute
  tick_minute-IsConsistent now c = ground arith

  pub reload_from-IsConsistent :
      (ptp : Json) {r : Reader Number} → IsConsistent r → IsConsistent (reload_from ptp r).1
  unfolding reload_from
  reload_from-IsConsistent ptp c = ground arith

  set_restarting-IsConsistent :
      (flag : Bool) {r : Reader Number} → IsConsistent r → IsConsistent (set_restarting flag r)
  unfolding set_restarting
  set_restarting-IsConsistent flag c = ground arith

module _ {Number : Type 0} (u : Unicode) (mono : Number) (now : Text) where
  take_sample-IsConsistent :
      (groups : List Text) {r : Reader Number}
      → IsConsistent r
      → IsConsistent (take_sample u mono now groups r).1
  unfolding take_sample
  take_sample-IsConsistent groups c = ground arith

  take_gm_id-IsConsistent :
      (new_gm_id : Text) {r : Reader Number}
      → IsConsistent r
      → IsConsistent (take_gm_id u mono now new_gm_id r)
  unfolding take_gm_id
  take_gm_id-IsConsistent new_gm_id c = record {
    sourced = refl;
    hysteresis = c.hysteresis;
    above_min = c.above_min;
    below_max = c.below_max;
  }

  parse_line-IsConsistent :
      (text : Text) {r : Reader Number}
      → IsConsistent r
      → IsConsistent (parse_line u mono now text r).1
  parse_line-IsConsistent text {r} c =
      parse_line_cases u mono now text r (λ (_, t). IsConsistent t)
        (λ caps _. take_sample-IsConsistent caps.groups c)
        (λ caps _ _. take_gm_id-IsConsistent (group_at 0 caps.groups) c) (λ _. c)

module _ (N : Numbers) where
  open N use {Number}

  judge_lock-IsConsistent :
      (now : Text) {r : Reader Number} → IsConsistent r → IsConsistent (judge_lock N now r).1
  unfolding judge_lock
  judge_lock-IsConsistent now c = ground arith

  check_offset-IsConsistent :
      (now : Text) {r : Reader Number} → IsConsistent r → IsConsistent (check_offset N now r).1
  unfolding check_offset
  check_offset-IsConsistent now c = ground arith

  check_freq-IsConsistent :
      (mono : Number) (now : Text) {r : Reader Number}
      → IsConsistent r
      → IsConsistent (check_freq N mono now r).1
  unfolding check_freq nat_eq
  check_freq-IsConsistent mono now c = ground arith

  tick_second-IsConsistent :
      (now : Now Number) {r : Reader Number} → IsConsistent r → IsConsistent (tick_second N now r).1
  unfolding tick_second
  tick_second-IsConsistent now {r} c =
      let a = aggregate r in
      let s₁ = (judge_lock N now.lost_at a).1 in
      let s₂ = (check_offset N now.breached_at s₁).1 in
      let c₀ = aggregate_samples-IsConsistent r.second_samples c in
      let c₁ = judge_lock-IsConsistent now.lost_at c₀ in
      let c₂ = check_offset-IsConsistent now.breached_at c₁ in
      ground (arith, c₀, c₁, c₂, check_freq-IsConsistent now.mono now.freq_at c₂)

module _ (u : Unicode) (N : Numbers) where
  open N use {Number}

  pub step-IsConsistent :
      (i : Input Number) (s : Service Number)
      → IsConsistent s.reader
      → IsConsistent (step u N i s).reader
  unfolding step
  step-IsConsistent (line mono now text) s c = elim (Bool-cases s.tailing) [
    | inl on ↦ rw on (parse_line-IsConsistent u mono now text c)
    | inr off ↦ rw off c
  ]
  step-IsConsistent (second now) s c = tick_second-IsConsistent N now c
  step-IsConsistent (minute now) s c = tick_minute-IsConsistent now c
  step-IsConsistent (reload ptp) s c = reload_from-IsConsistent ptp c
  step-IsConsistent (restarting flag) s c = set_restarting-IsConsistent flag c

  pub initial-IsConsistent : (now : Text) → IsConsistent (initial {Number = Number} now)
  unfolding derive_source_id
  initial-IsConsistent now = record {
    sourced = refl;
    hysteresis = refl;
    above_min = omega arith;
    below_max = omega arith;
  }

  run_from-IsConsistent :
      (inputs : List (Input Number)) (s : Service Number)
      → IsConsistent s.reader
      → IsConsistent (run u N inputs s).reader
  unfolding run
  run_from-IsConsistent [] s c = c
  run_from-IsConsistent (i ∷ inputs) s c =
      run_from-IsConsistent inputs (step u N i s) (step-IsConsistent i s c)

  pub run-IsConsistent :
      (now : Text) (inputs : List (Input Number))
      → IsConsistent (run u N inputs (started now)).reader
  run-IsConsistent now inputs =
      run_from-IsConsistent inputs (started now) (initial-IsConsistent now)
