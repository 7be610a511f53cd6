-- ===== src/LogReader/Streak.antt =====
-- The lock judgement of `_tick_second` over a run.
use mo_ip_checker.Base.{
  suc, ◌+◌, ◌≡◌, refl, ap, true, false, List, [], ◌∷◌, Text, arith, if◌then◌else◌, Bool-cases, inl,
  inr, All,
}
use mo_ip_checker.Base.Int.{ℤ, pos, int_eq, abs, leb_ℤ}
use mo_ip_checker.Json.{Json}
use mo_ip_checker.Numbers.{Numbers, IsExact, number}
use mo_ip_checker.Pattern.Engine.{Unicode}
use mo_ip_checker.LogReader.State.{Reader, Cfg, set_restarting, reload_from}
use mo_ip_checker.LogReader.Line.{take_sample, take_gm_id, parse_line}
use mo_ip_checker.LogReader.Line.Cases.{parse_line_cases}
use mo_ip_checker.LogReader.Tick.{
  Now, aggregate, aggregate_samples, judge_lock, check_offset, check_freq, tick_second, tick_minute,
}
use mo_ip_checker.LogReader.Verdicts.{
  Limits, cfg_of, default_limits, limits_of, has_limits, is_whole, is_second, is_reload, good,
  Verdict, streak, is_locked, leb_ℤ-streak, verdict, verdicts,
}
use mo_ip_checker.LogReader.Run.{
  started, Input, line, second, minute, reload, restarting, Service, tail_line, step, run,
}

module _ (N : Numbers) (exact : IsExact N) (l : Limits) where
  open N use {Number}

  -- What matters of a state for the judgement.
  record SameLock (r t : Reader Number) : Type 0 where
    count : t.lock_stable_count ≡ r.lock_stable_count
    status : t.lock_status ≡ r.lock_status
    cfg : t.cfg ≡ r.cfg

  record Judged (r t : Reader Number) : Type 0 where
    count : t.lock_stable_count ≡ (if good l r then suc r.lock_stable_count else 0)
    status : t.lock_status ≡ leb_ℤ l.lock_stable_sec (pos t.lock_stable_count)
    cfg : t.cfg ≡ cfg_of l

  judge_lock-Judged :
      (now : Text) (r : Reader Number) → r.cfg ≡ cfg_of l → Judged r (judge_lock N now r).1
  unfolding judge_lock number
  judge_lock-Judged now r e = ground (
    arith,
    ap (λ (c : Cfg). c.lock_threshold_ns) e,
    ap (λ (c : Cfg). c.lock_stable_sec) e,
    exact.le-of_ℤ (abs r.offset_current_ns) l.lock_threshold_ns,
    exact.le-of_ℤ l.lock_stable_sec (pos (r.lock_stable_count + 1)),
    exact.le-of_ℤ l.lock_stable_sec (pos 0),
  )

  check_offset-SameLock : (now : Text) (r : Reader Number) → SameLock r (check_offset N now r).1
  unfolding check_offset
  check_offset-SameLock now r = ground arith

  check_freq-SameLock :
      (mono : Number) (now : Text) (r : Reader Number) → SameLock r (check_freq N mono now r).1
  unfolding check_freq
  check_freq-SameLock mono now r = ground arith

  aggregate_samples-SameLock :
      (samples : List ℤ) (r : Reader Number) → SameLock r (aggregate_samples samples r)
  unfolding aggregate_samples
  aggregate_samples-SameLock samples r = ground arith

  good-aggregate_samples :
      (samples : List ℤ) (r : Reader Number) → good l (aggregate_samples samples r) ≡ good l r
  unfolding aggregate_samples
  good-aggregate_samples [] r = refl
  good-aggregate_samples (x ∷ xs) r = refl

  tick_second-Judged :
      (now : Now Number) (r : Reader Number) → r.cfg ≡ cfg_of l → Judged r (tick_second N now r).1
  unfolding tick_second
  tick_second-Judged now r e =
      let a = aggregate r in
      let s₁ = (judge_lock N now.lost_at a).1 in
      let s₂ = (check_offset N now.breached_at s₁).1 in
      ground (
        arith,
        good-aggregate_samples r.second_samples r,
        aggregate_samples-SameLock r.second_samples r,
        judge_lock-Judged now.lost_at a,
        check_offset-SameLock now.breached_at s₁,
        check_freq-SameLock now.mono now.freq_at s₂,
      )

  parse_line-SameLock :
      (u : Unicode) (mono : Number) (now text : Text) (r : Reader Number)
      → SameLock r (parse_line u mono now text r).1
  unfolding take_sample take_gm_id
  parse_line-SameLock u mono now text r =
      parse_line_cases u mono now text r (λ (_, t). SameLock r t) (λ caps _. ground arith)
        (λ caps _ _. ground arith) (λ _. ground arith)

  step-SameLock :
      (u : Unicode) (i : Input Number) (s : Service Number)
      → is_second i ≡ false
      → is_reload i ≡ false
      → SameLock s.reader (step u N i s).reader
  unfolding step tail_line tick_minute set_restarting
  step-SameLock u (line mono now text) s h k = elim (Bool-cases s.tailing) [
    | inl on ↦ rw on (parse_line-SameLock u mono now text s.reader)
    | inr off ↦ rw off (ground arith)
  ]
  step-SameLock u (second now) s h k = absurd (ground arith)
  step-SameLock u (minute now) s h k = ground arith
  step-SameLock u (reload ptp) s h k = absurd (ground arith)
  step-SameLock u (restarting flag) s h k = ground arith

module _ {Number : Type 0} where
  reload_from-limits :
      (ptp : Json) (r : Reader Number)
      → has_limits ptp ≡ true
      → ((reload_from ptp r).1.cfg ≡ cfg_of (limits_of ptp))
        × ((reload_from ptp r).1.lock_stable_count ≡ r.lock_stable_count)
        × ((reload_from ptp r).1.lock_status ≡ r.lock_status)
  unfolding reload_from
  reload_from-limits ptp r h = ground arith

  record Locked (l : Limits) (vs : List Verdict) (r : Reader Number) : Type 0 where
    count : r.lock_stable_count ≡ streak vs
    status : r.lock_status ≡ is_locked vs
    cfg : r.cfg ≡ cfg_of l

module _ (u : Unicode) (N : Numbers) (exact : IsExact N) where
  open N use {Number}

  second-Locked :
      (l : Limits) (now : Now Number) (vs : List Verdict) (r : Reader Number)
      → Locked l vs r
      → Locked l (verdict u N l r ∷ vs) (tick_second N now r).1
  unfolding streak
  second-Locked l now vs r h = ground (
    arith,
    tick_second-Judged N exact l now r,
    leb_ℤ-streak l.lock_stable_sec (verdict u N l r ∷ vs),
  )

  reload-Locked :
      (l : Limits) (ptp : Json) (vs : List Verdict) (r : Reader Number)
      → has_limits ptp ≡ true
      → Locked l vs r
      → Locked (limits_of ptp) vs (reload_from ptp r).1
  reload-Locked l ptp vs r whole h = ground (arith, reload_from-limits ptp r whole)

  other-Locked :
      (l : Limits) (i : Input Number) (s : Service Number) (vs : List Verdict)
      → is_second i ≡ false
      → is_reload i ≡ false
      → Locked l vs s.reader
      → Locked l vs (step u N i s).reader
  other-Locked l i s vs p q h = ground (arith, step-SameLock N exact l u i s p q)

  run_from-Locked :
      (l : Limits) (inputs : List (Input Number)) (s : Service Number) (vs : List Verdict)
      → All (λ i. is_whole i ≡ true) inputs
      → Locked l vs s.reader
      → (last : Limits) × Locked last (verdicts u N l inputs s vs) (run u N inputs s).reader
  unfolding verdicts run
  run_from-Locked l [] s vs _ h = (l, h)
  run_from-Locked l (second now ∷ inputs) s vs (n, ns) h =
      run_from-Locked l inputs (step u N (second now) s) (verdict u N l s.reader ∷ vs) ns
        (unfold step in second-Locked l now vs s.reader h)
  run_from-Locked l (reload ptp ∷ inputs) s vs (n, ns) h =
      run_from-Locked (limits_of ptp) inputs (step u N (reload ptp) s) vs ns
        (unfold step in reload-Locked l ptp vs s.reader n h)
  run_from-Locked l (i ∷ inputs) s vs (n, ns) h =
      run_from-Locked l inputs (step u N i s) vs ns (other-Locked l i s vs refl refl h)

  -- Suppose whole numbers are compared exactly and every reload finds four whole numbers. From the
  -- start on, whatever lines, ticks, reloads and restarts come, in whatever order, the lock status
  -- is that of the latest second tick: true exactly if as many of the latest second ticks as the
  -- `lock_stable_sec` in force at that tick asks for exist, and each of them found ptp4l in state 2
  -- with the last offset within the threshold in force at it; a length of zero or less is held by
  -- any history. It is false before the first tick. The counter is the length of the series of such
  -- ticks.
  pub run-lock_status :
      (now : Text) (inputs : List (Input Number))
      → All (λ i. is_whole i ≡ true) inputs
      → let vs = verdicts u N default_limits inputs (started now) [] in
        ((run u N inputs (started now)).lock_status ≡ is_locked vs)
        × ((run u N inputs (started now)).lock_stable_count ≡ streak vs)
  run-lock_status now inputs whole =
      let (_, h) =
        run_from-Locked default_limits inputs (started now) [] whole
          (record { count = unfold streak in refl; status = refl; cfg = refl }) in
      (h.status, h.count)
