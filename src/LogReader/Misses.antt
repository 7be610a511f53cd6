-- ===== src/LogReader/Misses.antt =====
-- The check of the sync interval in `_tick_second` over a run.
use mo_ip_checker.Base.{
  ℕ, zero, suc, ◌≡◌, refl, ◌∙◌, ap, Bool, true, false, ◌&&◌, none, some, List, [], ◌∷◌, Text, arith,
  leb, if◌then◌else◌, Bool-cases, inl, inr, All,
}
use mo_ip_checker.Base.Int.{ℤ, pos, int_eq}
use mo_ip_checker.Base.Exec.{ok}
use mo_ip_checker.Json.{Json}
use mo_ip_checker.Numbers.{Numbers, number}
use mo_ip_checker.Pattern.Engine.{Unicode}
use mo_ip_checker.LogReader.State.{Reader, Cfg, set_restarting, reload_from}
use mo_ip_checker.LogReader.Line.{take_sample, take_gm_id, parse_line}
use mo_ip_checker.LogReader.Line.Cases.{parse_line_cases}
use mo_ip_checker.LogReader.Tick.{
  Now, aggregate, aggregate_samples, judge_lock, check_offset, check_freq, tick_second, tick_minute,
}
use mo_ip_checker.LogReader.Verdicts.{
  Limits, cfg_of, default_limits, limits_of, limits_after, has_limits, is_whole,
}
use mo_ip_checker.LogReader.Run.{
  started, Input, line, second, minute, reload, restarting, Service, tail_line, step, run,
}
use mo_ip_checker.LogReader.Invariant.{run-IsConsistent}

-- The late ticks at the head of a history, newest first.
unfoldable pub late_streak : List Bool → ℕ
late_streak [] = 0
late_streak (late ∷ ticks) = let rest = late_streak ticks in if late then suc rest else 0

-- The newest `k` ticks exist and were all late.
unfoldable pub all_late : ℕ → List Bool → Bool
all_late zero ticks = true
all_late (suc k) [] = false
all_late (suc k) (late ∷ ticks) = late && all_late k ticks

leb-late_streak : (k : ℕ) (ticks : List Bool) → leb k (late_streak ticks) ≡ all_late k ticks
unfolding late_streak all_late
leb-late_streak zero ticks = ground arith
leb-late_streak (suc k) [] = ground arith
leb-late_streak (suc k) (late ∷ ticks) = ground (arith, leb-late_streak k ticks)

module _ (N : Numbers) where
  open N use {Number, of_ℤ, add, sub, pow2, lt}

  -- The history after a second tick: whether the latest sync lies further back than one interval and
  -- three seconds. A tick before the first sync does not count.
  abbrev pub judged : Limits → Now Number → Reader Number → List Bool → List Bool
  judged l now r ticks = elim r.last_sync_seen_at [
    | none ↦ ticks
    | some seen ↦ lt (add (pow2 (of_ℤ l.sync_interval)) (of_ℤ (pos 3))) (sub now.mono seen) ∷ ticks
  ]

  abbrev pub judged_at : Limits → Input Number → Reader Number → List Bool → List Bool
  judged_at l (second now) r ticks = judged l now r ticks
  judged_at l _ r ticks = ticks

  record Same (r t : Reader Number) : Type 0 where
    count : t.freq_error_miss_count ≡ r.freq_error_miss_count
    seen : t.last_sync_seen_at ≡ r.last_sync_seen_at
    cfg : t.cfg ≡ r.cfg

  record Counted (l : Limits) (ticks : List Bool) (r : Reader Number) : Type 0 where
    count : r.freq_error_miss_count ≡ late_streak ticks
    cfg : r.cfg ≡ cfg_of l

  judge_lock-Same : (now : Text) (r : Reader Number) → Same r (judge_lock N now r).1
  unfolding judge_lock
  judge_lock-Same now r = ground arith

  check_offset-Same : (now : Text) (r : Reader Number) → Same r (check_offset N now r).1
  unfolding check_offset
  check_offset-Same now r = ground arith

  judge_lock-returns :
      (l : Limits) (now : Text) (r : Reader Number)
      → r.cfg ≡ cfg_of l
      → (judge_lock N now r).0 ≡ ok tt
  unfolding judge_lock number
  judge_lock-returns l now r e =
      ground (arith, ap (λ (c : Cfg). c.lock_threshold_ns) e, ap (λ (c : Cfg). c.lock_stable_sec) e)

  check_offset-returns :
      (l : Limits) (now : Text) (r : Reader Number)
      → r.cfg ≡ cfg_of l
      → (check_offset N now r).0 ≡ ok tt
  unfolding check_offset number
  check_offset-returns l now r e = ground (arith, ap (λ (c : Cfg). c.offset_alert_threshold_ns) e)

  aggregate_samples-Same :
      (samples : List ℤ) (r : Reader Number) → Same r (aggregate_samples samples r)
  unfolding aggregate_samples
  aggregate_samples-Same samples r = ground arith

  check_freq-Counted :
      (l : Limits) (now : Now Number) (ticks : List Bool) (r : Reader Number)
      → Counted l ticks r
      → Counted l (judged l now r ticks) (check_freq N now.mono now.freq_at r).1
  unfolding check_freq number late_streak
  check_freq-Counted l now ticks r h = ground (arith, ap (λ (c : Cfg). c.sync_interval) h.cfg)

  tick_second-Counted :
      (l : Limits) (now : Now Number) (ticks : List Bool) (r : Reader Number)
      → Counted l ticks r
      → Counted l (judged l now r ticks) (tick_second N now r).1
  unfolding tick_second
  tick_second-Counted l now ticks r h =
      let a = aggregate r in
      let s₁ = (judge_lock N now.lost_at a).1 in
      let s₂ = (check_offset N now.breached_at s₁).1 in
      let same₀ = aggregate_samples-Same r.second_samples r in
      let same₁ = judge_lock-Same now.lost_at a in
      let same₂ = check_offset-Same now.breached_at s₁ in
      let cfg₀ = same₀.cfg ∙ h.cfg in
      let cfg₁ = same₁.cfg ∙ cfg₀ in
      let counted : Counted l ticks s₂ = record {
        count = ground (arith, same₀, same₁, same₂, h);
        cfg = same₂.cfg ∙ cfg₁;
      } in
      ground (
        arith,
        same₀,
        same₁,
        same₂,
        judge_lock-returns l now.lost_at a cfg₀,
        check_offset-returns l now.breached_at s₁ cfg₁,
        check_freq-Counted l now ticks s₂ counted,
      )

  parse_line-Same :
      (u : Unicode) (l : Limits) (mono : Number) (now text : Text) (ticks : List Bool)
      (r : Reader Number)
      → Counted l ticks r
      → Counted l ticks (parse_line u mono now text r).1
  unfolding take_sample take_gm_id
  parse_line-Same u l mono now text ticks r h =
      parse_line_cases u mono now text r (λ (_, t). Counted l ticks t) (λ caps _. ground arith)
        (λ caps _ _. ground arith) (λ _. h)

  reload-Counted :
      (l : Limits) (ptp : Json) (ticks : List Bool) (r : Reader Number)
      → has_limits ptp ≡ true
      → Counted l ticks r
      → Counted (limits_of ptp) ticks (reload_from ptp r).1
  unfolding reload_from
  reload-Counted l ptp ticks r whole h = ground arith

  step-Counted :
      (u : Unicode) (l : Limits) (i : Input Number) (ticks : List Bool) (s : Service Number)
      → is_whole i ≡ true
      → Counted l ticks s.reader
      → Counted (limits_after i l) (judged_at l i s.reader ticks) (step u N i s).reader
  unfolding step tail_line tick_minute set_restarting
  step-Counted u l (line mono now text) ticks s whole h = elim (Bool-cases s.tailing) [
    | inl on ↦ rw on (parse_line-Same u l mono now text ticks s.reader h)
    | inr off ↦ rw off h
  ]
  step-Counted u l (second now) ticks s whole h = tick_second-Counted l now ticks s.reader h
  step-Counted u l (minute now) ticks s whole h = ground arith
  step-Counted u l (reload ptp) ticks s whole h = reload-Counted l ptp ticks s.reader whole h
  step-Counted u l (restarting flag) ticks s whole h = ground arith

module _ (u : Unicode) (N : Numbers) where
  open N use {Number}

  -- The second ticks of a run that come after a sync, newest first, in front of earlier ones: whether
  -- each is late.
  unfoldable pub late_ticks : Limits → List (Input Number) → Service Number → List Bool → List Bool
  late_ticks l [] s ticks = ticks
  late_ticks l (i ∷ inputs) s ticks =
      late_ticks (limits_after i l) inputs (step u N i s) (judged_at N l i s.reader ticks)

  run_from-Counted :
      (l : Limits) (inputs : List (Input Number)) (s : Service Number) (ticks : List Bool)
      → All (λ i. is_whole i ≡ true) inputs
      → Counted N l ticks s.reader
      → (run u N inputs s).freq_error_miss_count ≡ late_streak (late_ticks l inputs s ticks)
  unfolding late_ticks run
  run_from-Counted l [] s ticks _ h = h.count
  run_from-Counted l (i ∷ inputs) s ticks (whole, rest) h =
      run_from-Counted (limits_after i l) inputs (step u N i s) (judged_at N l i s.reader ticks)
        rest (step-Counted N u l i ticks s whole h)

  -- Suppose every reload finds four whole numbers. From the start on, whatever lines, ticks,
  -- reloads and restarts come, in whatever order: look at the second ticks that come after a first
  -- sync was seen, and call one late if the latest sync lies further back than the seconds of one
  -- sync interval, as it is in force at the tick, and three more. The counter of misses is the
  -- length of the series of late ticks at the end of them, and the frequency flag is up exactly if
  -- the latest three of them exist and are late.
  pub run-freq_error :
      (now : Text) (inputs : List (Input Number))
      → All (λ i. is_whole i ≡ true) inputs
      → let ticks = late_ticks default_limits inputs (started now) [] in
        ((run u N inputs (started now)).freq_error_miss_count ≡ late_streak ticks)
        × ((run u N inputs (started now)).freq_error_active ≡ all_late 3 ticks)
  run-freq_error now inputs whole =
      let ticks = late_ticks default_limits inputs (started now) [] in
      let count =
        run_from-Counted default_limits inputs (started now) [] whole
          (record { count = unfold late_streak in refl; cfg = refl }) in
      (
        count,
        (run-IsConsistent u N now inputs).hysteresis ∙ ap (leb 3) count ∙ leb-late_streak 3 ticks,
      )
