-- ===== src/LogReader/Conservation.antt =====
-- `_parse_line`, `_tick_second` and `_tick_minute` over a run: the samples from the log to the minutes.
use mathlib.Core.List.{append_assoc, append-nil}
use mo_ip_checker.Base.{
  ◌≡◌, refl, sym, ◌∙◌, ap, Bool, true, false, none, some, List, [], ◌∷◌, ◌++◌, map, Text, arith,
  inl, inr, if◌then◌else◌,
}
use mo_ip_checker.Base.Int.{ℤ}
use mo_ip_checker.Base.Exec.{Result, ok, raised, Result-cases}
use mo_ip_checker.Json.{Json}
use mo_ip_checker.Numbers.{Numbers}
use mo_ip_checker.Pattern.Engine.{Unicode, search_from}
use mo_ip_checker.LogReader.State.{Reader, reload_from, set_restarting}
use mo_ip_checker.LogReader.Line.{pattern_a, group_at, int_of, take_sample, take_gm_id, parse_line}
use mo_ip_checker.LogReader.Line.Cases.{parse_line_cases}
use mo_ip_checker.LogReader.Tick.{
  Now, aggregate, aggregate_samples, judge_lock, check_offset, tick_second, tick_minute,
}
use mo_ip_checker.LogReader.Run.{
  Input, line, second, minute, reload, restarting, Service, started, tail_step, tail_line, step,
  run,
}
use mo_ip_checker.LogReader.Minutes.{
  measurements_of, measurement_of, samples_of, minutes, run-measurements,
}
use mo_ip_checker.LogReader.Edges.{judge_lock-kept, check_offset-kept, check_freq-kept}

module _ (u : Unicode) where
  sample_of : List Text → Result (List ℤ)
  sample_of groups = elim (int_of u (group_at 0 groups)) [
    | raised e ↦ raised e
    | ok z ↦ elim (int_of u (group_at 1 groups)) [ raised e ↦ raised e | ok state ↦ ok (z ∷ []) ]
  ]

  -- The sample of a line, if it has one, or the exception that reading it raises.
  unfoldable pub line_sample : Text → Result (List ℤ)
  unfolding sample_of
  line_sample text = elim (search_from u pattern_a text) [
    | none ↦ ok []
    | some caps ↦ sample_of caps.groups
  ]

  module _ {Number : Type 0} where
    -- The samples of the lines of a run, up to the first line that raises.
    unfoldable pub logged : List (Input Number) → List ℤ
    logged [] = []
    logged (line mono now text ∷ inputs) =
        let more = logged inputs in elim (line_sample text) [ raised e ↦ [] | ok zs ↦ zs ++ more ]
    logged (second now ∷ inputs) = logged inputs
    logged (minute now ∷ inputs) = logged inputs
    logged (reload ptp ∷ inputs) = logged inputs
    logged (restarting flag ∷ inputs) = logged inputs

-- The samples that wait for their second and for their minute.
abbrev pub waiting : {Number : Type 0} → Reader Number → List ℤ
waiting r = r.minute_samples ++ r.second_samples

module _ (u : Unicode) (N : Numbers) where
  open N use {Number}

  abbrev measured : List (Input Number) → Service Number → List ℤ
  measured inputs s = samples_of (minutes u N inputs s)

  aggregate-waiting :
      (samples : List ℤ) (r : Reader Number)
      → r.second_samples ≡ samples
      → waiting (aggregate_samples samples r) ≡ waiting r
  unfolding aggregate_samples
  aggregate-waiting [] r e = ground arith
  aggregate-waiting (x ∷ xs) r e = ground (arith, append-nil (r.minute_samples ++ x ∷ xs))

  tick_second-waiting :
      (now : Now Number) (r : Reader Number) → waiting (tick_second N now r).1 ≡ waiting r
  unfolding tick_second
  tick_second-waiting now r =
      let a = aggregate r in
      let s₁ = (judge_lock N now.lost_at a).1 in
      let s₂ = (check_offset N now.breached_at s₁).1 in
      ground (
        arith,
        aggregate-waiting r.second_samples r refl,
        judge_lock-kept N now.lost_at a,
        check_offset-kept N now.breached_at s₁,
        check_freq-kept N now.mono now.freq_at s₂,
      )

  tick_minute-waiting :
      (now : Text) (r : Reader Number) → r.minute_samples ++ waiting (tick_minute now r) ≡ waiting r
  unfolding tick_minute
  tick_minute-waiting now r = refl

  reload_from-waiting : (ptp : Json) (r : Reader Number) → waiting (reload_from ptp r).1 ≡ waiting r
  unfolding reload_from
  reload_from-waiting ptp r = ground arith

  -- A line adds its sample, or raises and changes nothing.
  Adds : Text → Reader Number → Result (Unit {0}) → Reader Number → Type 0
  Adds text r (ok _) t =
      (zs : List ℤ) × (line_sample u text ≡ ok zs) × (waiting t ≡ waiting r ++ zs)
  Adds text r (raised e) t = (line_sample u text ≡ raised e) × (waiting t ≡ waiting r)

  abbrev AddsOutcome : Text → Reader Number → Result (Unit {0}) × Reader Number → Type 0
  AddsOutcome text r (result, t) = Adds text r result t

  take_sample-Adds :
      (mono : Number) (now text : Text) (groups : List Text) (r : Reader Number)
      → line_sample u text ≡ sample_of u groups
      → AddsOutcome text r (take_sample u mono now groups r)
  unfolding take_sample Adds sample_of
  take_sample-Adds mono now text groups r e = elim (Result-cases (int_of u (group_at 0 groups))) [
    | inr (x, bad) ↦ rw (bad, take_sample) (e ∙ rw (bad, sample_of), refl)
    | inl (z, good) ↦ elim (Result-cases (int_of u (group_at 1 groups))) [
      | inr (x, bad) ↦ rw (good, bad, take_sample) (e ∙ rw (good, bad, sample_of), refl)
      | inl (q, fine) ↦
          rw (good, fine, take_sample)
            (
              z ∷ [],
              e ∙ rw (good, fine, sample_of),
              sym (append_assoc r.minute_samples r.second_samples (z ∷ [])),
            )
    ]
  ]

  parse_line-Adds :
      (mono : Number) (now text : Text) (r : Reader Number)
      → AddsOutcome text r (parse_line u mono now text r)
  unfolding take_gm_id line_sample Adds
  parse_line-Adds mono now text r =
      parse_line_cases u mono now text r (AddsOutcome text r)
        (λ caps hit. take_sample-Adds mono now text caps.groups r (rw (hit, line_sample)))
        (λ caps miss _. ([], rw (miss, line_sample), sym (append-nil (waiting r))))
        (λ miss. ([], rw (miss, line_sample), sym (append-nil (waiting r))))

  Conserves : List (Input Number) → Service Number → Type 0
  Conserves inputs s =
      measured inputs s ++ waiting (run u N inputs s).reader
      ≡ waiting s.reader ++ (if s.tailing then logged u inputs else [])

  -- One line, by the outcome of reading it.
  outcome-Conserves :
      (mono : Number) (now text : Text) (inputs : List (Input Number)) (r : Reader Number)
      (result : Result (Unit {0})) (t : Reader Number)
      → Adds text r result t
      → Conserves inputs (tail_step (result, t))
      → measured inputs (tail_step (result, t))
          ++ waiting (run u N inputs (tail_step (result, t))).reader
        ≡ waiting r ++ logged u (line mono now text ∷ inputs)
  unfolding Conserves Adds logged
  outcome-Conserves mono now text inputs r (ok _) t (zs, read, kept) ih =
      ih ∙ rw (kept, read, logged) (append_assoc (waiting r) zs (logged u inputs))
  outcome-Conserves mono now text inputs r (raised x) t (read, kept) ih =
      ih ∙ rw (kept, read, logged)

  line-Conserves :
      (mono : Number) (now text : Text) (inputs : List (Input Number)) (r : Reader Number)
      (on : Bool)
      → ((s : Service Number) → Conserves inputs s)
      → Conserves (line mono now text ∷ inputs) (record { reader = r; tailing = on })
  unfolding Conserves minutes samples_of run step tail_line
  line-Conserves mono now text inputs r true ih =
      let (result, t) = parse_line u mono now text r in
      outcome-Conserves mono now text inputs r result t (parse_line-Adds mono now text r)
        (ih (tail_step (result, t)))
  line-Conserves mono now text inputs r false ih = ih (record { reader = r; tailing = false })

  run_from-Conserves : (inputs : List (Input Number)) (s : Service Number) → Conserves inputs s
  unfolding Conserves minutes samples_of run step logged tick_minute set_restarting
  run_from-Conserves [] s = ground (arith, append-nil (waiting s.reader))
  run_from-Conserves (line mono now text ∷ inputs) s =
      line-Conserves mono now text inputs s.reader s.tailing (run_from-Conserves inputs)
  run_from-Conserves (second now ∷ inputs) s =
      run_from-Conserves inputs (step u N (second now) s)
      ∙ ap (λ w. w ++ (if s.tailing then logged u inputs else []))
          (tick_second-waiting now s.reader)
  run_from-Conserves (minute now ∷ inputs) s =
      let rest : List ℤ = if s.tailing then logged u inputs else [] in
      let t = step u N (minute now) s in
      append_assoc s.minute_samples (measured inputs t) (waiting (run u N inputs t).reader)
      ∙ ap (λ w. s.minute_samples ++ w) (run_from-Conserves inputs t)
      ∙ sym (append_assoc s.minute_samples s.second_samples rest)
  run_from-Conserves (reload ptp ∷ inputs) s =
      run_from-Conserves inputs (step u N (reload ptp) s)
      ∙ ap (λ w. w ++ (if s.tailing then logged u inputs else []))
          (reload_from-waiting ptp s.reader)
  run_from-Conserves (restarting flag ∷ inputs) s =
      run_from-Conserves inputs (step u N (restarting flag) s)

  -- From the start, whatever lines, ticks, reloads and restarts come, in whatever order: the
  -- samples that wait at the minute ticks for their minute, and then those that still wait for
  -- their minute and their second, are the samples of the lines in the order of the log, up to the
  -- first line that raises. The measurements on the queue are those of the minute ticks, in order:
  -- each has the time of its tick, the lock status, the grandmaster and the source of that time,
  -- and the average, the maximum and the minimum of the samples of its minute, or three times the
  -- current offset if it has none.
  pub run-samples :
      (now : Text) (inputs : List (Input Number))
      → let s = run u N inputs (started now) in
        let minutes = minutes u N inputs (started now) in
        (samples_of minutes ++ (s.minute_samples ++ s.second_samples) ≡ logged u inputs)
        × (measurements_of s.queue ≡ map measurement_of minutes)
  unfolding Conserves measurements_of
  run-samples now inputs =
      (run_from-Conserves inputs (started now), run-measurements u N inputs (started now))
