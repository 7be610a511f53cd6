-- ===== src/LogReader/Minutes.antt =====
-- `_tick_minute` over a run: the measurements that it puts on the writer's queue.
use mathlib.Core.List.{append_assoc, append-nil}
use mo_ip_checker.Base.{
  ◌≡◌, refl, sym, ◌∙◌, ap, Bool, true, false, none, some, List, [], ◌∷◌, ◌++◌, map, Text, String,
  arith, if◌then◌else◌,
}
use mo_ip_checker.Base.Int.{ℤ, max, min}
use mo_ip_checker.Base.Dict.{Dict}
use mo_ip_checker.Json.{Json}
use mo_ip_checker.Numbers.{Numbers}
use mo_ip_checker.Pattern.Engine.{Unicode}
use mo_ip_checker.DbWriter.Queue.{
  Measurement, measurement, event, clear, Queue, enqueue_event, enqueue_measurement,
}
use mo_ip_checker.LogReader.State.{Reader, reload_from, set_restarting}
use mo_ip_checker.LogReader.Line.{take_gm_id, parse_line}
use mo_ip_checker.LogReader.Line.Cases.{parse_line_cases}
use mo_ip_checker.LogReader.Tick.{Now, average, tick_second, tick_minute, minute_job}
use mo_ip_checker.LogReader.Run.{
  Input, line, second, minute, reload, restarting, Service, tail_line, step, run,
}
use mo_ip_checker.LogReader.Edges.{
  tick_second-queue, lost_event, breach_event, freq_event, event_if,
}
use mo_ip_checker.Recording.{take_sample-queue}

-- A figure of the samples of a minute; the current offset if it has none.
abbrev pub figure : (ℤ → List ℤ → ℤ) → List ℤ → ℤ → ℤ
figure f [] current = current
figure f (x ∷ xs) current = f x xs

-- The measurements on a queue
unfoldable pub measurements_of : Queue → List Measurement
measurements_of [] = []
measurements_of (some (measurement m) ∷ q) = m ∷ measurements_of q
measurements_of (some (event e) ∷ q) = measurements_of q
measurements_of (some (clear id) ∷ q) = measurements_of q
measurements_of (none ∷ q) = measurements_of q

measurements_of-append :
    (q q' : Queue) → measurements_of (q ++ q') ≡ measurements_of q ++ measurements_of q'
unfolding measurements_of
measurements_of-append [] q' = refl
measurements_of-append (some (measurement m) ∷ q) q' = ap (λ l. m ∷ l) (measurements_of-append q q')
measurements_of-append (some (event e) ∷ q) q' = measurements_of-append q q'
measurements_of-append (some (clear id) ∷ q) q' = measurements_of-append q q'
measurements_of-append (none ∷ q) q' = measurements_of-append q q'

event_if-quiet :
    (b : Bool) (now : Text) (kind : String) (detail : Dict String Json)
    → measurements_of (event_if b now kind detail) ≡ []
unfolding measurements_of
event_if-quiet true now kind detail = refl
event_if-quiet false now kind detail = refl

-- A queue behind which events were put has the measurements that it had.
quiet-append :
    (q more : Queue) → measurements_of more ≡ [] → measurements_of (q ++ more) ≡ measurements_of q
quiet-append q more e =
    measurements_of-append q more
    ∙ ap (λ l. measurements_of q ++ l) e
    ∙ append-nil (measurements_of q)

change-quiet :
    (b : Bool) (now : Text) (detail : Dict String Json) (q : Queue)
    → measurements_of (if b then enqueue_event now "GM_ID_CHANGED" detail q else q)
      ≡ measurements_of q
unfolding enqueue_event measurements_of
change-quiet true now detail q = quiet-append q _ refl
change-quiet false now detail q = refl

module _ {Number : Type 0} where
  -- What the minute tick at this time writes of this state.
  abbrev pub measurement_of : Text × Reader Number → Measurement
  measurement_of (now, r) = record {
    recorded_at = now;
    lock_status = if r.lock_status then 1 else 0;
    gm_id = r.gm_id;
    source_id = r.source_id;
    offset_avg_ns = figure average r.minute_samples r.offset_current_ns;
    offset_max_ns = figure max r.minute_samples r.offset_current_ns;
    offset_min_ns = figure min r.minute_samples r.offset_current_ns;
  }

  -- The samples of some minutes, one after the other.
  unfoldable pub samples_of : List (Text × Reader Number) → List ℤ
  samples_of [] = []
  samples_of ((now, r) ∷ rest) = r.minute_samples ++ samples_of rest

  minute_job-measurements :
      (samples : List ℤ) (now : Text) (r : Reader Number)
      → r.minute_samples ≡ samples
      → measurements_of (minute_job samples now r)
        ≡ measurements_of r.queue ++ measurement_of (now, r) ∷ []
  unfolding minute_job enqueue_measurement measurements_of
  minute_job-measurements [] now r e = rw e (measurements_of-append r.queue _)
  minute_job-measurements (x ∷ xs) now r e = rw e (measurements_of-append r.queue _)

  parse_line-quiet :
      (u : Unicode) (mono : Number) (now text : Text) (r : Reader Number)
      → measurements_of (parse_line u mono now text r).1.queue ≡ measurements_of r.queue
  unfolding take_gm_id
  parse_line-quiet u mono now text r =
      parse_line_cases u mono now text r
        (λ (_, t). measurements_of t.queue ≡ measurements_of r.queue)
        (λ caps _. ap measurements_of (take_sample-queue u mono now caps.groups r))
        (λ caps _ _. change-quiet _ _ _ r.queue) (λ _. refl)

  reload_from-quiet : (ptp : Json) (r : Reader Number) → (reload_from ptp r).1.queue ≡ r.queue
  unfolding reload_from
  reload_from-quiet ptp r = ground arith

module _ (u : Unicode) (N : Numbers) where
  open N use {Number}

  -- The times and the states at which the minute ticks of a run come.
  unfoldable pub minutes : List (Input Number) → Service Number → List (Text × Reader Number)
  minutes [] s = []
  minutes (minute now ∷ inputs) s = (now, s.reader) ∷ minutes inputs (step u N (minute now) s)
  minutes (i ∷ inputs) s = minutes inputs (step u N i s)

  tick_second-quiet :
      (now : Now Number) (r : Reader Number)
      → measurements_of (tick_second N now r).1.queue ≡ measurements_of r.queue
  tick_second-quiet now r =
      let t = (tick_second N now r).1 in
      let rest = breach_event now r t ++ freq_event now r t in
      ap measurements_of (tick_second-queue N now r)
      ∙ quiet-append r.queue (lost_event now r t ++ rest) (
          measurements_of-append (lost_event now r t) rest
          ∙ rw (event_if-quiet, measurements_of-append, event_if-quiet, event_if-quiet))

  line-quiet :
      (mono : Number) (now text : Text) (r : Reader Number) (on : Bool)
      → measurements_of
          (tail_line u N on mono now text (record { reader = r; tailing = on })).reader.queue
        ≡ measurements_of r.queue
  unfolding tail_line
  line-quiet mono now text r true = parse_line-quiet u mono now text r
  line-quiet mono now text r false = refl

  pub run-measurements :
      (inputs : List (Input Number)) (s : Service Number)
      → measurements_of (run u N inputs s).queue
        ≡ measurements_of s.queue ++ map measurement_of (minutes inputs s)
  unfolding run minutes step tick_minute set_restarting
  run-measurements [] s = sym (append-nil _)
  run-measurements (line mono now text ∷ inputs) s =
      run-measurements inputs (step u N (line mono now text) s)
      ∙ ap (λ l. l ++ map measurement_of (minutes inputs (step u N (line mono now text) s)))
          (line-quiet mono now text s.reader s.tailing)
  run-measurements (second now ∷ inputs) s =
      run-measurements inputs (step u N (second now) s)
      ∙ ap (λ l. l ++ map measurement_of (minutes inputs (step u N (second now) s)))
          (tick_second-quiet now s.reader)
  run-measurements (minute now ∷ inputs) s =
      let t = step u N (minute now) s in
      run-measurements inputs t
      ∙ ap (λ l. l ++ map measurement_of (minutes inputs t))
          (minute_job-measurements s.minute_samples now s.reader refl)
      ∙ append_assoc (measurements_of s.queue) (measurement_of (now, s.reader) ∷ [])
          (map measurement_of (minutes inputs t))
  run-measurements (reload ptp ∷ inputs) s =
      run-measurements inputs (step u N (reload ptp) s)
      ∙ ap (λ q. measurements_of q ++ map measurement_of (minutes inputs (step u N (reload ptp) s)))
          (reload_from-quiet ptp s.reader)
  run-measurements (restarting flag ∷ inputs) s =
      run-measurements inputs (step u N (restarting flag) s)
