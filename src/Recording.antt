-- ===== src/Recording.antt =====
-- The log reader (frontend/services/ptp_log_reader.py) together with the database writer
-- (frontend/services/db_writer.py): what the reader puts on the queue, and the rows that it becomes.
use mathlib.Core.Path.{subst}
use mo_ip_checker.Base.{
  ℕ, ◌≤◌, String, ◌≡◌, refl, sym, Bool, true, false, ◌||◌, Option, none, some, List, [], ◌∷◌, Text,
  ◌==◌, string_eq, arith, if◌then◌else◌, All, All-append, inl, inr, Bool-cases,
}
use mo_ip_checker.Base.Dict.{Dict}
use mo_ip_checker.Base.Exec.{Result-cases}
use mo_ip_checker.Base.Int.{ℤ, ◌≤ℤ◌}
use mo_ip_checker.Json.{Json}
use mo_ip_checker.Numbers.{Numbers}
use mo_ip_checker.Pattern.Engine.{Unicode}
use mo_ip_checker.DbWriter.Queue.{
  Measurement, Event, Job, measurement, event, clear, Queue, enqueue_measurement, enqueue_event,
}
use mo_ip_checker.DbWriter.Thread.{Database, World, writer_loop, process, transaction}
use mo_ip_checker.DbWriter.Rows.{Rows, rows_of, IsLawful, after_job, transaction-rows}
use mo_ip_checker.LogReader.State.{Reader, reload_from, set_restarting}
use mo_ip_checker.LogReader.Line.{derive_source_id, parse_line, take_sample, take_gm_id}
use mo_ip_checker.LogReader.Line.Cases.{parse_line_cases}
use mo_ip_checker.LogReader.Tick.{Now, tick_second, tick_minute, minute_job}
use mo_ip_checker.LogReader.Edges.{event_if, lost_event, breach_event, tick_second-queue}
use mo_ip_checker.LogReader.Invariant.{
  IsConsistent, average_between, step-IsConsistent, initial-IsConsistent,
}
use mo_ip_checker.LogReader.Run.{
  Input, line, second, minute, reload, restarting, Service, started, step, run,
}

-- What holds between the columns of a measurement.
abbrev pub IsPlausible : Measurement → Type 0
IsPlausible m =
    (m.lock_status ≤ 1)
    × (m.source_id ≡ derive_source_id m.gm_id)
    × (m.offset_min_ns ≤ℤ m.offset_avg_ns)
    × (m.offset_avg_ns ≤ℤ m.offset_max_ns)

-- The types of the events that a reader writes.
unfoldable pub is_known : String → Bool
unfolding string_eq
is_known kind =
    kind == "GM_ID_CHANGED"
    || kind == "PTP_LOCK_LOST"
    || kind == "OFFSET_THRESHOLD"
    || kind == "PACKET_FREQ_ERROR"

abbrev IsKnown : Event → Type 0
IsKnown e = is_known e.event_type ≡ true

-- A job of the reader or of a request to clear the log
abbrev pub IsRecord : Option Job → Type 0
IsRecord (some (measurement m)) = IsPlausible m
IsRecord (some (event e)) = IsKnown e
IsRecord (some (clear id)) = Unit
IsRecord none = ⊥

event_if-IsRecord :
    (b : Bool) (now : Text) (kind : String) (detail : Dict String Json)
    → is_known kind ≡ true
    → All IsRecord (event_if b now kind detail)
event_if-IsRecord true now kind detail h = (h, tt)
event_if-IsRecord false now kind detail h = tt

status-le : (b : Bool) → (if b then 1 else 0) ≤ 1
status-le true = omega arith
status-le false = omega arith

change-IsRecord :
    (b : Bool) (now : Text) (detail : Dict String Json) (q : Queue)
    → All IsRecord q
    → All IsRecord (if b then enqueue_event now "GM_ID_CHANGED" detail q else q)
unfolding enqueue_event is_known string_eq
change-IsRecord true now detail q h = All-append IsRecord q _ h (refl, tt)
change-IsRecord false now detail q h = h

module _ {Number : Type 0} where
  -- A consistent reader with such a queue
  abbrev pub Records : Reader Number → Type 0
  Records r = IsConsistent r × All IsRecord r.queue

  minute_job-IsRecord :
      (now : Text) (samples : List ℤ) (r : Reader Number)
      → Records r
      → All IsRecord (minute_job samples now r)
  unfolding minute_job enqueue_measurement
  minute_job-IsRecord now [] r (c, q) =
      All-append IsRecord r.queue _ q
        ((status-le r.lock_status, c.sourced, omega arith, omega arith), tt)
  minute_job-IsRecord now (x ∷ xs) r (c, q) =
      All-append IsRecord r.queue _ q (
        (status-le r.lock_status, c.sourced, (average_between x xs).0, (average_between x xs).1),
        tt,
      )

  pub take_sample-queue :
      (u : Unicode) (mono : Number) (now : Text) (groups : List Text) (r : Reader Number)
      → (take_sample u mono now groups r).1.queue ≡ r.queue
  unfolding take_sample
  take_sample-queue u mono now groups r = ground arith

  parse_line-IsRecord :
      (u : Unicode) (mono : Number) (now text : Text) (r : Reader Number)
      → All IsRecord r.queue
      → All IsRecord (parse_line u mono now text r).1.queue
  unfolding take_gm_id
  parse_line-IsRecord u mono now text r q =
      parse_line_cases u mono now text r (λ (_, t). All IsRecord t.queue)
        (λ caps _. rw (take_sample-queue u mono now caps.groups r) q)
        (λ caps _ _. change-IsRecord _ _ _ _ q) (λ _. q)

module _ (u : Unicode) (N : Numbers) where
  open N use {Number}

  tick_second-IsRecord :
      (now : Now Number) (r : Reader Number)
      → All IsRecord r.queue
      → All IsRecord (tick_second N now r).1.queue
  unfolding is_known string_eq
  tick_second-IsRecord now r q =
      let t = (tick_second N now r).1 in
      rw (tick_second-queue N now r) (
        All-append IsRecord r.queue _ q (
          All-append IsRecord (lost_event now r t) _ (event_if-IsRecord _ _ _ _ refl) (
            All-append IsRecord (breach_event now r t) _ (event_if-IsRecord _ _ _ _ refl)
              (event_if-IsRecord _ _ _ _ refl))))

  pub step-IsRecord :
      (i : Input Number) (s : Service Number)
      → Records s.reader
      → All IsRecord (step u N i s).reader.queue
  unfolding step tick_minute reload_from set_restarting
  step-IsRecord (line mono now text) s (c, q) = elim (Bool-cases s.tailing) [
    | inl on ↦ rw on (parse_line-IsRecord u mono now text s.reader q)
    | inr off ↦ rw off q
  ]
  step-IsRecord (second now) s (c, q) = tick_second-IsRecord now s.reader q
  step-IsRecord (minute now) s h = minute_job-IsRecord now s.reader.minute_samples s.reader h
  step-IsRecord (reload ptp) s (c, q) = ground arith
  step-IsRecord (restarting flag) s (c, q) = q

  run-Records :
      (inputs : List (Input Number)) (s : Service Number)
      → Records s.reader
      → Records (run u N inputs s).reader
  unfolding run
  run-Records [] s h = h
  run-Records (i ∷ inputs) s (c, q) =
      run-Records inputs (step u N i s) (step-IsConsistent u N i s c, step-IsRecord i s (c, q))

-- A queue with clear jobs, at any places, among the jobs of another.
pub data WithClears : Queue → Queue → Type 0 where
  none_left : WithClears [] []
  kept : {job : Option Job} {p q : Queue} → WithClears p q → WithClears (job ∷ p) (job ∷ q)
  cleared : {id : ℕ} {p q : Queue} → WithClears p q → WithClears p (some (clear id) ∷ q)

abbrev pub IsRecording : Rows → Type 0
IsRecording rows = All IsPlausible rows.measurements × All IsKnown rows.events

pub after_job-IsRecording :
    (job : Job) (rows : Rows)
    → IsRecord (some job)
    → IsRecording rows
    → IsRecording (after_job job rows)
unfolding after_job
after_job-IsRecording (measurement m) rows h (ms, es) =
    (All-append IsPlausible rows.measurements _ ms (h, tt), es)
after_job-IsRecording (event e) rows h (ms, es) = (ms, All-append IsKnown rows.events _ es (h, tt))
after_job-IsRecording (clear id) rows h k = (tt, tt)

module _ (D : Database) (laws : IsLawful D) where
  pub process-IsRecording :
      (job : Job) (w : World D)
      → ((rows : Rows) → IsRecording rows → IsRecording (after_job job rows))
      → IsRecording (rows_of D w.store)
      → IsRecording (rows_of D (process D job w).store)
  unfolding process
  process-IsRecording job w step h = elim (Result-cases (transaction D job w.store)) [
    | inl (t, fine) ↦ rw fine (
        subst IsRecording (sym (transaction-rows D laws job w.store fine))
          (step (rows_of D w.store) h))
    | inr (e, bad) ↦ rw bad h
  ]

  writer_loop-IsRecording :
      {p q : Queue} (w : World D)
      → WithClears p q
      → All IsRecord p
      → IsRecording (rows_of D w.store)
      → IsRecording (rows_of D (writer_loop D q w).1.store)
  unfolding writer_loop
  writer_loop-IsRecording w none_left h k = k
  writer_loop-IsRecording w (kept {job = none} c) (h, hs) k = absurd h
  writer_loop-IsRecording w (kept {job = some job} c) (h, hs) k =
      writer_loop-IsRecording (process D job w) c hs
        (process-IsRecording job w (λ rows. after_job-IsRecording job rows h) k)
  writer_loop-IsRecording w (cleared {id = id} c) hs k =
      writer_loop-IsRecording (process D (clear id) w) c hs
        (process-IsRecording (clear id) w (λ rows. after_job-IsRecording (clear id) rows tt) k)

  -- Over a lawful database, whatever lines, ticks, reloads and restarts the log reader goes through
  -- from its start, and wherever clear jobs stand among its jobs: if it held before, then after the
  -- writer has gone through the queue every stored measurement has a lock status of at most 1, the
  -- source id that belongs to its grandmaster id, and an average from its minimum to its maximum,
  -- and every stored event has one of the types `GM_ID_CHANGED`, `PTP_LOCK_LOST`,
  -- `OFFSET_THRESHOLD` and `PACKET_FREQ_ERROR`.
  pub run-IsRecording :
      (u : Unicode) (N : Numbers) (now : Text) (inputs : List (Input N.Number)) {q : Queue}
      (w : World D)
      → WithClears (run u N inputs (started now)).reader.queue q
      → IsRecording (rows_of D w.store)
      → IsRecording (rows_of D (writer_loop D q w).1.store)
  run-IsRecording u N now inputs w c h =
      writer_loop-IsRecording w c
        (run-Records u N inputs (started now) (initial-IsConsistent u N now, tt)).1 h
