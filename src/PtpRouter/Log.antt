-- ===== src/PtpRouter/Log.antt =====
-- `get_ptp_log` of frontend/routers/ptp.py, over the database of the writer thread.
use mathlib.Core.List.{reverse}
use mo_ip_checker.Base.{
  ℕ, Bool, true, Option, none, some, if◌then◌else◌, ◌≡◌, sym, List, [], ◌∷◌, map, codes, take, inl,
  inr,
}
use mo_ip_checker.Base.Int.{ℤ, pos, negsuc}
use mo_ip_checker.Base.Exec.{Result, ok, raised, Result-cases, ok-injective}
use mo_ip_checker.Json.{Json, num, str, arr, object, of_list}
use mo_ip_checker.DbWriter.Queue.{Measurement, Event, Queue}
use mo_ip_checker.DbWriter.Thread.{Database, World, writer_loop}
use mo_ip_checker.DbWriter.Rows.{Rows, rows_of, IsLawful, after_jobs, successful, writer_loop_lem}

-- A query of a table: whether `order_by` takes the ids in falling order, and the argument of `limit`, if
-- it is called.
pub record Select : Type 0 where
  pub descending : Bool
  pub limit : Option ℤ

-- What the session answers to the queries of both tables: rows with their ids.
pub record Queries (D : Database) : Type 0 where
  pub measurements : Select → D.Store → Result (List (ℕ × Measurement))
  pub events : Select → D.Store → Result (List (ℕ × Event))

-- SQL's `LIMIT`: a negative limit is none.
abbrev pub limited : {A : Type 0} → ℤ → List A → List A
limited (pos n) rows = take n rows
limited (negsuc n) rows = rows

-- What SQL makes of a query, from the rows in the order of their ids.
abbrev pub selected : {A : Type 0} → Select → List A → List A
selected q rows =
    let ordered = if q.descending then reverse rows else rows in
    elim q.limit [ none ↦ ordered | some n ↦ limited n ordered ]

-- `order_by(id.desc()).limit(limit)`
abbrev pub newest : ℤ → Select
newest limit = record { descending = true; limit = some limit }

measurement_json : ℕ × Measurement → Json
measurement_json (id, m) = object (
    ("id", num (pos id))
    ∷ ("recorded_at", str m.recorded_at)
    ∷ ("lock_status", num (pos m.lock_status))
    ∷ ("gm_id", str m.gm_id)
    ∷ ("source_id", str m.source_id)
    ∷ ("offset_avg_ns", num m.offset_avg_ns)
    ∷ ("offset_max_ns", num m.offset_max_ns)
    ∷ ("offset_min_ns", num m.offset_min_ns)
    ∷ [])

event_json : ℕ × Event → Json
event_json (id, e) = object (
    ("id", num (pos id))
    ∷ ("recorded_at", str e.recorded_at)
    ∷ ("event_type", str (codes e.event_type))
    ∷ ("detail", str e.detail)
    ∷ [])

unfoldable pub log_json : List (ℕ × Measurement) → List (ℕ × Event) → Json
unfolding measurement_json event_json
log_json measurements events = object (
    ("measurement_logs", arr (of_list (map measurement_json measurements)))
    ∷ ("event_logs", arr (of_list (map event_json events)))
    ∷ [])

module _ (D : Database) (Q : Queries D) where
  with_measurements : ℤ → D.Store → Result (List (ℕ × Measurement)) → Result Json
  with_measurements limit s (raised e) = raised e
  with_measurements limit s (ok measurements) = elim (Q.events (newest limit) s) [
    | raised e ↦ raised e
    | ok events ↦ ok (log_json measurements events)
  ]

  unfoldable pub get_ptp_log : ℤ → D.Store → Result Json
  unfolding with_measurements
  get_ptp_log limit s = with_measurements limit s (Q.measurements (newest limit) s)

  -- What the database does with any query of either table that does not fail.
  pub record IsOrdered : Type 0 where
    pub measurements :
        (q : Select) (s : D.Store) {rows : List (ℕ × Measurement)}
        → Q.measurements q s ≡ ok rows
        → map (λ (id, m). m) rows ≡ selected q (D.measurements s)
    pub events :
        (q : Select) (s : D.Store) {rows : List (ℕ × Event)}
        → Q.events q s ≡ ok rows
        → map (λ (id, e). e) rows ≡ selected q (D.events s)

  -- The reply shows these rows, whatever their ids are.
  pub record Shows (limit : ℤ) (rows : Rows) (reply : Json) : Type 0 where
    pub measurements : List (ℕ × Measurement)
    pub events : List (ℕ × Event)
    pub reply_log : reply ≡ log_json measurements events
    pub newest_measurements :
        map (λ (id, m). m) measurements ≡ limited limit (reverse rows.measurements)
    pub newest_events : map (λ (id, e). e) events ≡ limited limit (reverse rows.events)

  module _ (laws : IsLawful D) (order : IsOrdered) where
    get_ptp_log-Shows :
        (limit : ℤ) (s : D.Store) {reply : Json}
        → get_ptp_log limit s ≡ ok reply
        → Shows limit (rows_of D s) reply
    unfolding get_ptp_log
    get_ptp_log-Shows limit s h = elim (Result-cases (Q.measurements (newest limit) s)) [
      | inr (e, bad) ↦ absurd (cc (rw (bad, get_ptp_log, with_measurements) at h))
      | inl (measurements, good) ↦ elim (Result-cases (Q.events (newest limit) s)) [
        | inr (e, bad) ↦ absurd (cc (rw (good, bad, get_ptp_log, with_measurements) at h))
        | inl (events, fine) ↦ record {
          measurements = measurements;
          events = events;
          reply_log = sym (ok-injective (rw (good, fine, get_ptp_log, with_measurements) at h));
          newest_measurements = order.measurements (newest limit) s good;
          newest_events = order.events (newest limit) s fine;
        }
      ]
    ]

    -- Over a lawful database that answers a query of either table, if it does not fail, with the
    -- rows in the asked order of their ids and cut at the asked limit: a log that is read after the
    -- writer has gone through its queue shows the rows that the successful jobs make of the old
    -- rows, of each table the newest first and as many as the limit of the request says, all for a
    -- negative limit.
    pub get_ptp_log-writer_loop :
        (limit : ℤ) (q : Queue) (w : World D) {reply : Json}
        → get_ptp_log limit (writer_loop D q w).1.store ≡ ok reply
        → Shows limit (after_jobs (successful D q w) (rows_of D w.store)) reply
    get_ptp_log-writer_loop limit q w {reply} h =
        rw (writer_loop_lem D laws q w).0 at (get_ptp_log-Shows limit (writer_loop D q w).1.store h)
