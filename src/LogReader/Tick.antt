-- ===== src/LogReader/Tick.antt =====
-- `_tick_second`, in the order of its sections, `_tick_minute` and `get_status`.
use mo_ip_checker.Base.{
  ℕ, ◌+◌, String, Bool, true, false, not, ◌&&◌, Option, none, some, List, [], ◌∷◌, ◌++◌, Text, leb,
  ◌==◌, nat_eq, if◌then◌else◌, length, codes,
}
use mo_ip_checker.Base.Int.{ℤ, pos, int_eq, abs, sum, floor_div, max, min}
use mo_ip_checker.Base.Dict.{Dict}
use mo_ip_checker.Base.Exec.{Exec, ok, raised, type_error, ◌>>◌}
use mo_ip_checker.Json.{Json, bool, num, str}
use mo_ip_checker.Numbers.{Numbers, number}
use mo_ip_checker.DbWriter.Queue.{Queue, enqueue_event, enqueue_measurement}
use mo_ip_checker.LogReader.State.{Reader}

-- `sum(samples) // len(samples)` of the samples, by their head and tail
abbrev pub average : ℤ → List ℤ → ℤ
average x xs = floor_div (sum (x ∷ xs)) (length (x ∷ xs))

module _ {Number : Type 0} where
  unfoldable pub aggregate_samples : List ℤ → Reader Number → Reader Number
  aggregate_samples [] r = record r { second_samples = [] }
  aggregate_samples (x ∷ xs) r = record r {
    second_samples = [];
    offset_avg_ns = average x xs;
    offset_max_ns = max x xs;
    offset_min_ns = min x xs;
    minute_samples = r.minute_samples ++ x ∷ xs;
  }

  abbrev pub aggregate : Reader Number → Reader Number
  aggregate r = aggregate_samples r.second_samples r

-- What the clocks say at the calls that one tick makes of them.
pub record Now (Number : Type 0) : Type 0 where
  pub mono : Number
  pub lost_at : Text
  pub breached_at : Text
  pub freq_at : Text
  pub updated_at : Text

module _ (N : Numbers) where
  open N use {Number, of_ℤ, add, sub, pow2, lt, le}

  -- A comparison raises if the configured value is not a number.
  at_most : ℤ → Json → Option Bool
  at_most n value = elim (number N value) [ none ↦ none | some x ↦ some (le (of_ℤ n) x) ]

  above : ℤ → Json → Option Bool
  above n value = elim (number N value) [ none ↦ none | some x ↦ some (lt x (of_ℤ n)) ]

  at_least : ℕ → Json → Option Bool
  at_least n value = elim (number N value) [ none ↦ none | some x ↦ some (le x (of_ℤ (pos n))) ]

  count_lock : Bool → Reader Number → Reader Number
  count_lock offset_ok r = record r {
    lock_stable_count = if r.sync_state == pos 2 && offset_ok then r.lock_stable_count + 1 else 0;
  }

  set_lock_status : Text → Bool → Reader Number → Reader Number
  set_lock_status lost_at new_lock_status r = record r {
    lock_status = new_lock_status;
    queue =
        if r.lock_status && not new_lock_status
        then enqueue_event lost_at "PTP_LOCK_LOST"
            (("previous_offset_ns", num r.offset_current_ns) ∷ ("gm_id", str r.gm_id) ∷ []) r.queue
        else r.queue;
  }

  compare_lock : Text → Exec (Reader Number) (Unit {0})
  unfolding at_least set_lock_status
  compare_lock lost_at r = elim (at_least r.lock_stable_count r.cfg.lock_stable_sec) [
    | none ↦ (raised type_error, r)
    | some status ↦ (ok tt, set_lock_status lost_at status r)
  ]

  unfoldable pub judge_lock : Text → Exec (Reader Number) (Unit {0})
  unfolding at_most count_lock compare_lock
  judge_lock lost_at r = elim (at_most (abs r.offset_current_ns) r.cfg.lock_threshold_ns) [
    | none ↦ (raised type_error, r)
    | some offset_ok ↦ compare_lock lost_at (count_lock offset_ok r)
  ]

  set_breached : Text → Bool → Reader Number → Reader Number
  set_breached now breached_now r = record r {
    offset_threshold_breached = breached_now;
    queue =
        if breached_now && not r.offset_threshold_breached
        then enqueue_event now "OFFSET_THRESHOLD"
            (("offset_ns", num r.offset_current_ns)
              ∷ ("threshold_ns", r.cfg.offset_alert_threshold_ns)
              ∷ [])
            r.queue
        else r.queue;
  }

  unfoldable pub check_offset : Text → Exec (Reader Number) (Unit {0})
  unfolding above set_breached
  check_offset now r = elim (above (abs r.offset_current_ns) r.cfg.offset_alert_threshold_ns) [
    | none ↦ (raised type_error, r)
    | some breached_now ↦ (ok tt, set_breached now breached_now r)
  ]

  -- `elapsed > expected_interval + 3`
  is_late : Number → Number → Number → Bool
  is_late expected_interval mono seen = lt (add expected_interval (of_ℤ (pos 3))) (sub mono seen)

  count_misses : Number → Number → Reader Number → Reader Number
  unfolding is_late
  count_misses expected_interval mono r = elim r.last_sync_seen_at [
    | none ↦ r
    | some seen ↦ record r {
      freq_error_miss_count =
          if is_late expected_interval mono seen then r.freq_error_miss_count + 1 else 0;
    }
  ]

  flag_freq_error : Text → Reader Number → Reader Number
  flag_freq_error now r =
      if leb 3 r.freq_error_miss_count && not r.freq_error_active
      then record r {
        freq_error_active = true;
        queue =
            enqueue_event now "PACKET_FREQ_ERROR" (("packet_type", str (codes "sync")) ∷ [])
              r.queue;
      }
      else if r.freq_error_miss_count == 0
      then record r { freq_error_active = false }
      else r

  unfoldable pub check_freq : Number → Text → Exec (Reader Number) (Unit {0})
  unfolding count_misses flag_freq_error
  check_freq mono now r = elim (number N r.cfg.sync_interval) [
    | none ↦ (raised type_error, r)
    | some exponent ↦ (ok tt, flag_freq_error now (count_misses (pow2 exponent) mono r))
  ]

  unfoldable pub tick_second : Now Number → Exec (Reader Number) (Unit {0})
  tick_second now r =
      (do
        judge_lock now.lost_at
        check_offset now.breached_at
        check_freq now.mono now.freq_at
        λ s. (ok tt, record s { last_updated = now.updated_at }))
        (aggregate r)

module _ {Number : Type 0} where
  unfoldable pub minute_job : List ℤ → Text → Reader Number → Queue
  minute_job [] now r =
      enqueue_measurement now r.lock_status r.gm_id r.source_id r.offset_current_ns
        r.offset_current_ns r.offset_current_ns r.queue
  minute_job (x ∷ xs) now r =
      enqueue_measurement now r.lock_status r.gm_id r.source_id (average x xs) (max x xs) (min x xs)
        r.queue

  unfoldable pub tick_minute : Text → Reader Number → Reader Number
  unfolding minute_job
  tick_minute now r = record r { minute_samples = []; queue = minute_job r.minute_samples now r }

  -- `get_status`: a copy of `_state`, and the flag of a restart
  unfoldable pub get_status : Reader Number → Dict String Json
  get_status r =
      ("lock_status", bool r.lock_status)
      ∷ ("gm_id", str r.gm_id)
      ∷ ("source_id", str r.source_id)
      ∷ ("offset_current_ns", num r.offset_current_ns)
      ∷ ("offset_avg_ns", num r.offset_avg_ns)
      ∷ ("offset_max_ns", num r.offset_max_ns)
      ∷ ("offset_min_ns", num r.offset_min_ns)
      ∷ ("lock_stable_count", num (pos r.lock_stable_count))
      ∷ ("last_updated", str r.last_updated)
      ∷ ("restarting", bool r.restarting)
      ∷ []
