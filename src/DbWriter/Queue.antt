-- ===== src/DbWriter/Queue.antt =====
-- The jobs, and the functions that put them on the queue. `None` on the queue ends the thread.
use mo_ip_checker.Base.{
  ℕ, String, Bool, Option, none, some, List, [], ◌∷◌, ◌++◌, Text, if◌then◌else◌,
}
use mo_ip_checker.Base.Int.{ℤ}
use mo_ip_checker.Base.Dict.{Dict}
use mo_ip_checker.Json.{Json, object}
use mo_ip_checker.Json.Dumps.{dumps}

-- `PtpMeasurementLog` without its id
pub record Measurement : Type 0 where
  pub recorded_at : Text
  pub lock_status : ℕ
  pub gm_id : Text
  pub source_id : Text
  pub offset_avg_ns : ℤ
  pub offset_max_ns : ℤ
  pub offset_min_ns : ℤ

-- `PtpEventLog` without its id
pub record Event : Type 0 where
  pub recorded_at : Text
  pub event_type : String
  pub detail : Text

-- A clear job carries its `done_event`, here by a number.
pub data Job : Type 0 where
  measurement : Measurement → Job
  event : Event → Job
  clear : ℕ → Job

abbrev pub Queue : Type 0
Queue = List (Option Job)

abbrev pub put_nowait : Option Job → Queue → Queue
put_nowait job q = q ++ job ∷ []

unfoldable pub stop : Queue → Queue
stop q = put_nowait none q

-- `now` is what the clock says while the job is built.
unfoldable pub enqueue_measurement : Text → Bool → Text → Text → ℤ → ℤ → ℤ → Queue → Queue
enqueue_measurement now lock_status gm_id source_id avg mx mn q =
    put_nowait
      (some (
        measurement (record {
          recorded_at = now;
          lock_status = if lock_status then 1 else 0;
          gm_id = gm_id;
          source_id = source_id;
          offset_avg_ns = avg;
          offset_max_ns = mx;
          offset_min_ns = mn;
        })))
      q

unfoldable pub enqueue_event : Text → String → Dict String Json → Queue → Queue
enqueue_event now event_type detail q =
    put_nowait
      (some (
        event
          (record { recorded_at = now; event_type = event_type; detail = dumps (object detail) })))
      q

-- The job that `clear_logs` puts on the queue before it waits for `done`.
unfoldable pub enqueue_clear : ℕ → Queue → Queue
enqueue_clear done q = put_nowait (some (clear done)) q
