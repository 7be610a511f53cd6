-- ===== src/Tests/Reader.antt =====
-- The log reader on lines and ticks.
use mo_ip_checker.Base.{
  map, Bool, ◌≡◌, refl, some, List, [], ◌∷◌, ◌++◌, Text, codes, arith, nat_eq, text_eq, string_eq,
}
use mo_ip_checker.Base.Int.{ℤ, pos, negsuc, int_eq}
use mo_ip_checker.Base.Decimal.{str, str_ℕ}
use mo_ip_checker.Pattern.Engine.{
  Captures, start, Item, literals, one, plus, literal, digit, open_group, close_group,
}
use mo_ip_checker.Pattern.Relation.{Match}
use mo_ip_checker.Pattern.Complete.{Found, search_from-Found, not-Match_of_search}
use mo_ip_checker.Base.Exec.{ok}
use mo_ip_checker.Pattern.Engine.{search_from, digit_value, fits, match_here, plus_here}
use mo_ip_checker.LogReader.State.{initial}
use mo_ip_checker.LogReader.Line.{derive_source_id, parse_line}
use mo_ip_checker.LogReader.Line.Sample.{Report, printed, parse_line-printed}
use mo_ip_checker.LogReader.Run.{Input, line, second, minute, reload, started, run}
use mo_ip_checker.LogReader.Streak.{run-lock_status}
use mo_ip_checker.LogReader.Verdicts.{Verdict, default_limits, verdicts, is_locked, streak}
use mo_ip_checker.Json.{Json, num, object, subscript, fields, of_dict}
use mo_ip_checker.Base.Dict
use mo_ip_checker.LogReader.Conservation.{logged, run-samples}
use mo_ip_checker.LogReader.Minutes.{minutes, samples_of, measurements_of, measurement_of}
use mo_ip_checker.LogReader.Misses.{late_ticks, late_streak, all_late, run-freq_error}
use mo_ip_checker.LogReader.Edges.{tick_second-queue, lost_event, breach_event, freq_event}
use mo_ip_checker.LogReader.Tick.{tick_second}
use mo_ip_checker.Tests.Fixtures.{ascii, whole, whole-IsExact, noon, at}

abbrev locked_line : Text
locked_line = codes "ptp4l[1.5]: master offset        -12 s2 freq  -3450 path delay       678"

abbrev report : Report
report = record {
  offset = negsuc 11;
  servo = 2;
  freq = negsuc 3449;
  delay = 678;
  padding = 7;
  freq_padding = 1;
  delay_padding = 6;
}

line_of_report : codes "ptp4l[1.5]: " ++ printed report [] ≡ locked_line
unfolding printed str str_ℕ
line_of_report = refl

parse_line-printed_example :
    parse_line ascii (pos 7) noon (codes "ptp4l[1.5]: " ++ printed report []) (initial noon) ≡ (
      ok tt,
      record (initial noon) {
        sync_state = pos 2;
        second_samples = negsuc 11 ∷ [];
        offset_current_ns = negsuc 11;
        last_sync_seen_at = some (pos 7);
      },
    )
parse_line-printed_example =
    parse_line-printed ascii (pos 7) noon (initial noon) report (codes "ptp4l[1.5]: ") []
      (omega arith) (omega arith) tt (unfold str str_ℕ in omega arith)

source_of_gm : derive_source_id (codes "001b21.fffe.000001") ≡ codes "00:1b:21:00:00:01"
unfolding derive_source_id
source_of_gm = refl

abbrev script : List (Input ℤ)
script =
    line (pos 1) noon locked_line
    ∷ second (at 1)
    ∷ second (at 2)
    ∷ second (at 3)
    ∷ minute noon
    ∷ line (pos 9) noon locked_line
    ∷ []

-- After two ticks of `script` the settings ask for one second in lock.
abbrev shorter : Json
shorter = object (
    ("lock_threshold_ns", num (pos 500))
    ∷ ("lock_stable_sec", num (pos 1))
    ∷ ("offset_alert_threshold_ns", num (pos 500))
    ∷ ("sync_interval", num (negsuc 6))
    ∷ [])

abbrev reloaded : List (Input ℤ)
reloaded =
    line (pos 1) noon locked_line
    ∷ second (at 1)
    ∷ second (at 2)
    ∷ reload shorter
    ∷ second (at 3)
    ∷ []

abbrev history : List Verdict
history = verdicts ascii whole default_limits reloaded (started noon) []

run-lock_status_example :
    ((run ascii whole reloaded (started noon)).lock_status ≡ is_locked history)
    × ((run ascii whole reloaded (started noon)).lock_stable_count ≡ streak history)
run-lock_status_example =
    run-lock_status ascii whole whole-IsExact noon reloaded (
      refl,
      (refl, (refl, (unfold subscript fields of_dict Dict.get string_eq in refl, (refl, tt)))),
    )

run-samples_example :
    let s = run ascii whole script (started noon) in
    let ticks = minutes ascii whole script (started noon) in
    (samples_of ticks ++ (s.minute_samples ++ s.second_samples) ≡ logged ascii script)
    × (measurements_of s.queue ≡ map measurement_of ticks)
run-samples_example = run-samples ascii whole noon script

-- The counter and the flag after the syncs stay away
abbrev silent : List (Input ℤ)
silent =
    line (pos 1) noon locked_line
    ∷ second (at 2)
    ∷ second (at 6)
    ∷ reload shorter
    ∷ second (at 7)
    ∷ second (at 8)
    ∷ []

abbrev late_history : List Bool
late_history = late_ticks ascii whole default_limits silent (started noon) []

run-freq_error_example :
    ((run ascii whole silent (started noon)).freq_error_miss_count ≡ late_streak late_history)
    × ((run ascii whole silent (started noon)).freq_error_active ≡ all_late 3 late_history)
run-freq_error_example = run-freq_error ascii whole noon silent (
  refl,
  (refl, (refl, (unfold subscript fields of_dict Dict.get string_eq in refl, (refl, (refl, tt))))),
)

tick_second-queue_example :
    let t = (tick_second whole (at 1) (initial noon)).1 in
    t.queue
    ≡ []
      ++ (lost_event (at 1) (initial noon) t
          ++ (breach_event (at 1) (initial noon) t ++ freq_event (at 1) (initial noon) t))
tick_second-queue_example = tick_second-queue whole (at 1) (initial noon)

abbrev port_items : List Item
port_items =
    literals (codes "port ") (open_group ∷ plus digit ∷ close_group ∷ one (literal b':') ∷ [])

abbrev port_line : Text
port_line = codes "ptp4l: port 12: link down"

abbrev port_captures : Captures
port_captures = record { current = codes "12:"; groups = codes "12" ∷ [] }

port_search : Found ascii port_items port_line port_captures
port_search =
    search_from-Found ascii port_items port_line
      (unfold search_from match_here fits nat_eq plus_here digit_value in refl)

port_refused : ¬ Match ascii port_items (codes " x1: ") start port_captures
port_refused =
    not-Match_of_search ascii port_items (codes "port") (codes " x1: ")
      (unfold search_from match_here fits nat_eq plus_here digit_value in refl)
