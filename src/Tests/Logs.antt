-- ===== src/Tests/Logs.antt =====
-- A log of four records.
use mo_ip_checker.Base.{ℕ, ◌≡◌, List, [], ◌∷◌, codes}
use mo_ip_checker.Base.Int.{pos}
use mo_ip_checker.Monitor.Logs.{Entry, LogRecord, handle_all}
use mo_ip_checker.Monitor.Latest.{latest_of, shown, serious}
use mo_ip_checker.SystemRouter.Current.{logs_json, get_system_log}
use mo_ip_checker.SystemRouter.Current.Logs.{get_system_log-handle_all}

abbrev late : Entry
late = record {
  timestamp = codes "2024-05-01T12:00:00";
  level = codes "WARNING";
  logger = codes "moip";
  message = codes "late";
}

abbrev at_level : ℕ → LogRecord
at_level n = record { levelno = n; entry = late }

abbrev four : List LogRecord
four = at_level 30 ∷ at_level 20 ∷ at_level 40 ∷ at_level 30 ∷ []

get_system_log-handle_all_example :
    get_system_log (pos 2) (handle_all four []) ≡ logs_json (latest_of (shown 2) (serious four))
get_system_log-handle_all_example = get_system_log-handle_all 2 four
