-- ===== src/SystemRouter/Current/Logs.antt =====
-- `get_system_log`, over the buffer that the handler of the log fills.
use mo_ip_checker.Base.{ℕ, ◌≡◌, ap, List, []}
use mo_ip_checker.Base.Int.{pos}
use mo_ip_checker.Monitor.Logs.{LogRecord, handle_all}
use mo_ip_checker.Monitor.Latest.{latest_of, shown, serious, get_recent_logs-handle_all}
use mo_ip_checker.SystemRouter.Current.{logs_json, get_system_log}

-- After any records were logged, of any level, to an empty buffer, the reply of `get_system_log`
-- has the entries of the latest of the records from the level of a warning on, in their order: as
-- many as the limit says, if this is from 1 to 500, and 500 for a larger limit and for the limit 0;
-- all of them if there are fewer.
pub get_system_log-handle_all :
    (limit : ℕ) (records : List LogRecord)
    → get_system_log (pos limit) (handle_all records [])
      ≡ logs_json (latest_of (shown limit) (serious records))
unfolding get_system_log
get_system_log-handle_all limit records = ap logs_json (get_recent_logs-handle_all limit records)
