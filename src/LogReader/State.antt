-- ===== src/LogReader/State.antt =====
-- The module's variables (`_state`, the samples, the flags, `_cfg`), and the queue of the database
-- writer, which the reader puts its jobs on.
use mo_ip_checker.Base.{ℕ, Bool, false, Option, none, List, [], Text, codes, string_eq}
use mo_ip_checker.Base.Int.{ℤ, pos, negsuc}
use mo_ip_checker.Base.Exec.{Exec, lift, modify, ◌>>=◌, ◌>>◌}
use mo_ip_checker.Json.{Json, num, subscript}
use mo_ip_checker.DbWriter.Queue.{Queue}

-- `_cfg`: whatever values the file holds
pub record Cfg : Type 0 where
  pub lock_threshold_ns : Json
  pub lock_stable_sec : Json
  pub offset_alert_threshold_ns : Json
  pub sync_interval : Json

abbrev pub default_cfg : Cfg
default_cfg = record {
  lock_threshold_ns = num (pos 500);
  lock_stable_sec = num (pos 3);
  offset_alert_threshold_ns = num (pos 500);
  sync_interval = num (negsuc 6);
}

pub record Reader (Number : Type 0) : Type 0 where
  pub lock_status : Bool
  pub gm_id : Text
  pub source_id : Text
  pub offset_current_ns : ℤ
  pub offset_avg_ns : ℤ
  pub offset_max_ns : ℤ
  pub offset_min_ns : ℤ
  pub lock_stable_count : ℕ
  pub last_updated : Text
  pub second_samples : List ℤ
  pub minute_samples : List ℤ
  pub sync_state : ℤ
  pub last_sync_seen_at : Option Number
  pub freq_error_miss_count : ℕ
  pub freq_error_active : Bool
  pub offset_threshold_breached : Bool
  pub restarting : Bool
  pub cfg : Cfg
  pub queue : Queue

abbrev pub unknown : Text
unknown = codes "unknown"

-- The state when the module is loaded, at the clock's `now`.
abbrev pub initial : {Number : Type 0} → Text → Reader Number
initial now = record {
  lock_status = false;
  gm_id = unknown;
  source_id = unknown;
  offset_current_ns = pos 0;
  offset_avg_ns = pos 0;
  offset_max_ns = pos 0;
  offset_min_ns = pos 0;
  lock_stable_count = 0;
  last_updated = now;
  second_samples = [];
  minute_samples = [];
  sync_state = pos 0;
  last_sync_seen_at = none;
  freq_error_miss_count = 0;
  freq_error_active = false;
  offset_threshold_breached = false;
  restarting = false;
  cfg = default_cfg;
  queue = [];
}

module _ {Number : Type 0} where
  -- The assignments of `reload_config`, from the `ptp` section. A missing key ends them.
  unfoldable pub reload_from : Json → Exec (Reader Number) (Unit {0})
  reload_from ptp = do
    threshold ← lift (subscript ptp "lock_threshold_ns")
    modify (λ r. record r { cfg = record r.cfg { lock_threshold_ns = threshold } })
    stable ← lift (subscript ptp "lock_stable_sec")
    modify (λ r. record r { cfg = record r.cfg { lock_stable_sec = stable } })
    alert ← lift (subscript ptp "offset_alert_threshold_ns")
    modify (λ r. record r { cfg = record r.cfg { offset_alert_threshold_ns = alert } })
    interval ← lift (subscript ptp "sync_interval")
    modify (λ r. record r { cfg = record r.cfg { sync_interval = interval } })

  unfoldable pub set_restarting : Bool → Reader Number → Reader Number
  set_restarting flag r = record r { restarting = flag }
