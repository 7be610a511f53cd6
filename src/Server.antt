-- ===== src/Server.antt =====
-- The running application: the log reader's task, the writer thread, the request handlers and their
-- background tasks, over one state. A handler runs on the event loop without an `await` between its
-- changes, and so do the bodies of the reader's loops, so a run is a sequence of the events below. The
-- writer thread, the tasks that restart or reboot, and the restarts of the PTP container, which wait for
-- Docker, run on threads of their own and take their steps between them.
pub mod Reader
pub mod Sound
pub mod Invariant
pub mod Roles
pub mod Drained
pub mod Growth
pub mod Pending
use mo_ip_checker.Base.{
  ℕ, zero, suc, String, Bool, true, false, Option, none, some, List, [], ◌∷◌, ◌++◌, Text,
}
use mo_ip_checker.Base.Exec.{Result, ok, raised}
use mo_ip_checker.Json.{Json}
use mo_ip_checker.Numbers.{Numbers}
use mo_ip_checker.Pattern.Engine.{Unicode}
use mo_ip_checker.DbWriter.Queue.{Queue, enqueue_clear}
use mo_ip_checker.DbWriter.Thread.{Database, World, handled}
use mo_ip_checker.LogReader.State.{initial}
use mo_ip_checker.LogReader.Tick.{Now}
use mo_ip_checker.LogReader.Run.{Input, line, second, minute, Service, step}
use mo_ip_checker.PtpRouter.Handlers.{Backend, PtpConfigUpdate, update_ptp_config, import_config}
use mo_ip_checker.PtpRouter.Restarts.{begin_restart, end_restart}
use mo_ip_checker.SystemRouter.Netplan.{Yaml, Disk, Netplan}
use mo_ip_checker.SystemRouter.Tasks.{
  Task, restart_system, reboot_os, shutdown_os, Call, restart_ptp_container, run_tasks,
}
use mo_ip_checker.SystemRouter.Handlers.{
  SystemConfigUpdate, System, update_system_config, restart, reboot_server, shutdown_server,
}
use mo_ip_checker.Lifespan.{
  App, PtpTask, running, absent, WriterThread, started, not_started, startup, begin_task,
}

-- The process, and what outlives it: the files (in `app.backend`), the database, the netplan files and the
-- calls that were made of the host. `in_progress` counts the restarts of the PTP container that have
-- begun and not ended.
-- `running` says that the loops were begun: when `_tail_loop` ends with an exception, the other two go on.
pub record Server (Number : Type 0) (D : Database) (Document : Type 0) : Type 0 where
  pub app : App Number
  pub tailing : Bool
  pub world : World D
  pub netplan : Netplan Document
  pub in_progress : ℕ
  pub tasks : List (List Task)
  pub calls : List Call

pub data ServerEvent (Number Document : Type 0) : Type 0 where
  log_line : Number → Text → Text → ServerEvent Number Document
  second_tick : Now Number → ServerEvent Number Document
  minute_tick : Text → ServerEvent Number Document
  write_job : ServerEvent Number Document
  put_ptp_config : PtpConfigUpdate → ServerEvent Number Document
  upload_config : Result Json → ServerEvent Number Document
  put_system_config : Disk Document → SystemConfigUpdate → ServerEvent Number Document
  press : Task → ServerEvent Number Document
  run_task : ℕ → ServerEvent Number Document
  clear_log : ℕ → ServerEvent Number Document
  begin_ptp_restart : ServerEvent Number Document
  end_ptp_restart : Result (Unit {0}) → ServerEvent Number Document
  boot : Text → Result (Unit {0}) → (String → Result ℕ) → ServerEvent Number Document

module _ {Number : Type 0} where
  -- FastAPI drops the background tasks of a request whose handler raises.
  unfoldable pub answered :
      {A : Type 0} → Backend Number → Result A × Backend Number → Backend Number
  answered before (ok _, after) = after
  answered before (raised e, after) = record after { restarts = before.restarts }

  -- The process when `main` is loaded, over the files that are there.
  unfoldable pub loaded : Text → App Number → App Number
  loaded now app = record {
    backend = record { files = app.backend.files; reader = initial now; restarts = 0 };
    log_handlers = 0;
    ntp_attempts = [];
    ptp_task = absent;
    writer = not_started;
  }

  -- The start up to the first step of the reader's task, which does not exist if `startup` raises.
  unfoldable pub booted : (Json → Text) → Result (Unit {0}) × App Number → App Number
  booted repr (ok _, app) = begin_task repr app
  booted repr (raised e, app) = app

module _ {Number : Type 0} {D : Database} {Document : Type 0} where
  abbrev pub with_backend : Backend Number → Server Number D Document → Server Number D Document
  with_backend b s = record s { app = record s.app { backend = b } }

  abbrev pub with_queue : Queue → Server Number D Document → Server Number D Document
  with_queue q s =
      let b = s.app.backend in with_backend (record b { reader = record b.reader { queue = q } }) s

  unfoldable pub with_service : Service Number → Server Number D Document → Server Number D Document
  with_service t s = record (with_backend (record s.app.backend { reader = t.reader }) s) {
    tailing = t.tailing;
  }

  -- The thread takes one job, if it runs.
  unfoldable pub work : WriterThread → Server Number D Document → Server Number D Document
  unfolding handled
  work started s =
      let (q, w) = handled D 1 s.app.backend.reader.queue s.world in
      record (with_queue q s) { world = w }
  work not_started s = s

  unfoldable pub begin_next : ℕ → Server Number D Document → Server Number D Document
  begin_next zero s = s
  begin_next (suc left) s = record (with_backend (begin_restart left s.app.backend) s) {
    in_progress = suc s.in_progress;
    calls = s.calls ++ restart_ptp_container ∷ [];
  }

  unfoldable pub end_next :
      ℕ → Result (Unit {0}) → Server Number D Document → Server Number D Document
  end_next zero outcome s = s
  end_next (suc n) outcome s = record (with_backend (end_restart outcome s.app.backend) s) {
    in_progress = n;
  }

  -- What a request of the system router begins with.
  abbrev pub request_of : Server Number D Document → System Document
  request_of s = record { files = s.app.backend.files; netplan = s.netplan; tasks = [] }

  -- A request that is answered leaves its tasks to be done.
  unfoldable pub configured :
      Result (List String) × System Document → Server Number D Document → Server Number D Document
  configured (ok actions, t) s =
      record (with_backend (record s.app.backend { files = t.files }) s) {
        netplan = t.netplan;
        tasks = s.tasks ++ t.tasks ∷ [];
      }
  configured (raised e, t) s = record (with_backend (record s.app.backend { files = t.files }) s) {
    netplan = t.netplan;
  }

  -- The end of the process is the end of every task that waits. What comes before the next `boot` is more
  -- than the program then does.
  unfoldable pub carried_out :
      Option (Task × List (List Task)) → Server Number D Document → Server Number D Document
  carried_out none s = s
  carried_out (some (restart_system, rest)) s = record s {
    tasks = [];
    calls = s.calls ++ run_tasks (restart_system ∷ []);
  }
  carried_out (some (task, rest)) s = record s {
    tasks = rest;
    calls = s.calls ++ run_tasks (task ∷ []);
  }

abbrev pub behind : List Task → Option (Task × List (List Task)) → Option (Task × List (List Task))
behind tasks none = none
behind tasks (some (task, rest)) = some (task, tasks ∷ rest)

-- The next task of one request. The tasks of a request run one after the other, those of several
-- requests on a thread each.
unfoldable pub next_task : ℕ → List (List Task) → Option (Task × List (List Task))
next_task n [] = none
next_task zero ([] ∷ requests) = none
next_task zero ((task ∷ tasks) ∷ requests) = some (task, tasks ∷ requests)
next_task (suc n) (tasks ∷ requests) = behind tasks (next_task n requests)

-- The handlers of the three buttons
unfoldable pub pressed : {Document : Type 0} → Task → System Document → String × System Document
unfolding restart reboot_server shutdown_server
pressed restart_system s = restart s
pressed reboot_os s = reboot_server s
pressed shutdown_os s = shutdown_server s

module _ (u : Unicode) (N : Numbers) (D : Database) (Y : Yaml) (repr : Json → Text) where
  open N use {Number}

  -- The loops of `run`, if the task has come to them.
  unfoldable pub read :
      PtpTask → Input Number → Server Number D Y.Document → Server Number D Y.Document
  unfolding with_service
  read running i s =
      with_service (step u N i (record { reader = s.app.backend.reader; tailing = s.tailing })) s
  read _ i s = s

  unfoldable pub serve :
      ServerEvent Number Y.Document → Server Number D Y.Document → Server Number D Y.Document
  unfolding read work answered configured pressed carried_out next_task begin_next end_next loaded
      booted
  serve (log_line mono now text) s = read s.app.ptp_task (line mono now text) s
  serve (second_tick now) s = read s.app.ptp_task (second now) s
  serve (minute_tick now) s = read s.app.ptp_task (minute now) s
  serve write_job s = work s.app.writer s
  serve (put_ptp_config patch) s =
      with_backend (answered s.app.backend (update_ptp_config repr patch s.app.backend)) s
  serve (upload_config imported) s =
      with_backend (answered s.app.backend (import_config repr imported s.app.backend)) s
  serve (put_system_config disk patch) s =
      configured (update_system_config repr Y disk patch (request_of s)) s
  serve (press task) s = configured (ok [], (pressed task (request_of s)).1) s
  serve (run_task n) s = carried_out (next_task n s.tasks) s
  serve (clear_log id) s = with_queue (enqueue_clear id s.app.backend.reader.queue) s
  serve begin_ptp_restart s = begin_next s.app.backend.restarts s
  serve (end_ptp_restart outcome) s = end_next s.in_progress outcome s
  serve (boot now init_db systemctl) s = record s {
    app = booted repr (startup init_db systemctl (loaded now s.app));
    tailing = true;
    in_progress = 0;
    tasks = [];
  }

  unfoldable pub serve_all :
      List (ServerEvent Number Y.Document) → Server Number D Y.Document → Server Number D Y.Document
  serve_all [] s = s
  serve_all (e ∷ events) s = serve_all events (serve e s)
