-- ===== src/Server/Invariant.antt =====
-- The invariant of the running application, through every event.
use mo_ip_checker.Base.{
  ℕ, ◌≡◌, refl, true, false, List, [], ◌∷◌, Text, String, arith, All-append, inl,
}
use mo_ip_checker.Base.Exec.{Result, ok, raised}
use mo_ip_checker.Json.{Json}
use mo_ip_checker.Numbers.{Numbers}
use mo_ip_checker.Pattern.Engine.{Unicode}
use mo_ip_checker.DbWriter.Queue.{enqueue_clear}
use mo_ip_checker.DbWriter.Thread.{Database}
use mo_ip_checker.DbWriter.Rows.{IsLawful}
use mo_ip_checker.LogReader.Run.{Input, line, second, minute, Service}
use mo_ip_checker.LogReader.Invariant.{step-IsConsistent, initial-IsConsistent}
use mo_ip_checker.Recording.{IsRecord, step-IsRecord}
use mo_ip_checker.PtpRouter.Handlers.{update_ptp_config, import_config, reload_config}
use mo_ip_checker.PtpRouter.Frame.{
  ReaderKept, reload_config-Kept, reload_config-Held, update_ptp_config-Kept,
  update_ptp_config-Held, import_config-Kept, import_config-Held,
}
use mo_ip_checker.SystemRouter.Netplan.{Yaml}
use mo_ip_checker.SystemRouter.Tasks.{Task}
use mo_ip_checker.SystemRouter.Handlers.{System, update_system_config}
use mo_ip_checker.SystemRouter.Frame.{HasConfig, update_system_config-Held}
use mo_ip_checker.Lifespan.{
  App, PtpTask, running, absent, created, cancelled, failed, begun, startup, begin_task,
  install_log_capture,
}
use mo_ip_checker.Server.{
  run_task, next_task, Server, ServerEvent, log_line, second_tick, minute_tick, write_job,
  put_ptp_config, upload_config, put_system_config, press, clear_log, begin_ptp_restart,
  end_ptp_restart, boot, loaded, booted, with_service, request_of, pressed, read, serve, serve_all,
}
use mo_ip_checker.Server.Reader.{step-restarting, is_loop}
use mo_ip_checker.Server.Sound.{
  carried_out-IsSound, IsSound, old-Kept, answered-IsSound, work-IsSound, begin_next-IsSound,
  end_next-IsSound, configured-IsSound,
}

module _ {Number : Type 0} (repr : Json → Text) where
  -- An application after a start: a consistent reader with no job and no flag.
  abbrev pub Fresh : App Number → Type 0
  Fresh app = ReaderKept repr [] false app.backend × HasConfig app.backend.files

  begun-Fresh : (o : Result (Unit {0})) (app : App Number) → Fresh app → Fresh (begun o app)
  unfolding begun
  begun-Fresh (ok _) app h = h
  begun-Fresh (raised e) app h = h

  begin_task-Fresh : (app : App Number) → Fresh app → Fresh (begin_task repr app)
  unfolding begin_task
  begin_task-Fresh app (kept, (system, config)) =
      let (result, backend) = reload_config repr app.backend in
      begun-Fresh result (record app { backend = backend })
        (
          reload_config-Kept repr [] false app.backend kept,
          (system, reload_config-Held repr system app.backend config),
        )

  booted-Fresh : (o : Result (Unit {0}) × App Number) → Fresh o.1 → Fresh (booted repr o)
  unfolding booted
  booted-Fresh (ok _, app) h = begin_task-Fresh app h
  booted-Fresh (raised e, app) h = h

  startup-Fresh :
      (init_db : Result (Unit {0})) (systemctl : String → Result ℕ) (app : App Number)
      → Fresh app
      → Fresh (startup init_db systemctl app).1
  unfolding startup install_log_capture
  startup-Fresh (ok _) systemctl app h = h
  startup-Fresh (raised e) systemctl app h = h

module _ (u : Unicode) (N : Numbers) (D : Database) (Y : Yaml) (repr : Json → Text) where
  open N use {Number}

  pub boot-Fresh :
      (now : Text) (init_db : Result (Unit {0})) (systemctl : String → Result ℕ) (app : App Number)
      → HasConfig app.backend.files
      → Fresh repr (booted repr (startup init_db systemctl (loaded now app)))
  unfolding loaded
  boot-Fresh now init_db systemctl app held =
      booted-Fresh repr (startup init_db systemctl (loaded now app)) (
        startup-Fresh repr init_db systemctl (loaded now app) (
          record { consistent = initial-IsConsistent u N now; same_queue = refl; same_flag = refl },
          held,
        ))

  read-IsSound :
      (task : PtpTask) (i : Input Number) (s : Server Number D Y.Document)
      → is_loop i ≡ true
      → IsSound s
      → IsSound (read u N D Y repr task i s)
  unfolding read with_service
  read-IsSound running i s loop h =
      let service : Service Number = record {
        reader = s.app.backend.reader;
        tailing = s.tailing;
      } in
      record {
        reading = step-IsConsistent u N i service h.reading;
        queued = step-IsRecord u N i service (h.reading, h.queued);
        recording = h.recording;
        flagged = rw (step-restarting u N i service loop) h.flagged;
        held = h.held;
      }
  read-IsSound absent i s loop h = h
  read-IsSound created i s loop h = h
  read-IsSound cancelled i s loop h = h
  read-IsSound (failed e) i s loop h = h

  pressed-files : (task : Task) (t : System Y.Document) → (pressed task t).1.files ≡ t.files
  unfolding pressed
  pressed-files task t = ground arith

  pub serve-IsSound :
      (laws : IsLawful D) (e : ServerEvent Number Y.Document) (s : Server Number D Y.Document)
      → IsSound s
      → IsSound (serve u N D Y repr e s)
  unfolding serve
  serve-IsSound laws (log_line mono now text) s h =
      read-IsSound s.app.ptp_task (line mono now text) s refl h
  serve-IsSound laws (second_tick now) s h = read-IsSound s.app.ptp_task (second now) s refl h
  serve-IsSound laws (minute_tick now) s h = read-IsSound s.app.ptp_task (minute now) s refl h
  serve-IsSound laws write_job s h = work-IsSound laws s.app.writer s h
  serve-IsSound laws (put_ptp_config patch) s h =
      let r = s.app.backend.reader in
      let (system, config) = h.held in
      answered-IsSound repr (update_ptp_config repr patch s.app.backend) s
        (update_ptp_config-Kept repr r.queue r.restarting patch s.app.backend (old-Kept repr s h))
        (system, update_ptp_config-Held repr system patch s.app.backend config) h
  serve-IsSound laws (upload_config imported) s h =
      let r = s.app.backend.reader in
      let (system, config) = h.held in
      answered-IsSound repr (import_config repr imported s.app.backend) s
        (import_config-Kept repr r.queue r.restarting imported s.app.backend (old-Kept repr s h))
        (system, import_config-Held repr system imported s.app.backend config) h
  serve-IsSound laws (put_system_config disk patch) s h =
      configured-IsSound (update_system_config repr Y disk patch (request_of s)) s
        (update_system_config-Held repr Y disk patch (request_of s) h.held) h
  serve-IsSound laws (press task) s h =
      configured-IsSound (ok [], (pressed task (request_of s)).1) s
        (rw (pressed-files task (request_of s)) h.held) h
  serve-IsSound laws (run_task n) s h = carried_out-IsSound (next_task n s.tasks) s h
  serve-IsSound laws (clear_log id) s h = record {
    reading = record {
      sourced = h.reading.sourced;
      hysteresis = h.reading.hysteresis;
      above_min = h.reading.above_min;
      below_max = h.reading.below_max;
    };
    queued =
        unfold enqueue_clear in All-append IsRecord s.app.backend.reader.queue _ h.queued (tt, tt);
    recording = h.recording;
    flagged = h.flagged;
    held = h.held;
  }
  serve-IsSound laws begin_ptp_restart s h = begin_next-IsSound s.app.backend.restarts s h
  serve-IsSound laws (end_ptp_restart outcome) s h = end_next-IsSound s.in_progress outcome s h
  serve-IsSound laws (boot now init_db systemctl) s h =
      let (kept, config) = boot-Fresh now init_db systemctl s.app h.held in
      record {
        reading = kept.consistent;
        queued = rw kept.same_queue tt;
        recording = h.recording;
        flagged = inl kept.same_flag;
        held = config;
      }

  -- Over a lawful database, whatever happens from a sound state of the application, in whatever
  -- order, among lines and ticks, turns of the writer thread, requests that change or import
  -- settings and return or raise, presses of the buttons, tasks that restart or reboot, clears of
  -- the log, begins and ends of restarts of the PTP container, and new starts, the state after it
  -- is sound. That is: the source id belongs to the grandmaster id, the frequency flag is up
  -- exactly if the counter of late second ticks is at three or more, and the average lies between
  -- its extremes; the queue holds measurements for which the same holds, events of known types and
  -- requests to clear the log; so do the rows of the database; if the restart flag is up, a restart
  -- has not ended; and config.json holds a dict.
  pub serve_all-IsSound :
      (laws : IsLawful D) (events : List (ServerEvent Number Y.Document))
      (s : Server Number D Y.Document)
      → IsSound s
      → IsSound (serve_all u N D Y repr events s)
  unfolding serve_all
  serve_all-IsSound laws [] s h = h
  serve_all-IsSound laws (e ∷ events) s h =
      serve_all-IsSound laws events (serve u N D Y repr e s) (serve-IsSound laws e s h)
