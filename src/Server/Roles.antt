-- ===== src/Server/Roles.antt =====
-- The roles of the network cards and the netplan files, which only the system settings change, and the
-- calls of the host, which come of those and of the buttons.
use mo_ip_checker.Base.{
  ℕ, zero, suc, ◌≡◌, refl, Option, none, some, List, [], ◌∷◌, ◌++◌, Text, String, arith, All,
  All-append,
}
use mo_ip_checker.Base.Exec.{Result, ok, raised}
use mo_ip_checker.Json.{Json}
use mo_ip_checker.Numbers.{Numbers}
use mo_ip_checker.Pattern.Engine.{Unicode}
use mo_ip_checker.ConfigStore.Sections.{HasSystem}
use mo_ip_checker.DbWriter.Thread.{Database}
use mo_ip_checker.LogReader.Run.{Input, line, second, minute}
use mo_ip_checker.PtpRouter.Handlers.{Backend, update_ptp_config, import_config, reload_config}
use mo_ip_checker.PtpRouter.Restarts.{begin_restart, end_restart}
use mo_ip_checker.PtpRouter.Frame.{reload_config-Held, update_ptp_config-Held, import_config-Held}
use mo_ip_checker.SystemRouter.Netplan.{Yaml, Netplan}
use mo_ip_checker.SystemRouter.Tasks.{
  Task, restart_system, reboot_os, shutdown_os, Call, restart_ptp_container, run_tasks,
}
use mo_ip_checker.SystemRouter.Handlers.{System}
use mo_ip_checker.Lifespan.{
  App, PtpTask, WriterThread, not_started, begun, startup, begin_task, install_log_capture,
}
use mo_ip_checker.Server.{
  Server, ServerEvent, log_line, second_tick, minute_tick, write_job, put_ptp_config, upload_config,
  put_system_config, press, run_task, clear_log, begin_ptp_restart, end_ptp_restart, boot, answered,
  loaded, booted, with_service, work, begin_next, end_next, request_of, configured, pressed,
  carried_out, next_task, behind, read, serve, serve_all,
}

-- A property of the calls that are made of the host
module _ (P : Call → Type 0) where
  -- It holds of the calls of every task that waits.
  abbrev pub AllTasks : List (List Task) → Type 0
  AllTasks requests = All (All (λ task. All P (run_tasks (task ∷ [])))) requests

  abbrev pub HostCalls :
      {Number : Type 0} {D : Database} {Document : Type 0} → Server Number D Document → Type 0
  HostCalls s = All P s.calls × AllTasks s.tasks

  -- No change of the system settings, and a button or a restart of the PTP container only if it holds of
  -- the calls that it leads to.
  abbrev pub IsRoutine : {Number Document : Type 0} → ServerEvent Number Document → Type 0
  IsRoutine (put_system_config disk patch) = ⊥
  IsRoutine (press task) = All P (run_tasks (task ∷ []))
  IsRoutine begin_ptp_restart = P restart_ptp_container
  IsRoutine _ = Unit

  abbrev Next : Option (Task × List (List Task)) → Type 0
  Next none = Unit
  Next (some (task, rest)) = All P (run_tasks (task ∷ [])) × AllTasks rest

  behind-Next :
      (tasks : List Task) (o : Option (Task × List (List Task)))
      → All (λ task. All P (run_tasks (task ∷ []))) tasks
      → Next o
      → Next (behind tasks o)
  behind-Next tasks none h k = k
  behind-Next tasks (some (task, rest)) h (now, later) = (now, (h, later))

  next_task-Next :
      (n : ℕ) (requests : List (List Task)) → AllTasks requests → Next (next_task n requests)
  unfolding next_task
  next_task-Next n [] h = tt
  next_task-Next zero ([] ∷ requests) h = tt
  next_task-Next zero ((task ∷ tasks) ∷ requests) ((now, later), rest) = (now, (later, rest))
  next_task-Next (suc n) (tasks ∷ requests) (h, hs) =
      behind-Next tasks (next_task n requests) h (next_task-Next n requests hs)

module _ {Number : Type 0} (system : Option Json) where
  answered-Held :
      {A : Type 0} (before : Backend Number) (o : Result A × Backend Number)
      → HasSystem system o.1.files
      → HasSystem system (answered before o).files
  unfolding answered
  answered-Held before (ok a, b) h = h
  answered-Held before (raised e, b) h = h

  begun-Held :
      (o : Result (Unit {0})) (app : App Number)
      → HasSystem system app.backend.files
      → HasSystem system (begun o app).backend.files
  unfolding begun
  begun-Held (ok _) app h = h
  begun-Held (raised e) app h = h

  booted-Held :
      (repr : Json → Text) (o : Result (Unit {0}) × App Number)
      → HasSystem system o.1.backend.files
      → HasSystem system (booted repr o).backend.files
  unfolding booted begin_task
  booted-Held repr (raised e, app) h = h
  booted-Held repr (ok _, app) h =
      let (result, backend) = reload_config repr app.backend in
      begun-Held result (record app { backend = backend })
        (reload_config-Held repr system app.backend h)

  startup-Held :
      (init_db : Result (Unit {0})) (systemctl : String → Result ℕ) (app : App Number)
      → HasSystem system app.backend.files
      → HasSystem system (startup init_db systemctl app).1.backend.files
  unfolding startup install_log_capture
  startup-Held (ok _) systemctl app h = h
  startup-Held (raised e) systemctl app h = h

pressed_lem :
    {Document : Type 0} (task : Task) (t : System Document)
    → (pressed task t).1 ≡ record t { tasks = t.tasks ++ task ∷ [] }
unfolding pressed
pressed_lem restart_system t = refl
pressed_lem reboot_os t = refl
pressed_lem shutdown_os t = refl

module _ (P : Call → Type 0) (u : Unicode) (N : Numbers) (D : Database) (Y : Yaml)
    (repr : Json → Text) (system : Option Json) where
  open N use {Number}

  -- The value of `system`, the netplan files and the calls of the host after some events
  pub record Assigned (netplan : Netplan Y.Document) (s : Server Number D Y.Document) : Type 0 where
    pub same_system : HasSystem system s.app.backend.files
    pub same_netplan : s.netplan ≡ netplan
    pub host_calls : HostCalls P s

  read-Assigned :
      (task : PtpTask) (i : Input Number) (netplan : Netplan Y.Document)
      (s : Server Number D Y.Document)
      → Assigned netplan s
      → Assigned netplan (read u N D Y repr task i s)
  unfolding read with_service
  read-Assigned task i netplan s h = ground arith

  moved-Assigned :
      (writer : WriterThread) (n : ℕ) (outcome : Result (Unit {0})) (netplan : Netplan Y.Document)
      (s : Server Number D Y.Document)
      → Assigned netplan s
      → Assigned netplan (work writer s) × Assigned netplan (end_next n outcome s)
  unfolding work end_next end_restart
  moved-Assigned writer n outcome netplan s h = ground arith

  begun_next-Assigned :
      (n : ℕ) (netplan : Netplan Y.Document) (s : Server Number D Y.Document)
      → P restart_ptp_container
      → Assigned netplan s
      → Assigned netplan (begin_next n s)
  unfolding begin_next begin_restart
  begun_next-Assigned zero netplan s call h = h
  begun_next-Assigned (suc n) netplan s call h = record {
    same_system = h.same_system;
    same_netplan = h.same_netplan;
    host_calls = (All-append P s.calls _ h.host_calls.0 (call, tt), h.host_calls.1);
  }

  pressed-Assigned :
      (task : Task) (netplan : Netplan Y.Document) (s : Server Number D Y.Document)
      → All P (run_tasks (task ∷ []))
      → Assigned netplan s
      → Assigned netplan (configured (ok [], (pressed task (request_of s)).1) s)
  unfolding configured
  pressed-Assigned task netplan s calls h = rw (pressed_lem task (request_of s)) (record {
    same_system = h.same_system;
    same_netplan = h.same_netplan;
    host_calls = (h.host_calls.0, All-append _ s.tasks _ h.host_calls.1 ((calls, tt), tt));
  })

  carried_out-Assigned :
      (next : Option (Task × List (List Task))) (netplan : Netplan Y.Document)
      (s : Server Number D Y.Document)
      → Next P next
      → Assigned netplan s
      → Assigned netplan (carried_out next s)
  unfolding carried_out
  carried_out-Assigned none netplan s next h = h
  carried_out-Assigned (some (restart_system, rest)) netplan s (now, later) h = record {
    same_system = h.same_system;
    same_netplan = h.same_netplan;
    host_calls = (All-append P s.calls _ h.host_calls.0 now, tt);
  }
  carried_out-Assigned (some (reboot_os, rest)) netplan s (now, later) h = record {
    same_system = h.same_system;
    same_netplan = h.same_netplan;
    host_calls = (All-append P s.calls _ h.host_calls.0 now, later);
  }
  carried_out-Assigned (some (shutdown_os, rest)) netplan s (now, later) h = record {
    same_system = h.same_system;
    same_netplan = h.same_netplan;
    host_calls = (All-append P s.calls _ h.host_calls.0 now, later);
  }

  serve-Assigned :
      (e : ServerEvent Number Y.Document) (netplan : Netplan Y.Document)
      (s : Server Number D Y.Document)
      → IsRoutine P e
      → Assigned netplan s
      → Assigned netplan (serve u N D Y repr e s)
  unfolding serve
  serve-Assigned (log_line mono now text) netplan s routine h =
      read-Assigned s.app.ptp_task (line mono now text) netplan s h
  serve-Assigned (second_tick now) netplan s routine h =
      read-Assigned s.app.ptp_task (second now) netplan s h
  serve-Assigned (minute_tick now) netplan s routine h =
      read-Assigned s.app.ptp_task (minute now) netplan s h
  serve-Assigned write_job netplan s routine h =
      (moved-Assigned s.app.writer 0 (ok tt) netplan s h).0
  serve-Assigned (put_ptp_config patch) netplan s routine h = record {
    same_system =
        answered-Held system s.app.backend (update_ptp_config repr patch s.app.backend)
          (update_ptp_config-Held repr system patch s.app.backend h.same_system);
    same_netplan = h.same_netplan;
    host_calls = h.host_calls;
  }
  serve-Assigned (upload_config imported) netplan s routine h = record {
    same_system =
        answered-Held system s.app.backend (import_config repr imported s.app.backend)
          (import_config-Held repr system imported s.app.backend h.same_system);
    same_netplan = h.same_netplan;
    host_calls = h.host_calls;
  }
  serve-Assigned (put_system_config disk patch) netplan s routine h = absurd routine
  serve-Assigned (press task) netplan s routine h = pressed-Assigned task netplan s routine h
  serve-Assigned (run_task n) netplan s routine h =
      carried_out-Assigned (next_task n s.tasks) netplan s
        (next_task-Next P n s.tasks h.host_calls.1) h
  serve-Assigned (clear_log id) netplan s routine h = record {
    same_system = h.same_system;
    same_netplan = h.same_netplan;
    host_calls = h.host_calls;
  }
  serve-Assigned begin_ptp_restart netplan s routine h =
      begun_next-Assigned s.app.backend.restarts netplan s routine h
  serve-Assigned (end_ptp_restart outcome) netplan s routine h =
      (moved-Assigned not_started s.in_progress outcome netplan s h).1
  serve-Assigned (boot now init_db systemctl) netplan s routine h = record {
    same_system =
        booted-Held system repr (startup init_db systemctl (loaded now s.app)) (
          startup-Held system init_db systemctl (loaded now s.app)
            (unfold loaded in h.same_system));
    same_netplan = h.same_netplan;
    host_calls = (h.host_calls.0, tt);
  }

  -- If config.json holds a dict, then whatever lines and ticks, turns of the writer thread, changes
  -- of the PTP settings, imports, presses of buttons, tasks, clears of the log, restarts of the PTP
  -- container and new starts come, in whatever order, but no change of the system settings:
  -- `system` keeps its value in config.json, no netplan file changes, and a property that holds of
  -- the calls of the host so far, of those of the tasks that wait, of those of the buttons that are
  -- pressed and of the restarts of the PTP container that begin holds of all calls after.
  pub serve_all-Assigned :
      (events : List (ServerEvent Number Y.Document)) (netplan : Netplan Y.Document)
      (s : Server Number D Y.Document)
      → All (IsRoutine P) events
      → Assigned netplan s
      → Assigned netplan (serve_all u N D Y repr events s)
  unfolding serve_all
  serve_all-Assigned [] netplan s routine h = h
  serve_all-Assigned (e ∷ events) netplan s (now, later) h =
      serve_all-Assigned events netplan (serve u N D Y repr e s) later
        (serve-Assigned e netplan s now h)
