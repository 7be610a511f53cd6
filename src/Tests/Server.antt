-- ===== src/Tests/Server.antt =====
-- The application through a start, some lines and ticks, requests, and a second start.
use mo_ip_checker.Base.{
  ◌≡◌, refl, inl, true, Option, none, some, List, [], ◌∷◌, ◌++◌, Text, codes, string_eq, arith,
}
use mo_ip_checker.Base.Int.{ℤ, pos}
use mo_ip_checker.Base.Dict
use mo_ip_checker.Base.Exec.{ok, raised, value_error}
use mo_ip_checker.Json.{Json, num, str, obj, Fields, fields, of_dict, object}
use mo_ip_checker.Files.{json}
use mo_ip_checker.ConfigStore.Store.{config_path}
use mo_ip_checker.ConfigStore.Sections.{HasSystem}
use mo_ip_checker.DbWriter.Queue.{measurement, event, clear}
use mo_ip_checker.DbWriter.Thread.{Database, transaction}
use mo_ip_checker.DbWriter.Rows.{IsLawful, rows_of, after_jobs, successful, clear_ids}
use mo_ip_checker.LogReader.State.{initial}
use mo_ip_checker.LogReader.Invariant.{initial-IsConsistent}
use mo_ip_checker.PtpRouter.Handlers.{PtpConfigUpdate}
use mo_ip_checker.SystemRouter.Tasks.{reboot_os, Call, exit_process, run_tasks, reboot_syscall}
use mo_ip_checker.Lifespan.{absent, not_started, running, started}
use mo_ip_checker.Server.{
  Server, ServerEvent, log_line, second_tick, minute_tick, write_job, put_ptp_config, upload_config,
  press, clear_log, begin_ptp_restart, end_ptp_restart, boot, run_task, serve_all,
}
use mo_ip_checker.Server.Sound.{IsSound}
use mo_ip_checker.Server.Invariant.{serve_all-IsSound}
use mo_ip_checker.Server.Roles.{Assigned, serve_all-Assigned}
use mo_ip_checker.Server.Drained.{turns, written, turns-drained}
use mo_ip_checker.Server.Pending.{Succeeds, pending, recorded, serve_all-pending}
use mo_ip_checker.Tests.Fixtures.{ascii, whole, noon, at}
use mo_ip_checker.Tests.Router.{values}
use mo_ip_checker.Tests.Writer.{tables, ok-injective}

-- A database that carries out every job
abbrev obliging : Database
obliging = record tables {
  add_event = λ e rows. ok (record rows { events = rows.events ++ e ∷ [] });
}

obliging-IsLawful : IsLawful obliging
obliging-IsLawful = record {
  add_measurement = λ m s h. ok-injective h;
  add_event = λ e s h. ok-injective h;
  delete_measurements = λ s h. ok-injective h;
  delete_events = λ s h. ok-injective h;
  commit = λ s h. ok-injective h;
}

obliging-Succeeds : Succeeds obliging
unfolding transaction
obliging-Succeeds (measurement m) s = (_, refl)
obliging-Succeeds (event e) s = (_, refl)
obliging-Succeeds (clear id) s = (_, refl)

abbrev no_repr : Json → Text
no_repr j = []

abbrev system : Json
system = object (("media_nic_amber", str (codes "eth0")) ∷ [])

abbrev config : Fields
config = of_dict (
    (
      "ptp",
      object (
          ("lock_threshold_ns", num (pos 500))
          ∷ ("lock_stable_sec", num (pos 1))
          ∷ ("offset_alert_threshold_ns", num (pos 500))
          ∷ ("sync_interval", num (pos 0))
          ∷ []),
    )
    ∷ ("system", system)
    ∷ [])

abbrev installed : Server ℤ obliging (Option Json)
installed = record {
  app = record {
    backend = record {
      files = (config_path, json (obj config)) ∷ [];
      reader = initial noon;
      restarts = 0;
    };
    log_handlers = 0;
    ntp_attempts = [];
    ptp_task = absent;
    writer = not_started;
  };
  tailing = true;
  world = record { store = record { measurements = []; events = [] }; done = [] };
  netplan = record { cloud_init = none; files = [] };
  in_progress = 0;
  tasks = [];
  calls = [];
}

installed-HasSystem : HasSystem (some system) installed.app.backend.files
unfolding Dict.get string_eq fields of_dict
installed-HasSystem = record { config = config; held = refl; system_value = refl }

installed-IsSound : IsSound installed
installed-IsSound = record {
  reading = initial-IsConsistent ascii whole noon;
  queued = tt;
  recording = (tt, tt);
  flagged = inl refl;
  held = (some system, installed-HasSystem);
}

abbrev stricter : PtpConfigUpdate
stricter = record {
  domain = none;
  priority1 = none;
  priority2 = none;
  sync_interval = none;
  announce_interval = none;
  delay_request_interval = none;
  lock_threshold_ns = some (pos 50);
  lock_stable_sec = none;
  offset_alert_threshold_ns = none;
}

-- A start, a locked second and its minute, a change of the settings, and a button
abbrev day : List (ServerEvent ℤ (Option Json))
day =
    log_line (pos 1) noon (codes "ptp4l: master offset -12 s2 freq -3450 path delay 678")
    ∷ second_tick (at 1)
    ∷ minute_tick noon
    ∷ write_job
    ∷ put_ptp_config stricter
    ∷ begin_ptp_restart
    ∷ clear_log 4
    ∷ upload_config (raised value_error)
    ∷ end_ptp_restart (ok tt)
    ∷ press reboot_os
    ∷ run_task 0
    ∷ []

serve_all-IsSound_example :
    IsSound (
      serve_all ascii whole obliging values no_repr (boot noon (ok tt) (λ _. ok 0) ∷ day) installed)
serve_all-IsSound_example =
    serve_all-IsSound ascii whole obliging values no_repr obliging-IsLawful
      (boot noon (ok tt) (λ _. ok 0) ∷ day) installed installed-IsSound

-- A call that leaves the process alone
abbrev Stays : Call → Type 0
Stays exit_process = ⊥
Stays _ = Unit

serve_all-Assigned_example :
    Assigned Stays ascii whole obliging values no_repr
      (some system)
      installed.netplan
      (serve_all ascii whole obliging values no_repr day installed)
serve_all-Assigned_example =
    serve_all-Assigned Stays ascii whole obliging values no_repr (some system) day installed.netplan
      installed
      (unfold run_tasks reboot_syscall in
        (tt, (tt, (tt, (tt, (tt, (tt, (tt, (tt, (tt, ((tt, (tt, tt)), (tt, tt))))))))))))
      (record { same_system = installed-HasSystem; same_netplan = refl; host_calls = (tt, tt) })

abbrev with_jobs : Server ℤ obliging (Option Json)
with_jobs = record installed {
  app = record installed.app {
    ptp_task = running;
    writer = started;
    backend = record installed.app.backend {
      reader = record installed.app.backend.reader { queue = some (clear 4) ∷ [] };
    };
  };
}

with_jobs-IsSound : IsSound with_jobs
with_jobs-IsSound = record {
  reading = record {
    sourced = installed-IsSound.reading.sourced;
    hysteresis = installed-IsSound.reading.hysteresis;
    above_min = installed-IsSound.reading.above_min;
    below_max = installed-IsSound.reading.below_max;
  };
  queued = (tt, tt);
  recording = (tt, tt);
  flagged = inl refl;
  held = (some system, installed-HasSystem);
}

turns-drained_example :
    let q = with_jobs.app.backend.reader.queue in
    let after = serve_all ascii whole obliging values no_repr (turns 2) with_jobs in
    (after ≡ written ascii whole obliging values no_repr ([], after.world) with_jobs)
    × (rows_of obliging after.world.store
        ≡ after_jobs
            (successful obliging q with_jobs.world)
            (rows_of obliging with_jobs.world.store))
    × (after.world.done ≡ with_jobs.world.done ++ clear_ids q)
turns-drained_example =
    turns-drained ascii whole obliging values no_repr obliging-IsLawful with_jobs 2
      with_jobs-IsSound refl (omega arith)

serve_all-pending_example :
    pending obliging (
      serve_all ascii whole obliging values no_repr
        (day ++ boot noon (ok tt) (λ _. ok 0) ∷ day)
        with_jobs)
    ≡ recorded ascii whole obliging values no_repr
        (day ++ boot noon (ok tt) (λ _. ok 0) ∷ day)
        with_jobs
        (pending obliging with_jobs)
serve_all-pending_example =
    serve_all-pending ascii whole obliging values no_repr obliging-IsLawful obliging-Succeeds
      (day ++ boot noon (ok tt) (λ _. ok 0) ∷ day) with_jobs with_jobs-IsSound
