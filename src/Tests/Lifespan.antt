-- ===== src/Tests/Lifespan.antt =====
-- A start without a configuration file, on a host on which one service runs.
use mo_ip_checker.Base.{ℕ, String, ◌≡◌, [], ◌++◌, map, Text, ◌==◌, string_eq, if◌then◌else◌}
use mo_ip_checker.Base.Int.{ℤ}
use mo_ip_checker.Base.Exec.{Result, ok}
use mo_ip_checker.Json.{Json}
use mo_ip_checker.LogReader.State.{initial}
use mo_ip_checker.Monitor.Services.{ntp_services}
use mo_ip_checker.PtpRouter.Handlers.{reload_config}
use mo_ip_checker.Lifespan.{App, absent, not_started, startup, begin_task}
use mo_ip_checker.Lifespan.Outcome.{service_of, Started, startup-Started}
use mo_ip_checker.Tests.Fixtures.{noon}

abbrev off : App ℤ
off = record {
  backend = record { files = []; reader = initial noon; restarts = 0 };
  log_handlers = 0;
  ntp_attempts = [];
  ptp_task = absent;
  writer = not_started;
}

abbrev systemctl : String → Result ℕ
systemctl service = ok (if service == "chrony.service" then 0 else 1)

abbrev no_repr : Json → Text
no_repr j = []

abbrev up : App ℤ
up = begin_task no_repr (startup (ok tt) systemctl off).1

startup-Started_example :
    ((startup (ok tt) systemctl off).0 ≡ ok tt)
    × (up.log_handlers ≡ 1)
    × (map service_of up.ntp_attempts ≡ [] ++ ntp_services)
    × (up.backend ≡ (reload_config no_repr off.backend).1)
    × Started (reload_config no_repr off.backend).0 off up
startup-Started_example = startup-Started no_repr systemctl off
