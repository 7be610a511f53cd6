-- ===== src/Lifespan/Outcome.antt =====
-- A start of the application with a good and with a bad configuration file.
use mathlib.Core.List.{map-append}
use mo_ip_checker.Base.{
  ℕ, zero, suc, map, String, ◌≡◌, refl, ap, ◌∙◌, List, [], ◌∷◌, ◌++◌, Text, arith,
}
use mo_ip_checker.Base.Exec.{Result, ok, raised}
use mo_ip_checker.Json.{Json}
use mo_ip_checker.PtpRouter.Handlers.{reload_config}
use mo_ip_checker.Monitor.Services.{
  Attempt, disabled, refused, ntp_services, attempt_disable, disable_all, disable_ntp_client,
}
use mo_ip_checker.Lifespan.{
  App, running, failed, started, start, begun, startup, begin_task, shutdown, install_log_capture,
}

-- The service of an attempt
unfoldable pub service_of : Attempt → String
service_of (disabled s) = s
service_of (refused s) = s
service_of (Attempt.failed s) = s

service_of-attempt_disable :
    (service : String) (r : Result ℕ) → service_of (attempt_disable service r) ≡ service
unfolding service_of attempt_disable
service_of-attempt_disable service (ok zero) = refl
service_of-attempt_disable service (ok (suc code)) = refl
service_of-attempt_disable service (raised e) = refl

map-disable_all :
    (systemctl : String → Result ℕ) (services : List String)
    → map service_of (disable_all systemctl services) ≡ services
unfolding disable_all
map-disable_all systemctl [] = refl
map-disable_all systemctl (s ∷ services) =
    rw (service_of-attempt_disable s (systemctl s), map-disable_all systemctl services)

module _ {Number : Type 0} where
  -- The application after a start and the first step of its task, by the outcome of `reload_config`.
  abbrev pub Started : Result (Unit {0}) → App Number → App Number → Type 0
  Started (ok _) app after =
      (after.ptp_task ≡ running) × (after.writer ≡ started) × ((shutdown after).0 ≡ ok tt)
  Started (raised e) app after =
      (after.ptp_task ≡ failed e) × (after.writer ≡ app.writer) × ((shutdown after).0 ≡ raised e)

  begun-Started :
      (r : Result (Unit {0})) (app now : App Number)
      → now.writer ≡ app.writer
      → (Started r app (begun r now))
        × ((begun r now).log_handlers ≡ now.log_handlers)
        × ((begun r now).backend ≡ now.backend)
        × ((begun r now).ntp_attempts ≡ now.ntp_attempts)
  unfolding begun shutdown start
  begun-Started (ok _) app now same = ground arith
  begun-Started (raised e) app now same = ground arith

  -- A start with a database that is set up does not raise, adds one log handler, and tries to
  -- disable each of the four NTP services, in their order, whatever `systemctl` answers. If the
  -- configuration can be reloaded, the reader's task and the writer thread run, and the shutdown
  -- does not raise; otherwise the task has failed, no thread was started, and the exception comes
  -- only at the shutdown.
  pub startup-Started :
      (repr : Json → Text) (systemctl : String → Result ℕ) (app : App Number)
      → let after = begin_task repr (startup (ok tt) systemctl app).1 in
        ((startup (ok tt) systemctl app).0 ≡ ok tt)
        × (after.log_handlers ≡ suc app.log_handlers)
        × (map service_of after.ntp_attempts ≡ map service_of app.ntp_attempts ++ ntp_services)
        × (after.backend ≡ (reload_config repr app.backend).1)
        × Started (reload_config repr app.backend).0 app after
  unfolding startup begin_task disable_ntp_client install_log_capture
  startup-Started repr systemctl app =
      let (result, backend) = reload_config repr app.backend in
      let now = record (startup (ok tt) systemctl app).1 { backend = backend } in
      let (begun_well, handlers, stored, attempts) = begun-Started result app now refl in
      (
        refl,
        handlers,
        ap (map service_of) attempts
            ∙ map-append service_of app.ntp_attempts (disable_ntp_client systemctl)
            ∙ ap (λ l. map service_of app.ntp_attempts ++ l)
                (map-disable_all systemctl ntp_services),
        stored,
        begun_well,
      )
