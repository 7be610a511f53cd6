-- ===== src/Tests/Status.antt =====
-- The public status at the start, and two restarts at once.
use mo_ip_checker.Base.{String, ◌≡◌, refl, false, none, [], if◌then◌else◌, string_eq}
use mo_ip_checker.Base.Dict
use mo_ip_checker.Base.Dict.{Dict}
use mo_ip_checker.Base.Int.{ℤ}
use mo_ip_checker.Base.Exec.{ok}
use mo_ip_checker.Json.{Json, object}
use mo_ip_checker.Json.Dumps.{dumps_ascii}
use mo_ip_checker.LogReader.State.{Reader, initial}
use mo_ip_checker.LogReader.Tick.{get_status}
use mo_ip_checker.PtpRouter.Handlers.{Backend, public_fields}
use mo_ip_checker.PtpRouter.Status.{
  external_ptp_status, stream_event, is_in, external_ptp_status-public,
}
use mo_ip_checker.PtpRouter.Restarts.{Restarts, Restarts-overlap}
use mo_ip_checker.Tests.Fixtures.{noon}

abbrev fresh : Reader ℤ
fresh = initial noon

external_ptp_status-public_example :
    (d : Dict String Json) × (external_ptp_status fresh ≡ ok d)
    × (stream_event fresh ≡ ok (dumps_ascii (object d)))
    × ((k : String)
        → Dict.get k d ≡ (if is_in k public_fields then Dict.get k (get_status fresh) else none))
external_ptp_status-public_example = external_ptp_status-public fresh

abbrev scheduled : Backend ℤ
scheduled = record { files = []; reader = fresh; restarts = 2 }

Restarts-overlap_example : (b : Backend ℤ) × Restarts scheduled b 1 × (b.reader.restarting ≡ false)
Restarts-overlap_example = Restarts-overlap scheduled 0 refl
