-- ===== src/Monitor/Services.antt =====
-- `disable_ntp_client` of frontend/services/system_monitor.py.
use mo_ip_checker.Base.{ℕ, zero, suc, String, List, [], ◌∷◌}
use mo_ip_checker.Base.Exec.{Result, ok, raised}

abbrev pub ntp_services : List String
ntp_services =
    "systemd-timesyncd.service" ∷ "chrony.service" ∷ "chronyd.service" ∷ "ntp.service" ∷ []

-- What the loop does with one service: `systemctl disable --now`, whose return code is given, is tried,
-- and a failure is logged.
pub data Attempt : Type 0 where
  disabled refused failed : String → Attempt

unfoldable pub attempt_disable : String → Result ℕ → Attempt
attempt_disable service (ok zero) = disabled service
attempt_disable service (ok (suc code)) = refused service
attempt_disable service (raised e) = failed service

unfoldable pub disable_all : (String → Result ℕ) → List String → List Attempt
disable_all systemctl [] = []
disable_all systemctl (service ∷ services) =
    attempt_disable service (systemctl service) ∷ disable_all systemctl services

unfoldable pub disable_ntp_client : (String → Result ℕ) → List Attempt
disable_ntp_client systemctl = disable_all systemctl ntp_services
