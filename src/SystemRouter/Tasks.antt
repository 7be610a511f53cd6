-- ===== src/SystemRouter/Tasks.antt =====
-- The background tasks of the router, `_do_restart_system`, `_do_reboot_os` and `_do_shutdown_os`, as
-- the calls that each makes of Docker, the C library and the process. Tasks of one request run one
-- after the other. That a call of Docker or of `reboot` fails is logged and changes nothing here.
use mo_ip_checker.Base.{ℕ, List, [], ◌∷◌, ◌++◌}

pub data Task : Type 0 where
  restart_system reboot_os shutdown_os : Task

pub data Call : Type 0 where
  restart_ptp_container exit_process sync : Call
  reboot : ℕ → Call

abbrev pub linux_reboot_cmd_restart : ℕ
linux_reboot_cmd_restart = 0x01234567

abbrev pub linux_reboot_cmd_power_off : ℕ
linux_reboot_cmd_power_off = 0x4321fedc

unfoldable pub reboot_syscall : ℕ → List Call
reboot_syscall howto = sync ∷ reboot howto ∷ []

-- `os._exit` ends the process, and the tasks behind it with it.
unfoldable pub run_tasks : List Task → List Call
unfolding reboot_syscall
run_tasks [] = []
run_tasks (restart_system ∷ tasks) = restart_ptp_container ∷ exit_process ∷ []
run_tasks (reboot_os ∷ tasks) = reboot_syscall linux_reboot_cmd_restart ++ run_tasks tasks
run_tasks (shutdown_os ∷ tasks) = reboot_syscall linux_reboot_cmd_power_off ++ run_tasks tasks
