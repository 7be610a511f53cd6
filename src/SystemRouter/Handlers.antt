-- ===== src/SystemRouter/Handlers.antt =====
-- `update_system_config`, and the handlers of the three buttons.
use mo_ip_checker.Base.{
  String, Option, none, some, List, [], ◌∷◌, ◌++◌, Text, string_eq, if◌then◌else◌,
}
use mo_ip_checker.Base.Dict
use mo_ip_checker.Base.Dict.{Dict}
use mo_ip_checker.Base.Exec.{Exec, attempt, modify, pure, ◌>>=◌, ◌>>◌}
use mo_ip_checker.Json.{Json, str}
use mo_ip_checker.Files.{Files}
use mo_ip_checker.ConfigStore.Store.{update_section, render_ptp4l_conf}
use mo_ip_checker.SystemRouter.Netplan.{Yaml, Disk, Netplan, NicIpConfig, write_netplan, is_some}
use mo_ip_checker.SystemRouter.Tasks.{Task, restart_system, reboot_os, shutdown_os}

pub record NicAssignment : Type 0 where
  pub media_nic_amber : Option Text
  pub media_nic_blue : Option Text
  pub control_nic : Option Text

pub record SystemConfigUpdate : Type 0 where
  pub nics : Option NicAssignment
  pub ip_addresses : Option (List NicIpConfig)

-- The files, and the background tasks of the request.
pub record System (Document : Type 0) : Type 0 where
  pub files : Files
  pub netplan : Netplan Document
  pub tasks : List Task

abbrev pub on_files : {A Document : Type 0} → Exec Files A → Exec (System Document) A
on_files m s = let (result, files) = m s.files in (result, record s { files = files })

abbrev pub on_netplan : {A Document : Type 0} → Exec (Netplan Document) A → Exec (System Document) A
on_netplan m s = let (result, netplan) = m s.netplan in (result, record s { netplan = netplan })

abbrev pub add_task : {Document : Type 0} → Task → System Document → System Document
add_task task s = record s { tasks = s.tasks ++ task ∷ [] }

abbrev given : String → Option Text → Dict String Json
given key none = []
given key (some value) = (key, str value) ∷ []

-- The fields of `model_dump()` that are not `None`
unfoldable pub updates_of : NicAssignment → Dict String Json
updates_of nics =
    given "media_nic_amber" nics.media_nic_amber
    ++ given "media_nic_blue" nics.media_nic_blue
    ++ given "control_nic" nics.control_nic

module _ (repr : Json → Text) (Y : Yaml) (D : Disk Y.Document) where
  -- A render that raises is logged.
  unfoldable pub regenerate : Dict String Json → Exec Files (Unit {0})
  unfolding string_eq
  regenerate updates =
      if is_some (Dict.get "media_nic_amber" updates)
      then attempt (render_ptp4l_conf repr >> pure tt) (λ e. pure tt)
      else pure tt

  unfoldable pub assign_nics : Dict String Json → Exec (System Y.Document) (List String)
  assign_nics [] = pure []
  assign_nics (update ∷ updates) = do
    on_files (update_section "system" (update ∷ updates))
    on_files (regenerate (update ∷ updates))
    modify (add_task restart_system)
    pure ("system_restart" ∷ [])

  unfoldable pub assign_given : Option NicAssignment → Exec (System Y.Document) (List String)
  assign_given none = pure []
  assign_given (some nics) = assign_nics (updates_of nics)

  unfoldable pub set_addresses : Option (List NicIpConfig) → Exec (System Y.Document) (List String)
  set_addresses none = pure []
  set_addresses (some []) = pure []
  set_addresses (some (cfg ∷ configs)) = do
    on_netplan (write_netplan Y D (cfg ∷ configs))
    modify (add_task reboot_os)
    pure ("os_reboot" ∷ [])

  -- The `actions` of the reply
  unfoldable pub update_system_config : SystemConfigUpdate → Exec (System Y.Document) (List String)
  update_system_config patch = do
    assigned ← assign_given patch.nics
    addressed ← set_addresses patch.ip_addresses
    pure (assigned ++ addressed)

unfoldable pub restart : {Document : Type 0} → System Document → String × System Document
restart s = ("restarting", add_task restart_system s)

unfoldable pub reboot_server : {Document : Type 0} → System Document → String × System Document
reboot_server s = ("rebooting", add_task reboot_os s)

unfoldable pub shutdown_server : {Document : Type 0} → System Document → String × System Document
shutdown_server s = ("shutting_down", add_task shutdown_os s)
