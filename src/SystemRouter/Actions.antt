-- ===== src/SystemRouter/Actions.antt =====
-- What `update_system_config` replies and schedules, and what the scheduled tasks do.
use mathlib.Core.List.{append_assoc, append-nil}
use mo_ip_checker.Base.{
  String, ◌≡◌, refl, sym, ap, Bool, true, false, Option, none, some, List, [], ◌∷◌, ◌++◌, Text,
  arith, if◌then◌else◌,
}
use mo_ip_checker.Base.Dict.{Dict}
use mo_ip_checker.Base.Exec.{Exec, Result, ok, raised, pure, bind_from, ◌>>=◌}
use mo_ip_checker.Json.{Json}
use mo_ip_checker.SystemRouter.Netplan.{Yaml, Disk, NicIpConfig}
use mo_ip_checker.SystemRouter.Tasks.{
  Task, restart_system, reboot_os, restart_ptp_container, exit_process, sync, reboot,
  linux_reboot_cmd_restart, run_tasks,
}
use mo_ip_checker.SystemRouter.Handlers.{
  NicAssignment, SystemConfigUpdate, System, updates_of, assign_nics, assign_given, set_addresses,
  update_system_config,
}

-- Whether the request changes the role of a network card, and whether it brings addresses.
abbrev pub has_any {ℓ} : {A : Type ℓ} → List A → Bool
has_any [] = false
has_any (x ∷ xs) = true

abbrev pub changes_nics : Option NicAssignment → Bool
changes_nics none = false
changes_nics (some nics) = has_any (updates_of nics)

abbrev pub changes_addresses : Option (List NicIpConfig) → Bool
changes_addresses none = false
changes_addresses (some configs) = has_any configs

abbrev pub when {ℓ} : {A : Type ℓ} → Bool → A → List A
when b a = if b then a ∷ [] else []

-- The outcome of a part that returns these actions has these tasks behind the earlier ones.
abbrev Schedules :
    {Document : Type 0}
    → Bool
    → String
    → Task
    → System Document
    → Result (List String) × System Document
    → Type 0
Schedules b action task s (raised e, t) = Unit
Schedules b action task s (ok actions, t) =
    (actions ≡ when b action) × (t.tasks ≡ s.tasks ++ when b task)

module _ (repr : Json → Text) (Y : Yaml) (D : Disk Y.Document) where
  assign_nics-Schedules :
      (updates : Dict String Json) (s : System Y.Document)
      → Schedules
          (has_any updates)
          "system_restart"
          restart_system
          s
          (assign_nics repr Y D updates s)
  unfolding assign_nics
  assign_nics-Schedules updates s = ground (arith, append-nil s.tasks)

  assign_given-Schedules :
      (nics : Option NicAssignment) (s : System Y.Document)
      → Schedules
          (changes_nics nics)
          "system_restart"
          restart_system
          s
          (assign_given repr Y D nics s)
  unfolding assign_given
  assign_given-Schedules none s = (refl, sym (append-nil s.tasks))
  assign_given-Schedules (some nics) s = assign_nics-Schedules (updates_of nics) s

  set_addresses-Schedules :
      (addresses : Option (List NicIpConfig)) (s : System Y.Document)
      → Schedules
          (changes_addresses addresses)
          "os_reboot"
          reboot_os
          s
          (set_addresses repr Y D addresses s)
  unfolding set_addresses
  set_addresses-Schedules addresses s = ground (arith, append-nil s.tasks)

  both-Schedules :
      (b c : Bool) (s : System Y.Document) (r : Result (List String) × System Y.Document)
      (k : Exec (System Y.Document) (List String))
      → Schedules b "system_restart" restart_system s r
      → ((t : System Y.Document) → Schedules c "os_reboot" reboot_os t (k t))
      → {actions : List String} {t : System Y.Document}
      → bind_from r (λ first. k >>= λ second. pure (first ++ second)) ≡ (ok actions, t)
      → (actions ≡ when b "system_restart" ++ when c "os_reboot")
        × (t.tasks ≡ s.tasks ++ (when b restart_system ++ when c reboot_os))
  both-Schedules b c s (raised e, t) k first second h = absurd (cc (ap (λ o. o.0) h))
  both-Schedules b c s (ok taken, t) k first second h =
      ground
        (arith, append_assoc s.tasks (when b restart_system) (when c reboot_os), first, second t)

  module _ (patch : SystemConfigUpdate) (s : System Y.Document) {actions : List String}
      {t : System Y.Document} where
    -- A call of `update_system_config` that returns replies with `system_restart` exactly if the
    -- request gives some network card a role, then with `os_reboot` exactly if it brings an address
    -- configuration, and schedules the tasks of these actions, in this order, behind those
    -- scheduled before.
    pub update_system_config-tasks :
        update_system_config repr Y D patch s ≡ (ok actions, t)
        → (actions
            ≡ when (changes_nics patch.nics) "system_restart"
              ++ when (changes_addresses patch.ip_addresses) "os_reboot")
          × (t.tasks
              ≡ s.tasks
                ++ (when (changes_nics patch.nics) restart_system
                    ++ when (changes_addresses patch.ip_addresses) reboot_os))
    unfolding update_system_config
    update_system_config-tasks h =
        both-Schedules (changes_nics patch.nics) (changes_addresses patch.ip_addresses) s
          (assign_given repr Y D patch.nics s) (set_addresses repr Y D patch.ip_addresses)
          (assign_given-Schedules patch.nics s) (set_addresses-Schedules patch.ip_addresses) h

    -- For a request with no tasks before it that `update_system_config` accepts, the tasks restart
    -- the PTP container and end the process if the request gives some network card a role, whether
    -- or not it also brings addresses, and only otherwise, if it brings addresses, they reboot the
    -- host; a request with neither does nothing.
    pub run_tasks-update_system_config :
        s.tasks ≡ []
        → update_system_config repr Y D patch s ≡ (ok actions, t)
        → run_tasks t.tasks ≡ (
            if changes_nics patch.nics
            then restart_ptp_container ∷ exit_process ∷ []
            else if changes_addresses patch.ip_addresses
            then sync ∷ reboot linux_reboot_cmd_restart ∷ []
            else [])
    unfolding run_tasks
    run_tasks-update_system_config fresh h = ground (arith, update_system_config-tasks h, fresh)
