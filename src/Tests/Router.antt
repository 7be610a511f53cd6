-- ===== src/Tests/Router.antt =====
-- The settings of the system on two netplan files, with YAML texts that are their values.
use mo_ip_checker.Base.{
  String, ◌≡◌, refl, true, false, Option, none, some, List, [], ◌∷◌, Text, codes, string_eq, All,
  inl,
}
use mo_ip_checker.Base.Int.{pos}
use mo_ip_checker.Base.Dict
use mo_ip_checker.Base.Dict.{Dict}
use mo_ip_checker.Base.Exec.{Result, ok, raised, value_error, key_error}
use mo_ip_checker.Json.{Json, bool, num, object, truthy, of_dict, fields, Fields}
use mo_ip_checker.Files.{json}
use mo_ip_checker.ConfigStore.Store.{
  put_file, save_config_on, update_section_on, config_path, load_config, updated, update_fields,
}
use mo_ip_checker.SystemRouter.Sorted.{sort_keys}
use mo_ip_checker.SystemRouter.Netplan.{
  Yaml, IsYaml, Netplan, NicIpConfig, netplan_name, network_of, write_netplan, neutralize,
  is_foreign, neutralize_file, ethernets_of, get_or_empty, mentioned, mentions, delete_from,
  delete_all, File, disable_cloud_init, Disk, completed, save_own, rewritten,
}
use mo_ip_checker.SystemRouter.Tasks.{
  restart_system, reboot_os, restart_ptp_container, exit_process, run_tasks,
}
use mo_ip_checker.SystemRouter.Handlers.{
  SystemConfigUpdate, System, update_system_config, assign_given, assign_nics, updates_of,
  regenerate, set_addresses,
}
use mo_ip_checker.SystemRouter.Kept.{Keeps, neutralize-Keeps}
use mo_ip_checker.SystemRouter.Twice.{write_netplan-twice}
use mo_ip_checker.SystemRouter.Cleared.{IsClear, write_netplan-IsClear}
use mo_ip_checker.SystemRouter.Actions.{update_system_config-tasks, run_tasks-update_system_config}

pub load : Option Json → Result Json
load none = raised value_error
load (some j) = ok j

abbrev pub values : Yaml
values = record { Document = Option Json; safe_load = load; safe_dump = λ j. some (sort_keys j) }

values-IsYaml : IsYaml values
unfolding load
values-IsYaml = record { load-dump = λ j. refl }

abbrev cloud_network : Json
cloud_network = object (
    (
      "network",
      object (
          ("version", num (pos 2))
          ∷ (
            "ethernets",
            object (("eth0", object (("dhcp4", bool true) ∷ [])) ∷ ("eth1", object []) ∷ []),
          )
          ∷ []),
    )
    ∷ [])

abbrev host : Netplan (Option Json)
host = record {
  cloud_init = none;
  files =
      ("00-broken.yaml", record { text = none; mode = 0o644 })
      ∷ ("50-cloud-init.yaml", record { text = some cloud_network; mode = 0o644 })
      ∷ [];
}

-- A disk on which every write succeeds
abbrev pub healthy : Disk (Option Json)
healthy = record {
  cloud_init = completed;
  foreign = λ name. completed;
  own = completed;
  new_mode = 0o644;
}

abbrev eth0 : NicIpConfig
eth0 = record {
  interface = "eth0";
  dhcp = false;
  address = some (codes "192.168.1.10/24");
  gateway = none;
}

write_netplan-IsClear_example :
    All
      (IsClear values values-IsYaml "eth0")
      (write_netplan values healthy (eth0 ∷ []) host).1.files
    × (Dict.get netplan_name (write_netplan values healthy (eth0 ∷ []) host).1.files
        ≡ some (record { text = some (sort_keys (network_of (eth0 ∷ []))); mode = 0o600 }))
write_netplan-IsClear_example =
    write_netplan-IsClear values values-IsYaml "eth0" healthy (eth0 ∷ []) host (λ name. refl)
      (inl refl)
      (unfold neutralize is_foreign neutralize_file load ethernets_of get_or_empty truthy of_dict
          Dict.get fields mentioned mentions delete_from delete_all write_netplan string_eq
          disable_cloud_init save_own rewritten in
        refl)

abbrev machine : System (Option Json)
machine = record {
  files = (config_path, json (object (("system", object []) ∷ []))) ∷ [];
  netplan = host;
  tasks = [];
}

abbrev request : SystemConfigUpdate
request = record {
  nics =
      some (record {
        media_nic_amber = none;
        media_nic_blue = some (codes "eth1");
        control_nic = none;
      });
  ip_addresses = some (eth0 ∷ []);
}

abbrev no_repr : Json → Text
no_repr j = []

abbrev outcome : Result (List String) × System (Option Json)
outcome = update_system_config no_repr values healthy request machine

abbrev both_actions : List String
both_actions = "system_restart" ∷ "os_reboot" ∷ []

accepted :
    update_system_config no_repr values healthy request machine ≡ (ok both_actions, outcome.1)
unfolding neutralize is_foreign neutralize_file load ethernets_of get_or_empty truthy of_dict
    Dict.get fields mentioned mentions delete_from delete_all write_netplan string_eq
    disable_cloud_init save_own rewritten update_system_config assign_given assign_nics updates_of
    update_section_on put_file load_config updated update_fields save_config_on Dict.put regenerate
    set_addresses
accepted = refl

update_system_config-tasks_example :
    (both_actions ≡ both_actions) × (outcome.1.tasks ≡ restart_system ∷ reboot_os ∷ [])
unfolding updates_of
update_system_config-tasks_example =
    update_system_config-tasks no_repr values healthy request machine accepted

run_tasks-update_system_config_example :
    run_tasks outcome.1.tasks ≡ restart_ptp_container ∷ exit_process ∷ []
unfolding updates_of
run_tasks-update_system_config_example =
    run_tasks-update_system_config no_repr values healthy request machine refl accepted

neutralize-Keeps_example :
    Keeps "eth1" values values-IsYaml host.files
      (neutralize values healthy ("eth0" ∷ []) host.files).1
neutralize-Keeps_example =
    neutralize-Keeps "eth1" values values-IsYaml healthy ("eth0" ∷ []) host.files (λ name. refl)
      (unfold string_eq in refl)

abbrev first_file : File (Option Json)
first_file = record { text = some cloud_network; mode = 0o644 }

abbrev one_file : Netplan (Option Json)
one_file = record { cloud_init = none; files = ("50-cloud-init.yaml", first_file) ∷ [] }

abbrev cloud_ethernets : Fields
cloud_ethernets = of_dict (("eth0", object (("dhcp4", bool true) ∷ [])) ∷ ("eth1", object []) ∷ [])

write_netplan-twice_example :
    write_netplan values healthy (eth0 ∷ eth0 ∷ []) one_file
    ≡ (raised key_error, (disable_cloud_init values healthy one_file).1)
write_netplan-twice_example =
    write_netplan-twice values "eth0" first_file cloud_network (object (("dhcp4", bool true) ∷ []))
      cloud_ethernets healthy one_file eth0 eth0 "50-cloud-init.yaml" [] refl
      (unfold disable_cloud_init in refl) (unfold is_foreign string_eq in refl)
      (unfold load in refl)
      (unfold ethernets_of get_or_empty truthy of_dict fields Dict.get string_eq in refl)
      (unfold of_dict fields Dict.get string_eq in refl) refl refl
