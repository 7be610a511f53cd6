-- ===== src/Tests/Store.antt =====
-- The functions of the configuration on a small configuration.
use mo_ip_checker.Base.{String, ◌≡◌, refl, [], ◌∷◌, codes, ◌==◌, string_eq, if◌then◌else◌}
use mo_ip_checker.Base.Int.{pos, negsuc}
use mo_ip_checker.Base.Dict
use mo_ip_checker.Base.Dict.{Dict, latest}
use mo_ip_checker.Base.Exec.{ok, os_error}
use mo_ip_checker.Json.{Json, num, str, fields, of_dict, object}
use mo_ip_checker.Files.{json, plain, Files}
use mo_ip_checker.ConfigStore.Store.{
  config_path, config_tmp_path, conf_path, conf_tmp_path, template_path, Save, cut, completed,
  load_config, save_config, save_config_on, update_section, update_section_on, render_ptp4l_conf_on,
}
use mo_ip_checker.ConfigStore.Saving.{load_config-save_config}
use mo_ip_checker.ConfigStore.Atomic.{
  Atomic, save_config_on-Atomic, update_section_on-Atomic, render_ptp4l_conf_on-Atomic,
}
use mo_ip_checker.ConfigStore.Updates.{section_of, setting, update_section_settings}

abbrev ptp : Dict String Json
ptp =
    ("domain", num (pos 127))
    ∷ ("priority1", num (pos 128))
    ∷ ("priority2", num (pos 128))
    ∷ ("sync_interval", num (negsuc 2))
    ∷ ("announce_interval", num (pos 0))
    ∷ ("delay_request_interval", num (negsuc 2))
    ∷ []

abbrev config : Dict String Json
config =
    ("ptp", object ptp)
    ∷ ("system", object (("media_nic_amber", str (codes "eth0")) ∷ []))
    ∷ ("name", str (codes "checker"))
    ∷ []

abbrev disk : Files
disk =
    (config_path, json (object config))
    ∷ (template_path, plain (codes "[$interface]\ndomain ${domain}\n"))
    ∷ []

abbrev patch : Dict String Json
patch = ("domain", num (pos 5)) ∷ []

-- The disk is full after the first character.
abbrev full : Save
full = cut os_error (codes "{")

save_config_on-Atomic_example :
    Atomic config_path config_tmp_path
      (λ _. json (object patch))
      disk
      (save_config_on full (object patch) disk)
    × ((save_config_on completed (object patch) disk).0 ≡ ok tt)
save_config_on-Atomic_example = save_config_on-Atomic full (object patch) disk

update_section_on-Atomic_example :
    Atomic config_path config_tmp_path json disk (update_section_on full "ptp" patch disk)
update_section_on-Atomic_example = update_section_on-Atomic full "ptp" patch disk

render_ptp4l_conf_on-Atomic_example :
    Atomic conf_path conf_tmp_path plain disk (render_ptp4l_conf_on (λ _. []) completed disk)
render_ptp4l_conf_on-Atomic_example = render_ptp4l_conf_on-Atomic (λ _. []) completed disk

update_section_settings_example :
    (new : Json) × ((update_section "ptp" patch disk).0 ≡ ok new)
    × (load_config (update_section "ptp" patch disk).1
        ≡ (ok new, (update_section "ptp" patch disk).1))
    × ((s k : String)
        → setting s k new
          ≡ (if s == "ptp" then latest k (Dict.get k ptp) patch else setting s k (object config)))
update_section_settings_example =
    update_section_settings "ptp" patch disk {config = of_dict config} {old = ptp}
      (unfold load_config Dict.get string_eq in refl)
      (unfold section_of fields of_dict Dict.get string_eq in refl)

load_config-save_config_example :
    load_config (save_config (object patch) disk).1
    ≡ (ok (object patch), (save_config (object patch) disk).1)
load_config-save_config_example = load_config-save_config (object patch) disk
