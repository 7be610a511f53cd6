-- ===== src/SystemRouter/Frame.antt =====
-- The configuration file across `update_system_config`.
use mo_ip_checker.Base.{
  String, Option, none, some, List, [], ◌∷◌, Text, Bool-cases, inl, inr, string_eq,
}
use mo_ip_checker.Base.Dict.{Dict}
use mo_ip_checker.Base.Dict
use mo_ip_checker.Base.Exec.{pure, bind_from-keeps, attempt-keeps, ◌>>◌}
use mo_ip_checker.Json.{Json}
use mo_ip_checker.Files.{Files}
use mo_ip_checker.ConfigStore.Store.{update_section, render_ptp4l_conf}
use mo_ip_checker.ConfigStore.Sections.{HasSystem, update_section-HasSystem}
use mo_ip_checker.PtpRouter.Frame.{render-HasSystem}
use mo_ip_checker.SystemRouter.Netplan.{Yaml, Disk, NicIpConfig, write_netplan, is_some}
use mo_ip_checker.SystemRouter.Handlers.{
  NicAssignment, SystemConfigUpdate, System, on_files, on_netplan, updates_of, regenerate,
  assign_nics, assign_given, set_addresses, update_system_config,
}

-- config.json holds a dict.
abbrev pub HasConfig : Files → Type 0
HasConfig fs = (system : Option Json) × HasSystem system fs

module _ (repr : Json → Text) (Y : Yaml) (D : Disk Y.Document) where
  abbrev Held : System Y.Document → Type 0
  Held s = HasConfig s.files

  render-HasConfig :
      (fs : Files) → HasConfig fs → HasConfig ((render_ptp4l_conf repr >> pure tt) fs).1
  render-HasConfig fs (system, h) =
      bind_from-keeps HasConfig (render_ptp4l_conf repr fs) (λ _. pure tt)
        (system, render-HasSystem repr fs system h) λ _ t k. k

  regenerate-HasConfig :
      (updates : Dict String Json) (fs : Files)
      → HasConfig fs
      → HasConfig (regenerate repr Y D updates fs).1
  unfolding regenerate
  regenerate-HasConfig updates fs h =
      elim (Bool-cases (is_some (Dict.get "media_nic_amber" updates))) [
        | inl given ↦
            rw (given, regenerate)
              (attempt-keeps HasConfig ((render_ptp4l_conf repr >> pure tt) fs) (λ _. pure tt)
                (render-HasConfig fs h) λ _ t k. k)
        | inr absent ↦ rw (absent, regenerate) h
      ]

  update_section-HasConfig :
      (patch : Dict String Json) (fs : Files)
      → HasConfig fs
      → HasConfig (update_section "system" patch fs).1
  update_section-HasConfig patch fs (system, h) =
      let (after, held, _) = update_section-HasSystem "system" patch fs system h in (after, held)

  assign_nics-Held :
      (updates : Dict String Json) (s : System Y.Document)
      → Held s
      → Held (assign_nics repr Y D updates s).1
  unfolding assign_nics
  assign_nics-Held [] s h = h
  assign_nics-Held (update ∷ updates) s h =
      bind_from-keeps Held (on_files (update_section "system" (update ∷ updates)) s) _
        (update_section-HasConfig (update ∷ updates) s.files h)
        λ _ t k.
          bind_from-keeps Held (on_files (regenerate repr Y D (update ∷ updates)) t) _
            (regenerate-HasConfig (update ∷ updates) t.files k) λ _ t' k'. k'

  assign_given-Held :
      (nics : Option NicAssignment) (s : System Y.Document)
      → Held s
      → Held (assign_given repr Y D nics s).1
  unfolding assign_given
  assign_given-Held none s h = h
  assign_given-Held (some nics) s h = assign_nics-Held (updates_of nics) s h

  set_addresses-Held :
      (addresses : Option (List NicIpConfig)) (s : System Y.Document)
      → Held s
      → Held (set_addresses repr Y D addresses s).1
  unfolding set_addresses
  set_addresses-Held none s h = h
  set_addresses-Held (some []) s h = h
  set_addresses-Held (some (cfg ∷ configs)) s h =
      bind_from-keeps Held (on_netplan (write_netplan Y D (cfg ∷ configs)) s) _ h λ _ t k. k

  pub update_system_config-Held :
      (patch : SystemConfigUpdate) (s : System Y.Document)
      → Held s
      → Held (update_system_config repr Y D patch s).1
  unfolding update_system_config
  update_system_config-Held patch s h =
      bind_from-keeps Held (assign_given repr Y D patch.nics s) _ (assign_given-Held patch.nics s h)
        λ assigned t k.
          bind_from-keeps Held (set_addresses repr Y D patch.ip_addresses t) _
            (set_addresses-Held patch.ip_addresses t k) λ addressed t' k'. k'
