-- ===== src/PtpRouter/Requested.antt =====
-- The settings that are stored, rendered and in force after a request is accepted.
use mathlib.Core.Path.{subst}
use mo_ip_checker.Base.{
  String, ◌≡◌, sym, ◌∙◌, ap, some, Text, arith, ◌==◌, ==-self, string_eq, if◌then◌else◌,
}
use mo_ip_checker.Base.Dict
use mo_ip_checker.Base.Dict.{Dict, latest}
use mo_ip_checker.Base.Exec.{Result, ok, lift, pure, ok-injective, ◌>>=◌, ◌>>◌}
use mo_ip_checker.Json.{Json, obj, Fields, fields, subscript}
use mo_ip_checker.Files.{Files, json}
use mo_ip_checker.ConfigStore.Store.{config_path, save_config, update_section}
use mo_ip_checker.ConfigStore.Saving.{get-save_config}
use mo_ip_checker.ConfigStore.Updates.{
  section_of, setting, update_section-updated, updated-section_of, update_section_settings,
}
use mo_ip_checker.PtpRouter.Handlers.{
  Backend, PtpConfigUpdate, apply_config, update_ptp_config, import_config, ptp_updates,
}
use mo_ip_checker.PtpRouter.Import.{
  load_config-json, apply_config-config_path, merged-settings, import_config-stored,
}
use mo_ip_checker.PtpRouter.Apply.{IsApplied, update_ptp_config-IsApplied, import_config-IsApplied}

-- The call leaves this value in config.json.
pub update_section-stored :
    (section : String) (patch : Dict String Json) (fs : Files) {config : Fields}
    {old : Dict String Json}
    → Dict.get config_path fs ≡ some (json (obj config))
    → section_of (Dict.get section (fields config)) ≡ some old
    → (new : Json) × (update_section section patch fs ≡ (ok new, (save_config new fs).1))
      × (Dict.get config_path (save_config new fs).1 ≡ some (json new))
      × ((s k : String)
          → setting s k new
            ≡ (if s == section then latest k (Dict.get k old) patch else setting s k (obj config)))
update_section-stored section patch fs {config} {old} held dict =
    let loaded = load_config-json held in
    let (new, made, _, settings) = update_section_settings section patch fs loaded dict in
    let e =
      update_section-updated section patch fs loaded
        (updated-section_of section patch fs config dict) in
    let same = ok-injective (sym (ap (λ o. o.0) e) ∙ made) in
    (
      new,
      subst (λ v. update_section section patch fs ≡ (ok v, (save_config v fs).1)) same e,
      get-save_config config_path new fs ∙ rw ==-self,
      settings,
    )

module _ {Number : Type 0} (repr : Json → Text) where
  replied-config_path :
      {B : Type 0} (r : Result Json) (f : Json → B) (b : Backend Number)
      → Dict.get config_path ((apply_config repr >> (lift r >>= λ ptp. pure (f ptp))) b).1.files
        ≡ Dict.get config_path b.files
  replied-config_path r f b = ground (arith, apply_config-config_path repr b)

  -- After the section is updated, the handler leaves config.json alone.
  update_ptp_config-config_path :
      (patch : PtpConfigUpdate) (b : Backend Number) (new : Json) (fs : Files)
      → update_section "ptp" (ptp_updates patch) b.files ≡ (ok new, fs)
      → Dict.get config_path (update_ptp_config repr patch b).1.files ≡ Dict.get config_path fs
  unfolding update_ptp_config
  update_ptp_config-config_path patch b new fs made =
      rw made (replied-config_path (subscript new "ptp") _ (record b { files = fs }))

  -- Suppose config.json holds a dict whose `ptp` is a dict or missing. After a change of the PTP
  -- settings that returns, config.json holds the configuration in which every key of `ptp` that the
  -- request gives has the value of the request, and every other key of this and of the other
  -- sections the value that it had; the log reader judges by the limits of this section and has
  -- otherwise its state from before; ptp4l.conf holds the text that `render_ptp4l_conf` makes of
  -- the stored configuration; and one restart more of the PTP container is scheduled.
  pub update_ptp_config-requested :
      (patch : PtpConfigUpdate) (b : Backend Number) {config : Fields} {old : Dict String Json}
      {reply : Json} {t : Backend Number}
      → Dict.get config_path b.files ≡ some (json (obj config))
      → section_of (Dict.get "ptp" (fields config)) ≡ some old
      → update_ptp_config repr patch b ≡ (ok reply, t)
      → (r : IsApplied repr b t) × ((s k : String)
          → setting s k r.config ≡ (
              if s == "ptp"
              then latest k (Dict.get k old) (ptp_updates patch)
              else setting s k (obj config)))
  unfolding update_ptp_config
  update_ptp_config-requested patch b {config} {old} {reply} {t} held dict h =
      let r = update_ptp_config-IsApplied repr patch b h in
      let (new, made, stored, settings) =
        update_section-stored "ptp" (ptp_updates patch) b.files held dict in
      let kept : Dict.get config_path t.files ≡ some (json new) =
        ap (λ o. Dict.get config_path o.1.files) (sym h)
        ∙ update_ptp_config-config_path patch b new _ made
        ∙ stored in
      let same : new ≡ r.config =
        ok-injective (sym (ap (λ o. o.0) (load_config-json kept)) ∙ ap (λ o. o.0) r.loaded) in
      (
        r,
        subst
            (λ c.
              (s k : String)
              → setting s k c ≡ (
                  if s == "ptp"
                  then latest k (Dict.get k old) (ptp_updates patch)
                  else setting s k (obj config)))
            same settings,
      )

  -- Suppose config.json holds a dict, and the upload is one. After an import that returns,
  -- config.json holds a dict with the value of `system` that it had, and for every other key with
  -- the latest value that the upload gives it, or its old one if it gives none; the log reader
  -- judges by the limits of its `ptp` section and has otherwise its state from before; ptp4l.conf
  -- holds the text that `render_ptp4l_conf` makes of the stored configuration; and one restart more
  -- of the PTP container is scheduled.
  pub import_config-requested :
      (items : Fields) (b : Backend Number) {config : Fields} {reply : String} {t : Backend Number}
      → Dict.get config_path b.files ≡ some (json (obj config))
      → import_config repr (ok (obj items)) b ≡ (ok reply, t)
      → (r : IsApplied repr b t) × (new : Fields) × (r.config ≡ obj new)
        × ((k : String)
            → Dict.get k (fields new) ≡ (
                if k == "system"
                then Dict.get k (fields config)
                else latest k (Dict.get k (fields config)) (fields items)))
  import_config-requested items b {config} {reply} {t} held h =
      let r = import_config-IsApplied repr (ok (obj items)) b h in
      let (new, stored, settings) = merged-settings repr items b config in
      let kept : Dict.get config_path t.files ≡ some (json (obj new)) =
        ap (λ o. Dict.get config_path o.1.files) (sym h)
        ∙ import_config-stored repr items b held
        ∙ stored in
      let same : r.config ≡ obj new =
        ok-injective (sym (ap (λ o. o.0) r.loaded) ∙ ap (λ o. o.0) (load_config-json kept)) in
      (r, new, same, settings)
