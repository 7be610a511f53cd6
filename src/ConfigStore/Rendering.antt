-- ===== src/ConfigStore/Rendering.antt =====
-- What `render_ptp4l_conf` writes: the template with the values of the configuration.
use mo_ip_checker.Base.{◌≡◌, refl, ap, List, [], ◌∷◌, Text, codes}
use mo_ip_checker.Base.Dict.{Dict}
use mo_ip_checker.Base.Exec.{Result, ok, raised, pure, bind_from}
use mo_ip_checker.Json.{Json, subscript}
use mo_ip_checker.Files.{Files, plain, read_text, replace-put}
use mo_ip_checker.ConfigStore.Template.{substitute}
use mo_ip_checker.ConfigStore.Template.Pieces.{Piece, printed, ArePieces, filled}
use mo_ip_checker.ConfigStore.Template.Scanned.{substitute-printed}
use mo_ip_checker.ConfigStore.Store.{
  fill_template_on, put_file, render_ptp4l_conf_on, write_conf_on, conf_tmp_path, conf_path,
  template_path, load_config, write_conf, str_of, fill_template, render_ptp4l_conf,
}

-- A configuration with every value that the template may ask for
pub record Settings (fs : Files) : Type 0 where
  pub config : Json
  pub ptp : Json
  pub system : Json
  pub domain : Json
  pub priority1 : Json
  pub priority2 : Json
  pub sync_interval : Json
  pub announce_interval : Json
  pub delay_request_interval : Json
  pub interface : Json
  pub loaded : load_config fs ≡ (ok config, fs)
  pub has_ptp : subscript config "ptp" ≡ ok ptp
  pub has_system : subscript config "system" ≡ ok system
  pub has_interface : subscript system "media_nic_amber" ≡ ok interface
  pub has_domain : subscript ptp "domain" ≡ ok domain
  pub has_priority1 : subscript ptp "priority1" ≡ ok priority1
  pub has_priority2 : subscript ptp "priority2" ≡ ok priority2
  pub has_sync_interval : subscript ptp "sync_interval" ≡ ok sync_interval
  pub has_announce_interval : subscript ptp "announce_interval" ≡ ok announce_interval
  pub has_delay_request_interval :
      subscript ptp "delay_request_interval" ≡ ok delay_request_interval

module _ (repr : Json → Text) where
  abbrev pub values : {fs : Files} → Settings fs → Dict Text Text
  values r =
      (codes "domain", str_of repr r.domain)
      ∷ (codes "priority1", str_of repr r.priority1)
      ∷ (codes "priority2", str_of repr r.priority2)
      ∷ (codes "sync_interval", str_of repr r.sync_interval)
      ∷ (codes "announce_interval", str_of repr r.announce_interval)
      ∷ (codes "delay_request_interval", str_of repr r.delay_request_interval)
      ∷ (codes "interface", str_of repr r.interface)
      ∷ []

  pub write_conf-result : (result : Result Text) (fs : Files) → (write_conf result fs).0 ≡ result
  unfolding write_conf_on put_file
  write_conf-result (raised e) fs = refl
  write_conf-result (ok text) fs =
      ap (λ o. (bind_from o (λ _. pure text)).0)
        (replace-put conf_tmp_path conf_path (plain text) fs)

  fill_template-values :
      (fs : Files) (r : Settings fs) (template : Text)
      → fill_template repr r.ptp r.interface template fs
        ≡ write_conf (substitute (values r) template) fs
  unfolding fill_template_on
  fill_template-values fs r template =
      rw
        (
          r.has_domain, r.has_priority1, r.has_priority2, r.has_sync_interval,
          r.has_announce_interval, r.has_delay_request_interval,
        )
        refl

  -- If config.json holds every value that the template may ask for, and the template's text is a
  -- series of texts without `$`, of `$$`, of `$name` with no name character behind it and of
  -- `${name}`, then the outcome of `render_ptp4l_conf` is the text in which each placeholder has
  -- become the value of its name as `str` shows it, and `$$` has become `$`, or a `KeyError` if one
  -- of the names has no value.
  pub render_ptp4l_conf-printed :
      (fs : Files) (r : Settings fs) (ps : List Piece)
      → ArePieces ps
      → read_text template_path fs ≡ (ok (printed ps), fs)
      → (render_ptp4l_conf repr fs).0 ≡ filled (values r) ps
  unfolding render_ptp4l_conf_on
  render_ptp4l_conf-printed fs r ps pieces template =
      rw
        (
          r.loaded,
          r.has_ptp,
          r.has_system,
          r.has_interface,
          template,
          fill_template-values fs r (printed ps),
          write_conf-result,
        )
        (substitute-printed (values r) ps pieces)
