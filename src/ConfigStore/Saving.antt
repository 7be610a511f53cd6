-- ===== src/ConfigStore/Saving.antt =====
-- What `save_config` and `render_ptp4l_conf` leave on the disk when all that they write is written.
use mathlib.Core.Path.{subst}
use mo_ip_checker.Base.{
  String, ◌≡◌, refl, sym, false, none, some, Text, ◌==◌, ==-self, string_eq, if◌then◌else◌, arith,
}
use mo_ip_checker.Base.Dict
use mo_ip_checker.Base.Dict.{get-put, get-remove}
use mo_ip_checker.Base.Exec.{Exec, Result, ok, raised, lift, modify, pure, bind_from, ◌>>=◌, ◌>>◌}
use mo_ip_checker.Json.{Json, subscript}
use mo_ip_checker.Files.{
  json, plain, Files, read_text, replace, replace-put, get-replaced, read_json-json,
}
use mo_ip_checker.ConfigStore.Store.{
  fill_template_on, put_file, render_ptp4l_conf_on, save_config_on, write_conf_on, config_path,
  config_tmp_path, conf_path, conf_tmp_path, template_path, load_config, save_config,
  render_ptp4l_conf, fill_template, write_conf,
}

config_path-ne-tmp : (config_path == config_tmp_path) ≡ false
unfolding string_eq
config_path-ne-tmp = refl

conf_path-ne-tmp : (conf_path == conf_tmp_path) ≡ false
unfolding string_eq
conf_path-ne-tmp = refl

pub save_config_lem :
    (config : Json) (fs : Files)
    → save_config config fs ≡ (
      ok tt,
      Dict.put config_path
          (json config)
          (Dict.remove config_tmp_path (Dict.put config_tmp_path (json config) fs)),
    )
unfolding save_config_on put_file
save_config_lem config fs = replace-put config_tmp_path config_path (json config) fs

-- After a save every path but the temporary one holds what it held, and config.json the new value.
pub get-save_config :
    (path : String) (config : Json) (fs : Files)
    → Dict.get path (save_config config fs).1 ≡ (
        if path == config_path
        then some (json config)
        else if path == config_tmp_path
        then none
        else Dict.get path fs)
get-save_config path config fs =
    rw save_config_lem (get-replaced path config_tmp_path config_path (json config) fs)

-- Loading after a save gives the saved value, and changes no file.
pub load_config-save_config :
    (config : Json) (fs : Files)
    → load_config (save_config config fs).1 ≡ (ok config, (save_config config fs).1)
unfolding load_config
load_config-save_config config fs =
    read_json-json config_path (save_config config fs).1
      (rw (get-save_config config_path config fs, ==-self))

-- What a call may leave, from its outcome.
abbrev pub Rendered : Files → Result Text × Files → Type 0
Rendered fs (raised e, after) = after ≡ fs
Rendered fs (ok text, after) =
    (path : String)
    → Dict.get path after ≡ (
        if path == conf_path
        then some (plain text)
        else if path == conf_tmp_path
        then none
        else Dict.get path fs)

Rendered-lift :
    {A : Type 0} (fs : Files) (r : Result A) (k : A → Exec Files Text)
    → ((a : A) → Rendered fs (k a fs))
    → Rendered fs ((lift r >>= k) fs)
Rendered-lift fs (ok a) k h = h a
Rendered-lift fs (raised e) k h = refl

Rendered-read :
    {A : Type 0} (fs : Files) (m : Exec Files A) (k : A → Exec Files Text)
    → m fs ≡ lift (m fs).0 fs
    → ((a : A) → Rendered fs (k a fs))
    → Rendered fs ((m >>= k) fs)
Rendered-read fs m k e h =
    subst (λ o. Rendered fs (bind_from o k)) (sym e) (Rendered-lift fs (m fs).0 k h)

Rendered-written :
    (fs : Files) (text : Text)
    → Rendered fs (
        (modify (Dict.put conf_tmp_path (plain text))
            >> (replace conf_tmp_path conf_path >> pure text))
          fs)
Rendered-written fs text =
    subst (λ o. Rendered fs (bind_from o (λ _. pure text)))
      (sym (replace-put conf_tmp_path conf_path (plain text) fs))
      (λ path. get-replaced path conf_tmp_path conf_path (plain text) fs)

-- The two reads change no file.
pub load_config-lift : (fs : Files) → load_config fs ≡ lift (load_config fs).0 fs
unfolding load_config
load_config-lift fs = ground arith

pub read_text-lift :
    (path : String) (fs : Files) → read_text path fs ≡ lift (read_text path fs).0 fs
unfolding read_text
read_text-lift path fs = ground arith

module _ (repr : Json → Text) where
  write_conf-Rendered : (result : Result Text) (fs : Files) → Rendered fs (write_conf result fs)
  unfolding write_conf_on put_file
  write_conf-Rendered result fs = Rendered-lift fs result _ λ text. Rendered-written fs text

  fill_template-Rendered :
      (ptp interface : Json) (template : Text) (fs : Files)
      → Rendered fs (fill_template repr ptp interface template fs)
  unfolding fill_template_on
  fill_template-Rendered ptp interface template fs =
      Rendered-lift fs (subscript ptp "domain") _ λ domain.
        Rendered-lift fs (subscript ptp "priority1") _ λ priority1.
          Rendered-lift fs (subscript ptp "priority2") _ λ priority2.
            Rendered-lift fs (subscript ptp "sync_interval") _ λ sync.
              Rendered-lift fs (subscript ptp "announce_interval") _ λ announce.
                Rendered-lift fs (subscript ptp "delay_request_interval") _
                  λ delay. write_conf-Rendered _ fs

  -- No file is changed if it raises.
  pub render_ptp4l_conf_files : (fs : Files) → Rendered fs (render_ptp4l_conf repr fs)
  unfolding render_ptp4l_conf_on
  render_ptp4l_conf_files fs = Rendered-read fs load_config _ (load_config-lift fs) λ config.
      Rendered-lift fs (subscript config "ptp") _ λ ptp.
        Rendered-lift fs (subscript config "system") _ λ system.
          Rendered-lift fs (subscript system "media_nic_amber") _ λ interface.
            Rendered-read fs (read_text template_path) _ (read_text-lift template_path fs)
              λ template. fill_template-Rendered ptp interface template fs
