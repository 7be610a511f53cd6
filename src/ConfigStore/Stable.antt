-- ===== src/ConfigStore/Stable.antt =====
-- The text that `render_ptp4l_conf` makes depends on the configuration and on the template only, and the
-- call changes neither.
use mathlib.Core.Path.{subst}
use mo_ip_checker.Base.{
  false, some, ◌==◌, ==-self, String, ◌≡◌, refl, sym, ◌∙◌, ap, Text, arith, string_eq,
}
use mo_ip_checker.Base.Dict
use mo_ip_checker.Base.Exec.{Exec, Result, ok, raised, lift, bind_from, ◌>>=◌}
use mo_ip_checker.Json.{Json, subscript}
use mo_ip_checker.Files.{Files, plain, read_text, read_json}
use mo_ip_checker.ConfigStore.Store.{
  fill_template_on, render_ptp4l_conf_on, config_path, conf_path, conf_tmp_path, template_path,
  load_config, fill_template, render_ptp4l_conf,
}
use mo_ip_checker.ConfigStore.Saving.{
  Rendered, render_ptp4l_conf_files, load_config-lift, read_text-lift,
}
use mo_ip_checker.ConfigStore.Rendering.{write_conf-result}

module _ (fs after : Files) where
  lift-same :
      {A : Type 0} (r : Result A) (k : A → Exec Files Text)
      → ((a : A) → (k a after).0 ≡ (k a fs).0)
      → ((lift r >>= k) after).0 ≡ ((lift r >>= k) fs).0
  lift-same (ok a) k h = h a
  lift-same (raised e) k h = refl

  read-same :
      {A : Type 0} (m : Exec Files A) (k : A → Exec Files Text)
      → ((s : Files) → m s ≡ lift (m s).0 s)
      → (m after).0 ≡ (m fs).0
      → ((a : A) → (k a after).0 ≡ (k a fs).0)
      → ((m >>= k) after).0 ≡ ((m >>= k) fs).0
  read-same m k reads same h =
      ap (λ o. (bind_from o k).0) (reads after)
      ∙ ap (λ r. ((lift r >>= k) after).0) same
      ∙ lift-same (m fs).0 k h
      ∙ sym (ap (λ o. (bind_from o k).0) (reads fs))

  load_config-same :
      Dict.get config_path after ≡ Dict.get config_path fs
      → (load_config after).0 ≡ (load_config fs).0
  unfolding load_config read_json
  load_config-same e = ground arith

  pub read_text-same :
      (path : String)
      → Dict.get path after ≡ Dict.get path fs
      → (read_text path after).0 ≡ (read_text path fs).0
  unfolding read_text
  read_text-same path e = ground arith

  module _ (repr : Json → Text) where
    fill_template-same :
        (ptp interface : Json) (template : Text)
        → (fill_template repr ptp interface template after).0
          ≡ (fill_template repr ptp interface template fs).0
    unfolding fill_template_on
    fill_template-same ptp interface template = lift-same (subscript ptp "domain") _ λ domain.
        lift-same (subscript ptp "priority1") _ λ priority1.
          lift-same (subscript ptp "priority2") _ λ priority2.
            lift-same (subscript ptp "sync_interval") _ λ sync.
              lift-same (subscript ptp "announce_interval") _ λ announce.
                lift-same (subscript ptp "delay_request_interval") _
                  λ delay. write_conf-result repr _ after ∙ sym (write_conf-result repr _ fs)

    -- Two stores with the same config.json and the same template give the same outcome.
    pub render_ptp4l_conf-same :
        Dict.get config_path after ≡ Dict.get config_path fs
        → Dict.get template_path after ≡ Dict.get template_path fs
        → (render_ptp4l_conf repr after).0 ≡ (render_ptp4l_conf repr fs).0
    unfolding render_ptp4l_conf_on
    render_ptp4l_conf-same config template =
        read-same load_config _ load_config-lift (load_config-same config) λ value.
          lift-same (subscript value "ptp") _ λ ptp.
            lift-same (subscript value "system") _ λ system.
              lift-same (subscript system "media_nic_amber") _ λ interface.
                read-same (read_text template_path) _ (read_text-lift template_path)
                  (read_text-same template_path template)
                  λ text. fill_template-same ptp interface text

pub conf_path-Rendered :
    (fs : Files) (o : Result Text × Files) {text : Text} {after : Files}
    → Rendered fs o
    → o ≡ (ok text, after)
    → Dict.get conf_path after ≡ some (plain text)
conf_path-Rendered fs o h e = subst (λ o. Rendered fs o) e h conf_path ∙ rw ==-self

kept-Rendered :
    (path : String) (fs : Files) (o : Result Text × Files) {text : Text} {after : Files}
    → (path == conf_path) ≡ false
    → (path == conf_tmp_path) ≡ false
    → Rendered fs o
    → o ≡ (ok text, after)
    → Dict.get path after ≡ Dict.get path fs
kept-Rendered path fs o other other_tmp h e =
    subst (λ o. Rendered fs o) e h path ∙ rw (other, other_tmp)

pub render_ptp4l_conf-again :
    (repr : Json → Text) (fs : Files) {text : Text} {after : Files}
    → render_ptp4l_conf repr fs ≡ (ok text, after)
    → (render_ptp4l_conf repr after).0 ≡ ok text
unfolding string_eq
render_ptp4l_conf-again repr fs {text} {after} e =
    let o = render_ptp4l_conf repr fs in
    let all = render_ptp4l_conf_files repr fs in
    render_ptp4l_conf-same fs after repr (kept-Rendered config_path fs o refl refl all e)
      (kept-Rendered template_path fs o refl refl all e)
    ∙ ap (λ o. o.0) e
