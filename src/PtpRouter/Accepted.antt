-- ===== src/PtpRouter/Accepted.antt =====
-- When a change of the PTP settings is accepted.
use mo_ip_checker.Base.{
  ◌≡◌, refl, ◌∙◌, ap, true, some, List, [], ◌∷◌, Text, codes, ==-self, string_eq,
}
use mo_ip_checker.Base.Dict
use mo_ip_checker.Base.Dict.{Dict}
use mo_ip_checker.Base.Exec.{Result, ok, bind_from-returns}
use mo_ip_checker.Json.{Json, bool, str, obj, Fields, fields, of_dict, object}
use mo_ip_checker.Files.{Files, json, read_text}
use mo_ip_checker.ConfigStore.Store.{config_path, template_path, save_config, render_ptp4l_conf}
use mo_ip_checker.ConfigStore.Saving.{render_ptp4l_conf_files, get-save_config, read_text-lift}
use mo_ip_checker.ConfigStore.Stable.{read_text-same}
use mo_ip_checker.ConfigStore.Template.Pieces.{Piece, printed, ArePieces}
use mo_ip_checker.ConfigStore.Template.Known.{AreKnown, filled-returns}
use mo_ip_checker.ConfigStore.Rendering.{values, render_ptp4l_conf-printed}
use mo_ip_checker.ConfigStore.Updates.{section_of, update_section-updated, updated-section_of}
use mo_ip_checker.LogReader.State.{Reader, reload_from}
use mo_ip_checker.PtpRouter.Handlers.{
  Backend, PtpConfigUpdate, on_files, reload_config, apply_config, update_ptp_config, ptp_updates,
}
use mo_ip_checker.PtpRouter.Import.{load_config-json, config_path-kept}
use mo_ip_checker.PtpRouter.Complete.{
  IsComplete, put-IsComplete, get-put_section, Settings-from, subscript-some, placeholders,
  is_among, values-is_among,
}

-- A template of pieces of which every name has a value
pub record IsTemplate (fs : Files) : Type 0 where
  pub pieces : List Piece
  pub are_pieces : ArePieces pieces
  pub are_known : AreKnown (is_among placeholders) pieces
  pub read : read_text template_path fs ≡ (ok (printed pieces), fs)

IsTemplate-after :
    (fs after : Files)
    → Dict.get template_path after ≡ Dict.get template_path fs
    → IsTemplate fs
    → IsTemplate after
IsTemplate-after fs after same t = record {
  pieces = t.pieces;
  are_pieces = t.are_pieces;
  are_known = t.are_known;
  read =
      read_text-lift template_path after
      ∙ ap (λ (r : Result Text). (r, after))
          (read_text-same fs after template_path same ∙ ap (λ o. o.0) t.read);
}

module _ (repr : Json → Text) where
  render-returns :
      (fs : Files) {config : Fields}
      → Dict.get config_path fs ≡ some (json (obj config))
      → IsComplete config
      → IsTemplate fs
      → (text : Text) × ((render_ptp4l_conf repr fs).0 ≡ ok text)
  render-returns fs held c t =
      let r = Settings-from fs held c in
      let (text, e) =
        filled-returns (is_among placeholders) (values repr r) (values-is_among repr fs r) t.pieces
          t.are_known in
      (text, render_ptp4l_conf-printed repr fs r t.pieces t.are_pieces t.read ∙ e)

module _ {Number : Type 0} (repr : Json → Text) where
  reload_from-returns :
      {config : Fields} (c : IsComplete config) (r : Reader Number)
      → (reload_from (obj c.ptp) r).0 ≡ ok tt
  unfolding reload_from
  reload_from-returns c r =
      let (d, (p1, (p2, (s, (a, (q, (th, (st, (al, rest))))))))) = c.given in
      rw
        (
          subscript-some c.ptp "lock_threshold_ns" th.1,
          subscript-some c.ptp "lock_stable_sec" st.1,
          subscript-some c.ptp "offset_alert_threshold_ns" al.1,
          subscript-some c.ptp "sync_interval" s.1,
        )
        refl

  reload_config-returns :
      (b : Backend Number) {config : Fields}
      → Dict.get config_path b.files ≡ some (json (obj config))
      → IsComplete config
      → (reload_config repr b).0 ≡ ok tt
  unfolding reload_config
  reload_config-returns b {config} held c =
      rw (load_config-json held, subscript-some config "ptp" c.has_ptp)
        (reload_from-returns c b.reader)

  apply_config-returns :
      (b : Backend Number) {config : Fields}
      → Dict.get config_path b.files ≡ some (json (obj config))
      → IsComplete config
      → IsTemplate b.files
      → (apply_config repr b).0 ≡ ok tt
  unfolding apply_config
  apply_config-returns b held c t =
      let (text, e) = render-returns repr b.files held c t in
      let o = render_ptp4l_conf repr b.files in
      let kept = config_path-kept b.files o (render_ptp4l_conf_files repr b.files) ∙ held in
      let s : Backend Number = record b { files = o.1 } in
      bind_from-returns (on_files repr (render_ptp4l_conf repr) b) _ e
        (bind_from-returns (reload_config repr s) _ (reload_config-returns s kept c) refl)

  -- If config.json holds a dict with the nine keys of the PTP settings in `ptp` and with
  -- `media_nic_amber` in `system`, and the template is a series of texts without `$`, of `$$`, of
  -- `$name` with no name character behind it and of `${name}`, each name one of the seven that the
  -- program fills in, and all that is written reaches the disk, then every change of the PTP
  -- settings returns, with a reply that has the section as the request updates it.
  pub update_ptp_config-returns :
      (patch : PtpConfigUpdate) (b : Backend Number) {config : Fields}
      → Dict.get config_path b.files ≡ some (json (obj config))
      → (c : IsComplete config) → IsTemplate b.files
      → (update_ptp_config repr patch b).0
        ≡ ok (
            object (
              ("status", str (codes "ok"))
              ∷ ("ptp", object (Dict.update (fields c.ptp) (ptp_updates patch)))
              ∷ ("restarting", bool true)
              ∷ []))
  unfolding update_ptp_config section_of
  update_ptp_config-returns patch b {config} held c t =
      let patched = ptp_updates patch in
      let new =
        of_dict (Dict.put "ptp" (object (Dict.update (fields c.ptp) patched)) (fields config)) in
      let made =
        update_section-updated "ptp" patched b.files {new = obj new} (load_config-json held)
          (updated-section_of "ptp" patched b.files config (rw c.has_ptp refl)) in
      let fs = (save_config (obj new) b.files).1 in
      let complete = put-IsComplete patched c in
      let stored = get-save_config config_path (obj new) b.files ∙ rw ==-self in
      let s : Backend Number = record b { files = fs } in
      let done = apply_config-returns s stored complete (
        IsTemplate-after b.files fs
          (get-save_config template_path (obj new) b.files ∙ unfold string_eq in refl) t) in
      rw made (
        bind_from-returns (apply_config repr s) _ done (
          rw
            (subscript-some new "ptp"
              (get-put_section "ptp" (object (Dict.update (fields c.ptp) patched)) config))
            refl))
