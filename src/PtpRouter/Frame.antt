-- ===== src/PtpRouter/Frame.antt =====
-- What the handlers of the PTP settings leave of the log reader and of the configuration.
use mathlib.Core.Path.{subst}
use mo_ip_checker.Base.{◌≡◌, refl, sym, ◌∙◌, Bool, Option, Text, string_eq, arith}
use mo_ip_checker.Base.Dict
use mo_ip_checker.Base.Dict.{Dict}
use mo_ip_checker.Base.Exec.{Exec, Result, lift, bind_from-keeps, ◌>>=◌}
use mo_ip_checker.Json.{Json, subscript}
use mo_ip_checker.Files.{Files}
use mo_ip_checker.ConfigStore.Store.{
  config_path, load_config, save_config, update_section, render_ptp4l_conf,
}
use mo_ip_checker.ConfigStore.Saving.{render_ptp4l_conf_files, load_config-lift}
use mo_ip_checker.ConfigStore.Sections.{HasSystem, update_section-HasSystem}
use mo_ip_checker.DbWriter.Queue.{Queue}
use mo_ip_checker.LogReader.State.{Reader, reload_from}
use mo_ip_checker.LogReader.Invariant.{IsConsistent, reload_from-IsConsistent}
use mo_ip_checker.PtpRouter.Handlers.{
  Backend, PtpConfigUpdate, on_files, on_reader, add_restart, reload_config, apply_config,
  update_ptp_config, import_config, ptp_updates, items_of, import_items,
}
use mo_ip_checker.PtpRouter.Import.{config_path-kept, import_config-system}

pub same_files-HasSystem :
    (fs after : Files) (system : Option Json)
    → Dict.get config_path after ≡ Dict.get config_path fs
    → HasSystem system fs
    → HasSystem system after
same_files-HasSystem fs after system e h = record {
  config = h.config;
  held = e ∙ h.held;
  system_value = h.system_value;
}

pub render-HasSystem :
    (repr : Json → Text) (fs : Files) (system : Option Json)
    → HasSystem system fs
    → HasSystem system (render_ptp4l_conf repr fs).1
render-HasSystem repr fs system h =
    same_files-HasSystem fs _ system
      (config_path-kept fs (render_ptp4l_conf repr fs) (render_ptp4l_conf_files repr fs)) h

load-HasSystem :
    (fs : Files) (system : Option Json) → HasSystem system fs → HasSystem system (load_config fs).1
load-HasSystem fs system h = subst (λ o. HasSystem system o.1) (sym (load_config-lift fs)) h

module _ {Number : Type 0} (repr : Json → Text) where
  -- A reader with this queue and this flag, which is consistent.
  pub record ReaderKept (queue : Queue) (flag : Bool) (b : Backend Number) : Type 0 where
    pub consistent : IsConsistent b.reader
    pub same_queue : b.reader.queue ≡ queue
    pub same_flag : b.reader.restarting ≡ flag

  module _ (queue : Queue) (flag : Bool) where
    abbrev Kept : Backend Number → Type 0
    Kept b = ReaderKept queue flag b

    on_files-Kept :
        {A : Type 0} (m : Exec Files A) (b : Backend Number) → Kept b → Kept (on_files repr m b).1
    on_files-Kept m b h = record {
      consistent = h.consistent;
      same_queue = h.same_queue;
      same_flag = h.same_flag;
    }

    reload_from-kept :
        (ptp : Json) (r : Reader Number)
        → ((reload_from ptp r).1.queue ≡ r.queue)
          × ((reload_from ptp r).1.restarting ≡ r.restarting)
    unfolding reload_from
    reload_from-kept ptp r = ground arith

    on_reader-Kept :
        (ptp : Json) (b : Backend Number) → Kept b → Kept (on_reader repr (reload_from ptp) b).1
    on_reader-Kept ptp b h = record {
      consistent = reload_from-IsConsistent ptp h.consistent;
      same_queue = (reload_from-kept ptp b.reader).0 ∙ h.same_queue;
      same_flag = (reload_from-kept ptp b.reader).1 ∙ h.same_flag;
    }

    lift-Kept :
        {A B : Type 0} (r : Result A) (k : A → Exec (Backend Number) B) (b : Backend Number)
        → Kept b
        → ((a : A) (t : Backend Number) → Kept t → Kept (k a t).1)
        → Kept ((lift r >>= k) b).1
    lift-Kept r k b h keep = bind_from-keeps Kept (r, b) k h keep

    files-Kept :
        {A B : Type 0} (m : Exec Files A) (k : A → Exec (Backend Number) B) (b : Backend Number)
        → Kept b
        → ((a : A) (t : Backend Number) → Kept t → Kept (k a t).1)
        → Kept ((on_files repr m >>= k) b).1
    files-Kept m k b h keep = bind_from-keeps Kept (on_files repr m b) k (on_files-Kept m b h) keep

    pub reload_config-Kept : (b : Backend Number) → Kept b → Kept (reload_config repr b).1
    unfolding reload_config
    reload_config-Kept b h =
        files-Kept load_config _ b h λ config t k.
          lift-Kept (subscript config "ptp") _ t k λ ptp t' k'. on_reader-Kept ptp t' k'

    add_restart-Kept : (b : Backend Number) → Kept b → Kept (add_restart repr b)
    add_restart-Kept b h = record {
      consistent = h.consistent;
      same_queue = h.same_queue;
      same_flag = h.same_flag;
    }

    apply_config-Kept : (b : Backend Number) → Kept b → Kept (apply_config repr b).1
    unfolding apply_config
    apply_config-Kept b h = files-Kept (render_ptp4l_conf repr) _ b h λ text t k.
        bind_from-keeps Kept (reload_config repr t) _ (reload_config-Kept t k)
          λ _ t' k'. add_restart-Kept t' k'

    pub update_ptp_config-Kept :
        (patch : PtpConfigUpdate) (b : Backend Number)
        → Kept b
        → Kept (update_ptp_config repr patch b).1
    unfolding update_ptp_config
    update_ptp_config-Kept patch b h =
        files-Kept (update_section "ptp" (ptp_updates patch)) _ b h λ config t k.
          bind_from-keeps Kept (apply_config repr t) _ (apply_config-Kept t k)
            λ _ t' k'. lift-Kept (subscript config "ptp") _ t' k' λ _ t'' k''. k''

    pub import_config-Kept :
        (imported : Result Json) (b : Backend Number)
        → Kept b
        → Kept (import_config repr imported b).1
    unfolding import_config
    import_config-Kept imported b h = lift-Kept imported _ b h λ value t₁ k₁.
        files-Kept load_config _ t₁ k₁ λ current t₂ k₂.
          lift-Kept (items_of value) _ t₂ k₂ λ items t₃ k₃.
            lift-Kept (import_items items current) _ t₃ k₃ λ changed t₄ k₄.
              files-Kept (save_config changed) _ t₄ k₄ λ _ t₅ k₅.
                bind_from-keeps Kept (apply_config repr t₅) _ (apply_config-Kept t₅ k₅)
                  λ _ t₆ k₆. k₆

  module _ (system : Option Json) where
    abbrev Held : Backend Number → Type 0
    Held b = HasSystem system b.files

    pub reload_config-Held : (b : Backend Number) → Held b → Held (reload_config repr b).1
    unfolding reload_config
    reload_config-Held b h =
        bind_from-keeps Held (on_files repr load_config b) _ (load-HasSystem b.files system h)
          λ config t k. bind_from-keeps Held (subscript config "ptp", t) _ k λ ptp t' k'. k'

    apply_config-Held : (b : Backend Number) → Held b → Held (apply_config repr b).1
    unfolding apply_config
    apply_config-Held b h =
        bind_from-keeps Held (on_files repr (render_ptp4l_conf repr) b) _
          (render-HasSystem repr b.files system h)
          λ text t k.
            bind_from-keeps Held (reload_config repr t) _ (reload_config-Held t k) λ _ t' k'. k'

    pub update_ptp_config-Held :
        (patch : PtpConfigUpdate) (b : Backend Number)
        → Held b
        → Held (update_ptp_config repr patch b).1
    unfolding update_ptp_config
    update_ptp_config-Held patch b h =
        let (after, held, same) =
          update_section-HasSystem "ptp" (ptp_updates patch) b.files system h in
        let updated =
          subst (λ v. HasSystem v (update_section "ptp" (ptp_updates patch) b.files).1)
            (same (unfold string_eq in refl)) held in
        bind_from-keeps Held (on_files repr (update_section "ptp" (ptp_updates patch)) b) _ updated
          λ config t k.
            bind_from-keeps Held (apply_config repr t) _ (apply_config-Held t k)
              λ _ t' k'. bind_from-keeps Held (subscript config "ptp", t') _ k' λ _ t'' k''. k''

    pub import_config-Held :
        (imported : Result Json) (b : Backend Number)
        → Held b
        → Held (import_config repr imported b).1
    import_config-Held imported b h =
        let (new, held, same) = import_config-system repr imported b h.held in
        record { config = new; held = held; system_value = same ∙ h.system_value }
