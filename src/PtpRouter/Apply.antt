-- ===== src/PtpRouter/Apply.antt =====
-- The log reader and ptp4l.conf after a change of the configuration is accepted.
use mathlib.Core.Path.{subst}
use mo_ip_checker.Base.{
  suc, String, ◌≡◌, refl, sym, ap, ◌∙◌, some, Text, arith, inl, inr, string_eq,
}
use mo_ip_checker.Base.Exec.{
  Exec, Result, ok, raised, lift, modify, pure, bind_from, bind_from-ok, Result-cases, ◌>>=◌, ◌>>◌,
}
use mo_ip_checker.Base.Dict
use mo_ip_checker.Json.{Json, subscript}
use mo_ip_checker.Files.{Files, plain}
use mo_ip_checker.ConfigStore.Store.{
  conf_path, load_config, update_section, save_config, render_ptp4l_conf,
}
use mo_ip_checker.ConfigStore.Saving.{render_ptp4l_conf_files, load_config-lift}
use mo_ip_checker.ConfigStore.Stable.{conf_path-Rendered, render_ptp4l_conf-again}
use mo_ip_checker.LogReader.State.{Reader, Cfg, reload_from}
use mo_ip_checker.PtpRouter.Handlers.{
  Backend, PtpConfigUpdate, on_files, on_reader, add_restart, reload_config, apply_config,
  update_ptp_config, import_config, ptp_updates, items_of, import_items,
}

-- The reader judges by the values that the section holds.
abbrev pub Follows : Json → Cfg → Type 0
Follows ptp cfg =
    (subscript ptp "lock_threshold_ns" ≡ ok cfg.lock_threshold_ns)
    × (subscript ptp "lock_stable_sec" ≡ ok cfg.lock_stable_sec)
    × (subscript ptp "offset_alert_threshold_ns" ≡ ok cfg.offset_alert_threshold_ns)
    × (subscript ptp "sync_interval" ≡ ok cfg.sync_interval)

module _ {Number : Type 0} where
  reload_from-Follows :
      (ptp : Json) (r : Reader Number) {t : Reader Number}
      → reload_from ptp r ≡ (ok tt, t)
      → Follows ptp t.cfg × (t ≡ record r { cfg = t.cfg })
  unfolding reload_from
  reload_from-Follows ptp r h = ground arith

module _ {Number : Type 0} (repr : Json → Text) where
  -- What an accepted change leaves: the reader follows the stored settings, ptp4l.conf is what the stored
  -- settings and the template give, and one restart more is scheduled.
  pub record IsApplied (b t : Backend Number) : Type 0 where
    pub config : Json
    pub ptp : Json
    pub loaded : load_config t.files ≡ (ok config, t.files)
    pub section : subscript config "ptp" ≡ ok ptp
    pub follows : Follows ptp t.reader.cfg
    pub reader_rest : t.reader ≡ record b.reader { cfg = t.reader.cfg }
    pub scheduled : t.restarts ≡ suc b.restarts
    pub conf : Text
    pub written : Dict.get conf_path t.files ≡ some (plain conf)
    pub rendered : (render_ptp4l_conf repr t.files).0 ≡ ok conf

  pub record IsReloaded (b t : Backend Number) : Type 0 where
    pub config : Json
    pub ptp : Json
    pub loaded : load_config b.files ≡ (ok config, b.files)
    pub section : subscript config "ptp" ≡ ok ptp
    pub reader : reload_from ptp b.reader ≡ (ok tt, t.reader)
    pub files : t.files ≡ b.files
    pub restarts : t.restarts ≡ b.restarts

  reload_section :
      (config : Json) (b : Backend Number) {t : Backend Number}
      → (lift (subscript config "ptp") >>= λ ptp. on_reader repr (reload_from ptp)) b ≡ (ok tt, t)
      → (ptp : Json) × (subscript config "ptp" ≡ ok ptp)
        × (reload_from ptp b.reader ≡ (ok tt, t.reader))
        × (t.files ≡ b.files)
        × (t.restarts ≡ b.restarts)
  reload_section config b h = elim (Result-cases (subscript config "ptp")) [
    | inr (e, bad) ↦ absurd (cc (rw bad at h))
    | inl (ptp, good) ↦
        let back = rw good at h in (ptp, good, ground arith, ground arith, ground arith)
  ]

  reload_config-IsReloaded :
      (b : Backend Number) {t : Backend Number} → reload_config repr b ≡ (ok tt, t) → IsReloaded b t
  unfolding reload_config
  reload_config-IsReloaded b {t} h =
      let (config, s, first, rest) =
        bind_from-ok (on_files repr load_config b)
          (λ config. lift (subscript config "ptp") >>= λ ptp. on_reader repr (reload_from ptp)) h in
      let (ptp, section, reader, files, restarts) = reload_section config s rest in
      let kept = load_config-lift b.files in
      record {
        config = config;
        ptp = ptp;
        loaded = ground arith;
        section = section;
        reader = ground arith;
        files = ground arith;
        restarts = ground arith;
      }

  apply_config-IsApplied :
      (b : Backend Number) {t : Backend Number} → apply_config repr b ≡ (ok tt, t) → IsApplied b t
  unfolding apply_config
  apply_config-IsApplied b {t} h =
      let (text, s, first, rest) =
        bind_from-ok (on_files repr (render_ptp4l_conf repr) b)
          (λ _. reload_config repr >> modify (add_restart repr)) h in
      let (_, s', second, last) =
        bind_from-ok (reload_config repr s) (λ _. modify (add_restart repr)) rest in
      let r = reload_config-IsReloaded s second in
      let followed = reload_from-Follows r.ptp s.reader {t = s'.reader} r.reader in
      record {
        config = r.config;
        ptp = r.ptp;
        loaded = ground (arith, followed);
        section = r.section;
        follows = ground (arith, followed);
        reader_rest = ground (arith, followed);
        scheduled = ground (arith, followed);
        conf = text;
        written = ground (
          arith,
          conf_path-Rendered b.files (render_ptp4l_conf repr b.files) {text = text}
              {after = s.files} (render_ptp4l_conf_files repr b.files),
        );
        rendered =
            ground (arith, render_ptp4l_conf-again repr b.files {text = text} {after = s.files});
      }

  IsApplied-from :
      (b s : Backend Number) {t : Backend Number}
      → s.reader ≡ b.reader
      → s.restarts ≡ b.restarts
      → IsApplied s t
      → IsApplied b t
  IsApplied-from b s same_reader same_restarts r = record {
    config = r.config;
    ptp = r.ptp;
    loaded = r.loaded;
    section = r.section;
    follows = r.follows;
    reader_rest = ground arith;
    scheduled = ground arith;
    conf = r.conf;
    written = r.written;
    rendered = r.rendered;
  }

  reads-lift :
      {A B : Type 0} (r : Result A) (f : A → B) (s : Backend Number)
      → ((lift r >>= λ a. pure (f a)) s).1 ≡ s
  reads-lift (ok a) f s = refl
  reads-lift (raised e) f s = refl

  -- A chain whose first part touches the files only, and whose last part reads.
  chain-IsApplied :
      {A B : Type 0} (m : Exec Files A) (k : A → Exec (Backend Number) B) (b : Backend Number)
      {answer : B} {t : Backend Number}
      → ((a : A) (s : Backend Number) → (k a s).1 ≡ s)
      → bind_from (on_files repr m b) (λ a. apply_config repr >> k a) ≡ (ok answer, t)
      → IsApplied b t
  chain-IsApplied m k b {answer} {t} reads h =
      let (a, s, first, rest) =
        bind_from-ok (on_files repr m b) (λ a. apply_config repr >> k a) h in
      let (_, s', second, last) = bind_from-ok (apply_config repr s) (λ _. k a) rest in
      let r = apply_config-IsApplied s second in
      let r' : IsApplied b s' = IsApplied-from b s (ground arith) (ground arith) r in
      subst (IsApplied b) (sym (reads a s') ∙ ap (λ o. o.1) last) r'

  -- After a change of the PTP settings that returns, config.json holds a configuration with a `ptp`
  -- section, the log reader judges by the limits of this section and has otherwise its state from
  -- before, ptp4l.conf has been written, and one restart more of the PTP container is scheduled.
  pub update_ptp_config-IsApplied :
      (patch : PtpConfigUpdate) (b : Backend Number) {reply : Json} {t : Backend Number}
      → update_ptp_config repr patch b ≡ (ok reply, t)
      → IsApplied b t
  unfolding update_ptp_config
  update_ptp_config-IsApplied patch b h =
      chain-IsApplied (update_section "ptp" (ptp_updates patch)) _ b
        (λ config s. reads-lift (subscript config "ptp") _ s) h

  -- After an import that returns, config.json holds a configuration with a `ptp` section, the log
  -- reader judges by the limits of this section and has otherwise its state from before, ptp4l.conf
  -- holds the text that `render_ptp4l_conf` makes of the stored configuration, and one restart more
  -- of the PTP container is scheduled.
  pub import_config-IsApplied :
      (imported : Result Json) (b : Backend Number) {reply : String} {t : Backend Number}
      → import_config repr imported b ≡ (ok reply, t)
      → IsApplied b t
  unfolding import_config
  import_config-IsApplied imported b h =
      let (value, s₁, e₁, h₁) = bind_from-ok (imported, b) _ h in
      let (current, s₂, e₂, h₂) = bind_from-ok (on_files repr load_config s₁) _ h₁ in
      let (items, s₃, e₃, h₃) = bind_from-ok (items_of value, s₂) _ h₂ in
      let (changed, s₄, e₄, h₄) = bind_from-ok (import_items items current, s₃) _ h₃ in
      IsApplied-from b s₄ (ground arith) (ground arith)
        (chain-IsApplied (save_config changed) (λ _. pure "imported") s₄ (λ _ s. refl) h₄)
