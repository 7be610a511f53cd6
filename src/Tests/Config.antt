-- ===== src/Tests/Config.antt =====
-- Import and export of a small configuration.
use mo_ip_checker.Base.{
  String, ◌≡◌, refl, none, some, [], ◌∷◌, Text, codes, ◌==◌, string_eq, nat_eq, text_eq, Bool, true,
  false, if◌then◌else◌,
}
use mo_ip_checker.Base.Int.{ℤ, pos, negsuc}
use mo_ip_checker.Base.Dict
use mo_ip_checker.Base.Dict.{Dict, latest}
use mo_ip_checker.Base.Exec.{Result, ok, raised}
use mo_ip_checker.Json.{Json, null, bool, num, str, obj, Fields, fields, of_dict, object, subscript}
use mo_ip_checker.Files.{json, plain, read_json, read_text, replace}
use mo_ip_checker.ConfigStore.Store.{
  fill_template_on, put_file, render_ptp4l_conf_on, save_config_on, update_section_on,
  write_conf_on, config_path, template_path, load_config, updated, str_of, update_fields,
}
use mo_ip_checker.ConfigStore.Template.{substitute}
use mo_ip_checker.Base.Decimal
use mo_ip_checker.Base.Decimal.{str_ℕ}
use mo_ip_checker.PtpRouter.Roundtrip.{or_else, import_config-export_config}
use mo_ip_checker.PtpRouter.Apply.{IsApplied}
use mo_ip_checker.PtpRouter.Requested.{update_ptp_config-requested, import_config-requested}
use mo_ip_checker.PtpRouter.Complete.{IsComplete, is_among}
use mo_ip_checker.PtpRouter.Accepted.{IsTemplate, update_ptp_config-returns}
use mo_ip_checker.ConfigStore.Updates.{section_of, setting}
use mo_ip_checker.ConfigStore.Template.Pieces.{printed, bare, is_name, ends_name}
use mo_ip_checker.LogReader.State.{initial, reload_from}
use mo_ip_checker.PtpRouter.Handlers.{
  Backend, import_items, import_config, export_config, PtpConfigUpdate, update_ptp_config,
  ptp_updates, apply_config, reload_config, items_of, import_item, set_item,
}
use mo_ip_checker.PtpRouter.Import.{import_config-system}
use mo_ip_checker.PtpRouter.Export.{export_config-settings}
use mo_ip_checker.Tests.Fixtures.{noon}

abbrev current : Fields
current = of_dict (
    ("ptp", object (("domain", num (pos 127)) ∷ []))
    ∷ ("system", object (("media_nic_amber", str (codes "eth0")) ∷ []))
    ∷ [])

abbrev uploaded : Dict String Json
uploaded = ("system", object []) ∷ ("ptp", object (("domain", num (pos 5)) ∷ [])) ∷ []

abbrev backend : Backend ℤ
backend = record {
  files = (config_path, json (obj current)) ∷ [];
  reader = initial noon;
  restarts = 0;
}

abbrev no_repr : Json → Text
no_repr j = []

stored : Dict.get config_path backend.files ≡ some (json (obj current))
unfolding Dict.get string_eq
stored = refl

import_config-system_example :
    (new : Fields) × (Dict.get config_path
        (import_config no_repr (ok (object uploaded)) backend).1.files
      ≡ some (json (obj new)))
    × (Dict.get "system" (fields new) ≡ Dict.get "system" (fields current))
import_config-system_example = import_config-system no_repr (ok (object uploaded)) backend stored

export_config-settings_example :
    (out : Fields) × (export_config no_repr backend ≡ (ok (obj out), backend))
    × ((k : String)
        → Dict.get k (fields out) ≡ (if k == "system" then none else Dict.get k (fields current)))
export_config-settings_example = export_config-settings no_repr backend stored

abbrev other : Fields
other = of_dict (
    ("name", str (codes "spare"))
    ∷ ("system", object (("media_nic_amber", str (codes "eth7")) ∷ []))
    ∷ [])

abbrev other_backend : Backend ℤ
other_backend = record backend { files = (config_path, json (obj other)) ∷ [] }

import_config-export_config_example :
    (out : Json) × (new : Fields) × (export_config no_repr backend ≡ (ok out, backend))
    × (Dict.get config_path (import_config no_repr (ok out) other_backend).1.files
        ≡ some (json (obj new)))
    × ((k : String)
        → Dict.get k (fields new) ≡ (
            if k == "system"
            then Dict.get k (fields other)
            else or_else (Dict.get k (fields current)) (Dict.get k (fields other))))
import_config-export_config_example =
    import_config-export_config no_repr backend other_backend stored
      (unfold Dict.get string_eq in refl)
      (unfold fields of_dict Dict.get string_eq in (refl, (refl, tt)))

-- A backend that has everything that `render_ptp4l_conf` and `reload_config` read
abbrev whole_ptp : Dict String Json
whole_ptp =
    ("domain", num (pos 127))
    ∷ ("priority1", num (pos 128))
    ∷ ("priority2", num (pos 128))
    ∷ ("sync_interval", num (negsuc 2))
    ∷ ("announce_interval", num (pos 0))
    ∷ ("delay_request_interval", num (negsuc 2))
    ∷ ("lock_threshold_ns", num (pos 500))
    ∷ ("lock_stable_sec", num (pos 3))
    ∷ ("offset_alert_threshold_ns", num (pos 500))
    ∷ []

abbrev whole_config : Dict String Json
whole_config =
    ("ptp", object whole_ptp)
    ∷ ("system", object (("media_nic_amber", str (codes "eth0")) ∷ []))
    ∷ []

abbrev ready : Backend ℤ
ready = record {
  files = (config_path, json (object whole_config)) ∷ (template_path, plain (codes "$domain")) ∷ [];
  reader = initial noon;
  restarts = 0;
}

abbrev stricter : PtpConfigUpdate
stricter = record {
  domain = none;
  priority1 = none;
  priority2 = none;
  sync_interval = none;
  announce_interval = none;
  delay_request_interval = none;
  lock_threshold_ns = some (pos 50);
  lock_stable_sec = none;
  offset_alert_threshold_ns = none;
}

abbrev updating : Result Json × Backend ℤ
updating = update_ptp_config no_repr stricter ready

abbrev reply_of : {A : Type 0} → A → Result A → A
reply_of a (ok b) = b
reply_of a (raised e) = a

abbrev is_ok : {A : Type 0} → Result A → Bool
is_ok (ok a) = true
is_ok (raised e) = false

ok-reply_of :
    {A S : Type 0} (a : A) (o : Result A × S) → is_ok o.0 ≡ true → o ≡ (ok (reply_of a o.0), o.1)
ok-reply_of a (ok b, s) h = refl
ok-reply_of a (raised e, s) h = absurd (cc)

updated_well : is_ok updating.0 ≡ true
unfolding update_ptp_config ptp_updates update_section_on put_file load_config Dict.get string_eq
    updated fields of_dict save_config_on Dict.put apply_config render_ptp4l_conf_on Dict.remove
    subscript Dict.update substitute nat_eq text_eq Decimal.str str_ℕ fill_template_on str_of
    update_fields write_conf_on read_json read_text replace reload_from reload_config
updated_well = refl

ready_config : Dict.get config_path ready.files ≡ some (json (object whole_config))
unfolding Dict.get string_eq
ready_config = refl

update_ptp_config-requested_example :
    (r : IsApplied no_repr ready updating.1) × ((s k : String)
      → setting s k r.config ≡ (
          if s == "ptp"
          then latest k (Dict.get k whole_ptp) (ptp_updates stricter)
          else setting s k (object whole_config)))
update_ptp_config-requested_example =
    update_ptp_config-requested no_repr stricter ready ready_config
      (unfold Dict.get fields of_dict string_eq section_of in refl)
      (ok-reply_of null updating updated_well)

ready-IsComplete : IsComplete (of_dict whole_config)
unfolding Dict.get fields of_dict string_eq
ready-IsComplete = record {
  ptp = of_dict whole_ptp;
  has_ptp = refl;
  given = (
    (_, refl),
    (
      (_, refl),
      ((_, refl), ((_, refl), ((_, refl), ((_, refl), ((_, refl), ((_, refl), ((_, refl), tt))))))),
    ),
  );
  system = of_dict (("media_nic_amber", str (codes "eth0")) ∷ []);
  has_system = refl;
  interface = str (codes "eth0");
  has_interface = refl;
}

ready-IsTemplate : IsTemplate ready.files
unfolding read_text Dict.get string_eq printed is_among text_eq is_name nat_eq ends_name
ready-IsTemplate = record {
  pieces = bare b'd' (codes "omain") ∷ [];
  are_pieces = (refl, refl, tt);
  are_known = (refl, tt);
  read = refl;
}

update_ptp_config-returns_example :
    (update_ptp_config no_repr stricter ready).0
    ≡ ok (
        object (
          ("status", str (codes "ok"))
          ∷ ("ptp", object (Dict.update (fields ready-IsComplete.ptp) (ptp_updates stricter)))
          ∷ ("restarting", bool true)
          ∷ []))
update_ptp_config-returns_example =
    update_ptp_config-returns no_repr stricter ready ready_config ready-IsComplete ready-IsTemplate

abbrev importing : Result String × Backend ℤ
importing = import_config no_repr (ok (object whole_config)) ready

imported_well : is_ok importing.0 ≡ true
unfolding import_config load_config Dict.get string_eq fields of_dict items_of import_items
    import_item set_item save_config_on put_file Dict.put apply_config render_ptp4l_conf_on
    Dict.remove subscript substitute nat_eq text_eq Decimal.str str_ℕ fill_template_on str_of
    write_conf_on read_json read_text replace reload_from reload_config
imported_well = refl

import_config-requested_example :
    (r : IsApplied no_repr ready importing.1) × (new : Fields) × (r.config ≡ obj new)
    × ((k : String)
        → Dict.get k (fields new) ≡ (
            if k == "system"
            then Dict.get k (fields (of_dict whole_config))
            else latest k
                (Dict.get k (fields (of_dict whole_config)))
                (fields (of_dict whole_config))))
import_config-requested_example =
    import_config-requested no_repr (of_dict whole_config) ready ready_config
      (ok-reply_of "" importing imported_well)
