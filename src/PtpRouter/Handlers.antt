-- ===== src/PtpRouter/Handlers.antt =====
-- `_to_public_dict`, the PTP settings, and the export and import of the configuration.
use mo_ip_checker.Base.{
  ℕ, String, true, Option, none, some, List, [], ◌∷◌, ◌++◌, Text, codes, ◌==◌, string_eq,
  if◌then◌else◌, suc,
}
use mo_ip_checker.Base.Int.{ℤ}
use mo_ip_checker.Base.Dict
use mo_ip_checker.Base.Dict.{Dict}
use mo_ip_checker.Base.Exec.{
  Exec, Result, ok, raised, type_error, key_error, attribute_error, lift, modify, pure, ◌>>=◌, ◌>>◌,
}
use mo_ip_checker.Json.{Json, bool, num, str, obj, fields, object, subscript}
use mo_ip_checker.Files.{Files}
use mo_ip_checker.ConfigStore.Store.{load_config, save_config, update_section, render_ptp4l_conf}
use mo_ip_checker.LogReader.State.{Reader, reload_from}

abbrev pub public_fields : List String
public_fields =
    "lock_status" ∷ "gm_id" ∷ "source_id" ∷ "offset_avg_ns" ∷ "offset_max_ns" ∷ "offset_min_ns"
    ∷ "offset_current_ns" ∷ "last_updated" ∷ []

-- `{k: snapshot[k] for k in keys}`, over a list without repeated keys
unfoldable pub select : List String → Dict String Json → Result (Dict String Json)
select [] snapshot = ok []
select (k ∷ keys) snapshot = elim (Dict.get k snapshot) [
  | none ↦ raised key_error
  | some v ↦ elim (select keys snapshot) [ raised e ↦ raised e | ok rest ↦ ok ((k, v) ∷ rest) ]
]

unfoldable pub to_public_dict : Dict String Json → Result (Dict String Json)
to_public_dict snapshot = select public_fields snapshot

-- The files, the reader, and how many restarts of the PTP container the request has scheduled.
pub record Backend (Number : Type 0) : Type 0 where
  pub files : Files
  pub reader : Reader Number
  pub restarts : ℕ

-- `config.items()` without the system section
unfoldable pub without_system : Dict String Json → Dict String Json
without_system [] = []
without_system ((k, v) ∷ d) =
    let rest = without_system d in if k == "system" then rest else (k, v) ∷ rest

unfoldable pub exportable : Json → Result Json
exportable (obj fs) = ok (object (without_system (fields fs)))
exportable _ = raised attribute_error

unfoldable pub items_of : Json → Result (Dict String Json)
items_of (obj fs) = ok (fields fs)
items_of _ = raised attribute_error

-- `current[key] = value`
unfoldable pub set_item : String → Json → Json → Result Json
set_item key value (obj fs) = ok (object (Dict.put key value (fields fs)))
set_item key value _ = raised type_error

unfoldable pub import_item : String → Json → Json → Result Json
import_item key value current = if key == "system" then ok current else set_item key value current

-- The loop over the imported items
unfoldable pub import_items : Dict String Json → Json → Result Json
import_items [] current = ok current
import_items ((key, value) ∷ items) current = elim (import_item key value current) [
  | raised e ↦ raised e
  | ok changed ↦ import_items items changed
]

-- The body of a change of the PTP settings
pub record PtpConfigUpdate : Type 0 where
  pub domain : Option ℤ
  pub priority1 : Option ℤ
  pub priority2 : Option ℤ
  pub sync_interval : Option ℤ
  pub announce_interval : Option ℤ
  pub delay_request_interval : Option ℤ
  pub lock_threshold_ns : Option ℤ
  pub lock_stable_sec : Option ℤ
  pub offset_alert_threshold_ns : Option ℤ

abbrev given_number : String → Option ℤ → Dict String Json
given_number key none = []
given_number key (some n) = (key, num n) ∷ []

-- The fields of `model_dump()` that are not `None`
unfoldable pub ptp_updates : PtpConfigUpdate → Dict String Json
ptp_updates patch =
    given_number "domain" patch.domain
    ++ (given_number "priority1" patch.priority1
        ++ (given_number "priority2" patch.priority2
            ++ (given_number "sync_interval" patch.sync_interval
                ++ (given_number "announce_interval" patch.announce_interval
                    ++ (given_number "delay_request_interval" patch.delay_request_interval
                        ++ (given_number "lock_threshold_ns" patch.lock_threshold_ns
                            ++ (given_number "lock_stable_sec" patch.lock_stable_sec
                                ++ given_number "offset_alert_threshold_ns"
                                    patch.offset_alert_threshold_ns)))))))

module _ {Number : Type 0} (repr : Json → Text) where
  abbrev pub on_files : {A : Type 0} → Exec Files A → Exec (Backend Number) A
  on_files m b = let (result, files) = m b.files in (result, record b { files = files })

  abbrev pub on_reader : {A : Type 0} → Exec (Reader Number) A → Exec (Backend Number) A
  on_reader m b = let (result, reader) = m b.reader in (result, record b { reader = reader })

  abbrev pub add_restart : Backend Number → Backend Number
  add_restart b = record b { restarts = suc b.restarts }

  -- `reload_config` of the log reader, with the read of the file
  unfoldable pub reload_config : Exec (Backend Number) (Unit {0})
  reload_config = do
    config ← on_files load_config
    ptp ← lift (subscript config "ptp")
    on_reader (reload_from ptp)

  -- The end that both handlers share
  unfoldable pub apply_config : Exec (Backend Number) (Unit {0})
  apply_config = do on_files (render_ptp4l_conf repr); reload_config; modify add_restart

  unfoldable pub update_ptp_config : PtpConfigUpdate → Exec (Backend Number) Json
  update_ptp_config patch = do
    config ← on_files (update_section "ptp" (ptp_updates patch))
    apply_config
    ptp ← lift (subscript config "ptp")
    pure (object (("status", str (codes "ok")) ∷ ("ptp", ptp) ∷ ("restarting", bool true) ∷ []))

  -- `imported` is what `json.loads` makes of the uploaded file.
  unfoldable pub import_config : Result Json → Exec (Backend Number) String
  import_config imported = do
    value ← lift imported
    current ← on_files load_config
    items ← lift (items_of value)
    changed ← lift (import_items items current)
    on_files (save_config changed)
    apply_config
    pure "imported"

  unfoldable pub export_config : Exec (Backend Number) Json
  export_config = do config ← on_files load_config; lift (exportable config)

  unfoldable pub get_ptp_config : Exec (Backend Number) Json
  get_ptp_config = do config ← on_files load_config; lift (subscript config "ptp")
