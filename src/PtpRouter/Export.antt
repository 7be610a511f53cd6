-- ===== src/PtpRouter/Export.antt =====
-- What an export shows of the configuration.
use mo_ip_checker.Base.{
  String, ◌≡◌, ap, none, some, [], ◌∷◌, Text, arith, ◌==◌, ==-eq, string_eq, if◌then◌else◌,
  Bool-cases, inl, inr,
}
use mo_ip_checker.Base.Dict
use mo_ip_checker.Base.Dict.{Dict}
use mo_ip_checker.Base.Exec.{ok, lift, bind_from}
use mo_ip_checker.Json.{Json, obj, Fields, fields, of_dict, fields-of_dict}
use mo_ip_checker.Files.{json}
use mo_ip_checker.ConfigStore.Store.{config_path}
use mo_ip_checker.PtpRouter.Handlers.{Backend, without_system, exportable, export_config}
use mo_ip_checker.PtpRouter.Import.{load_config-json}

pub get-without_system :
    (k : String) (d : Dict String Json)
    → Dict.get k (without_system d) ≡ (if k == "system" then none else Dict.get k d)
unfolding without_system Dict.get
get-without_system k [] = ground arith
get-without_system k ((j, v) ∷ d) = elim (Bool-cases (k == j)) [
  | inl same ↦
      ground
        (arith, get-without_system k d, ==-eq k j same, ap (λ x. x == "system") (==-eq k j same))
  | inr differ ↦ ground (arith, get-without_system k d)
]

module _ {Number : Type 0} (repr : Json → Text) where
  pub export_config-outcome :
      (b : Backend Number) {current : Fields}
      → Dict.get config_path b.files ≡ some (json (obj current))
      → export_config repr b ≡ (ok (obj (of_dict (without_system (fields current)))), b)
  unfolding export_config exportable
  export_config-outcome b {current} h =
      ap
        (λ o.
          bind_from {S = Backend Number} (o.0, record b { files = o.1 }) (λ c. lift (exportable c)))
        (load_config-json h)

  -- If config.json holds a dict, an export returns it without the key `system` and with the value
  -- of every other key, and changes nothing.
  pub export_config-settings :
      (b : Backend Number) {current : Fields}
      → Dict.get config_path b.files ≡ some (json (obj current))
      → (out : Fields) × (export_config repr b ≡ (ok (obj out), b))
        × ((k : String)
            → Dict.get k (fields out)
              ≡ (if k == "system" then none else Dict.get k (fields current)))
  export_config-settings b {current} h = (
    of_dict (without_system (fields current)),
    export_config-outcome b h,
    λ k.
        rw (fields-of_dict (without_system (fields current)))
          (get-without_system k (fields current)),
  )
