-- ===== src/PtpRouter/Roundtrip.antt =====
-- An export of one configuration that is imported into another.
use mathlib.Core.Path.{subst}
use mo_ip_checker.Base.{
  String, ◌≡◌, refl, sym, ◌∙◌, Option, none, some, [], ◌∷◌, Text, arith, ◌==◌, ==-eq, string_eq,
  if◌then◌else◌, Bool, true, false, Bool-cases, inl, inr,
}
use mo_ip_checker.Base.Dict
use mo_ip_checker.Base.Dict.{Dict, latest, latest_absent}
use mo_ip_checker.Base.Exec.{ok}
use mo_ip_checker.Json.{Json, obj, Fields, fields, of_dict, fields-of_dict}
use mo_ip_checker.Files.{json}
use mo_ip_checker.ConfigStore.Store.{config_path}
use mo_ip_checker.PtpRouter.Handlers.{Backend, without_system, export_config, import_config}
use mo_ip_checker.PtpRouter.Import.{merged-settings, import_config-stored}
use mo_ip_checker.PtpRouter.Export.{export_config-outcome, get-without_system}

-- No key stands twice.
abbrev pub IsDistinct : Dict String Json → Type 0
IsDistinct [] = Unit
IsDistinct ((k, v) ∷ d) = (Dict.get k d ≡ none) × IsDistinct d

-- The first value that is there.
abbrev pub or_else : Option Json → Option Json → Option Json
or_else (some v) other = some v
or_else none other = other

latest-distinct :
    (k : String) (old : Option Json) (d : Dict String Json)
    → IsDistinct d
    → latest k old d ≡ or_else (Dict.get k d) old
unfolding latest Dict.get
latest-distinct k old [] h = refl
latest-distinct k old ((j, v) ∷ d) (absent, h) = elim (Bool-cases (k == j)) [
  | inl same ↦
      rw same (
        latest_absent k (some v) d (subst (λ i. Dict.get i d ≡ none) (sym (==-eq k j same)) absent))
  | inr differ ↦ rw differ (latest-distinct k old d h)
]

without_system-absent :
    (k : String) (d : Dict String Json) → Dict.get k d ≡ none → Dict.get k (without_system d) ≡ none
without_system-absent k d h = ground (arith, get-without_system k d)

without_system-IsDistinct : (d : Dict String Json) → IsDistinct d → IsDistinct (without_system d)
unfolding without_system
without_system-IsDistinct [] h = tt
without_system-IsDistinct ((k, v) ∷ d) (absent, h) = elim (Bool-cases (k == "system")) [
  | inl system ↦ rw system (without_system-IsDistinct d h)
  | inr other ↦ rw other (without_system-absent k d absent, without_system-IsDistinct d h)
]

exported :
    (is_system : Bool) (config current : Option Json)
    → (if is_system then current else or_else (if is_system then none else config) current)
      ≡ (if is_system then current else or_else config current)
exported true config current = refl
exported false config current = refl

of_export :
    (k : String) (config : Dict String Json) (current : Option Json)
    → IsDistinct config
    → (if k == "system"
        then current
        else latest k current (fields (of_dict (without_system config))))
      ≡ (if k == "system" then current else or_else (Dict.get k config) current)
of_export k config current distinct =
    rw
      (
        fields-of_dict (without_system config),
        latest-distinct k current (without_system config)
            (without_system-IsDistinct config distinct),
        get-without_system k config,
      )
      (exported (k == "system") (Dict.get k config) current)

module _ {Number : Type 0} (repr : Json → Text) where
  -- If config.json of one host holds a dict in which no key stands twice, an export returns there
  -- and changes nothing; and if config.json of a host, this or another, holds a dict, and all that
  -- the import writes reaches the disk, then after an import of what was exported, whether the
  -- import returns or raises, config.json holds a dict with the value of `system` that it had
  -- there, and for every other key with the value of the exported configuration, or its old one if
  -- that has none.
  pub import_config-export_config :
      (a b : Backend Number) {config current : Fields}
      → Dict.get config_path a.files ≡ some (json (obj config))
      → Dict.get config_path b.files ≡ some (json (obj current))
      → IsDistinct (fields config)
      → (out : Json) × (new : Fields) × (export_config repr a ≡ (ok out, a))
        × (Dict.get config_path (import_config repr (ok out) b).1.files ≡ some (json (obj new)))
        × ((k : String)
            → Dict.get k (fields new) ≡ (
                if k == "system"
                then Dict.get k (fields current)
                else or_else (Dict.get k (fields config)) (Dict.get k (fields current))))
  import_config-export_config a b {config} {current} h held distinct =
      let items = of_dict (without_system (fields config)) in
      let (new, stored, settings) = merged-settings repr items b current in
      (
        obj items,
        new,
        export_config-outcome repr a h,
        import_config-stored repr items b held ∙ stored,
        λ k. settings k ∙ of_export k (fields config) (Dict.get k (fields current)) distinct,
      )
