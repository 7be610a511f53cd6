-- ===== src/ConfigStore/Updates.antt =====
-- The settings after `update_section`.
use mathlib.Core.Path.{subst}
use mo_ip_checker.Base.{
  String, ◌≡◌, sym, ◌∙◌, ap, Option, none, some, [], arith, ◌==◌, string_eq, if◌then◌else◌,
}
use mo_ip_checker.Base.Dict
use mo_ip_checker.Base.Dict.{Dict, get-put, get-update, latest}
use mo_ip_checker.Base.Exec.{Result, ok, lift, pure, bind_from, ◌>>=◌, ◌>>◌}
use mo_ip_checker.Json.{Json, obj, Fields, fields, fields-of_dict, object}
use mo_ip_checker.Files.{Files}
use mo_ip_checker.ConfigStore.Store.{
  put_file, update_section_on, load_config, save_config, update_section, updated, update_fields,
}
use mo_ip_checker.ConfigStore.Saving.{save_config_lem, load_config-save_config}

-- The dict that a section holds, empty if the section is missing; `none` if it holds no dict.
unfoldable pub section_of : Option Json → Option (Dict String Json)
section_of none = some []
section_of (some (obj fs)) = some (fields fs)
section_of (some _) = none

-- The value of a key of a section of a configuration.
unfoldable pub setting : String → String → Json → Option Json
setting section key (obj config) = elim (Dict.get section (fields config)) [
  | none ↦ none
  | some value ↦ elim (section_of (some value)) [ none ↦ none | some d ↦ Dict.get key d ]
]
setting section key _ = none

update_fields-section_of :
    (value : Option Json) (patch : Dict String Json) {old : Dict String Json}
    → section_of value ≡ some old
    → update_fields value patch ≡ ok (object (Dict.update old patch))
unfolding section_of update_fields
update_fields-section_of none patch h = ground arith
update_fields-section_of (some (obj fs)) patch h = ground arith
update_fields-section_of (some _) patch h = absurd (ground arith)

save_and_return :
    (config : Json) (fs : Files)
    → (save_config config >> pure config) fs ≡ (ok config, (save_config config fs).1)
save_and_return config fs = rw save_config_lem

module _ (section : String) (patch : Dict String Json) (fs : Files) where
  -- The call after the file is loaded, by what was loaded and by what `updated` makes of it.
  pub update_section-loaded :
      (r : Result Json)
      → load_config fs ≡ (r, fs)
      → update_section section patch fs
        ≡ bind_from
            (r, fs)
            (λ c. lift (updated section patch c) >>= λ new. save_config new >> pure new)
  unfolding update_section_on put_file
  update_section-loaded r e =
      ap
        (λ o.
          bind_from o (λ c. lift (updated section patch c) >>= λ new. save_config new >> pure new))
        e

  pub update_section-updated :
      {config new : Json}
      → load_config fs ≡ (ok config, fs)
      → updated section patch config ≡ ok new
      → update_section section patch fs ≡ (ok new, (save_config new fs).1)
  update_section-updated {config} {new} loaded e =
      update_section-loaded (ok config) loaded
      ∙ ap (λ r. bind_from (r, fs) (λ n. save_config n >> pure n)) e
      ∙ save_and_return new fs

  pub updated-section_of :
      (config : Fields) {old : Dict String Json}
      → section_of (Dict.get section (fields config)) ≡ some old
      → updated section patch (obj config)
        ≡ ok (object (Dict.put section (object (Dict.update old patch)) (fields config)))
  unfolding updated
  updated-section_of config dict = rw (update_fields-section_of _ patch dict, updated)

  setting-put :
      (s k : String) (config : Fields) (value : Dict String Json)
      → setting s k (object (Dict.put section (object value) (fields config)))
        ≡ (if s == section then Dict.get k value else setting s k (obj config))
  unfolding setting section_of
  setting-put s k config value = ground (
    arith,
    fields-of_dict (Dict.put section (object value) (fields config)),
    fields-of_dict value,
    get-put s section (object value) (fields config),
  )

  -- If config.json holds a dict, and the section a dict or nothing, and all that is written reaches
  -- the disk, the call returns and saves the configuration in which every key of the section that
  -- the patch names has the value of the patch, and every other key of this and of the other
  -- sections the value that it had.
  pub update_section_settings :
      {config : Fields} {old : Dict String Json}
      → load_config fs ≡ (ok (obj config), fs)
      → section_of (Dict.get section (fields config)) ≡ some old
      → (new : Json) × ((update_section section patch fs).0 ≡ ok new)
        × (load_config (update_section section patch fs).1
            ≡ (ok new, (update_section section patch fs).1))
        × ((s k : String)
            → setting s k new ≡ (
                if s == section then latest k (Dict.get k old) patch else setting s k (obj config)))
  update_section_settings {config} {old} loaded dict =
      let new = object (Dict.put section (object (Dict.update old patch)) (fields config)) in
      let e = update_section-updated {new = new} loaded (updated-section_of config dict) in
      (
        new,
        ap (λ o. o.0) e,
        subst (λ o. load_config o.1 ≡ (ok new, o.1)) (sym e) (load_config-save_config new fs),
        λ s k.
            setting-put s k config (Dict.update old patch)
            ∙ ap (λ v. if s == section then v else setting s k (obj config))
                (get-update k old patch),
      )
