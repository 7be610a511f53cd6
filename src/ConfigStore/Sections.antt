-- ===== src/ConfigStore/Sections.antt =====
-- The section `system` of config.json, across changes of other sections.
use mathlib.Core.Path.{subst}
use mo_ip_checker.Base.{
  String, ◌≡◌, refl, sym, ◌∙◌, ap, false, Option, some, arith, ◌==◌, ==-self, string_eq, inl, inr,
}
use mo_ip_checker.Base.Dict
use mo_ip_checker.Base.Dict.{Dict, get-put}
use mo_ip_checker.Base.Exec.{ok-injective, ok, pure, bind_from, Result-cases, ◌>>◌}
use mo_ip_checker.Json.{Json, obj, Fields, fields, fields-of_dict, object, of_dict}
use mo_ip_checker.Files.{Files, json, read_json-json}
use mo_ip_checker.ConfigStore.Store.{
  config_path, load_config, save_config, update_section, updated, update_fields,
}
use mo_ip_checker.ConfigStore.Saving.{get-save_config}
use mo_ip_checker.ConfigStore.Updates.{update_section-updated, update_section-loaded}

==-comm : (a b : String) → (a == b) ≡ (b == a)
==-comm a b = ground arith

-- config.json holds a dict with this value of `system`.
pub record HasSystem (system : Option Json) (fs : Files) : Type 0 where
  pub config : Fields
  pub held : Dict.get config_path fs ≡ some (json (obj config))
  pub system_value : Dict.get "system" (fields config) ≡ system

pub save_config-HasSystem :
    (new : Fields) (fs : Files)
    → HasSystem (Dict.get "system" (fields new)) (save_config (obj new) fs).1
save_config-HasSystem new fs = record {
  config = new;
  held = get-save_config config_path (obj new) fs ∙ rw ==-self refl;
  system_value = refl;
}

updated-obj :
    (section : String) (patch : Dict String Json) (config : Fields) {new : Json}
    → updated section patch (obj config) ≡ ok new
    → (value : Json) × (new ≡ object (Dict.put section value (fields config)))
unfolding updated
updated-obj section patch config h =
    elim (Result-cases (update_fields (Dict.get section (fields config)) patch)) [
      | inl (value, e) ↦ (value, sym (ok-injective (rw (e, updated) at h)))
      | inr (x, e) ↦ absurd (cc (rw (e, updated) at h))
    ]

-- A change of a section leaves a dict, whether it returns or raises, and `system` as it was, unless
-- the section is `system`.
module _ (section : String) (patch : Dict String Json) (fs : Files) (system : Option Json) where
  abbrev After : Files → Type 0
  After fs =
      (after : Option Json) × HasSystem after fs × ((section == "system") ≡ false → after ≡ system)

  saved-After :
      (config : Fields) (value : Json)
      → Dict.get "system" (fields config) ≡ system
      → After (save_config (object (Dict.put section value (fields config))) fs).1
  saved-After config value h =
      let new = of_dict (Dict.put section value (fields config)) in
      (
        Dict.get "system" (fields new),
        save_config-HasSystem new fs,
        λ other.
            ap (λ d. Dict.get "system" d) (fields-of_dict (Dict.put section value (fields config)))
            ∙ get-put "system" section value (fields config)
            ∙ rw (==-comm "system" section, other) h,
      )

  pub update_section-HasSystem : HasSystem system fs → After (update_section section patch fs).1
  update_section-HasSystem h =
      let loaded : load_config fs ≡ (ok (obj h.config), fs) =
        unfold load_config in read_json-json config_path fs h.held in
      elim (Result-cases (updated section patch (obj h.config))) [
        | inl (new, e) ↦
            let (value, put) = updated-obj section patch h.config e in
            subst (λ o. After o.1) (sym (update_section-updated section patch fs loaded e))
              (subst (λ c. After (save_config c fs).1) (sym put)
                (saved-After h.config value h.system_value))
        | inr (x, e) ↦
            subst (λ o. After o.1)
              (sym (
                update_section-loaded section patch fs (ok (obj h.config)) loaded
                ∙ ap (λ r. bind_from (r, fs) (λ n. save_config n >> pure n)) e))
              (system, h, λ other. refl)
      ]
