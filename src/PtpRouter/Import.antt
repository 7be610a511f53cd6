-- ===== src/PtpRouter/Import.antt =====
-- What an import does to the configuration file.
use mathlib.Core.Path.{subst}
use mo_ip_checker.Base.{
  String, ◌≡◌, refl, sym, ◌∙◌, ap, Bool, true, false, some, [], ◌∷◌, Text, arith, ◌==◌, ==-self,
  ==-eq, string_eq, if◌then◌else◌, Bool-cases, inl, inr,
}
use mo_ip_checker.Base.Dict
use mo_ip_checker.Base.Dict.{Dict, get-put, latest}
use mo_ip_checker.Base.Exec.{Exec, Result, ok, raised, lift, pure, bind_from, ◌>>=◌, ◌>>◌}
use mo_ip_checker.Json.{Json, obj, Fields, fields, of_dict, fields-of_dict, object}
use mo_ip_checker.Files.{json, Files, read_json-json}
use mo_ip_checker.ConfigStore.Store.{config_path, load_config, save_config, render_ptp4l_conf}
use mo_ip_checker.ConfigStore.Saving.{
  Rendered, render_ptp4l_conf_files, get-save_config, save_config_lem, load_config-lift,
}
use mo_ip_checker.PtpRouter.Handlers.{
  Backend, import_item, set_item, import_items, items_of, apply_config, reload_config,
  import_config, on_files,
}

pub import_item-lem :
    (key : String) (value : Json) (current : Fields)
    → import_item key value (obj current)
      ≡ ok (if key == "system" then obj current else object (Dict.put key value (fields current)))
unfolding import_item set_item
import_item-lem key value current = ground arith

same-else :
    {A B : Type 0} (b : Bool) (a : B) (f : A → B) (x y : A)
    → (if b then a else f y) ≡ (if b then a else f (if b then x else y))
same-else true a f x y = refl
same-else false a f x y = refl

other-key :
    (k key : String) → (key == "system") ≡ false → (k == "system") ≡ true → (k == key) ≡ false
other-key k key other system = elim (Bool-cases (k == key)) [
  | inr differ ↦ differ
  | inl same ↦ absurd (cc (other, system, ==-eq k key same))
]

else-put :
    {A : Type 0} (b c : Bool) (x y : A) (f : A → A)
    → (b ≡ true → c ≡ false)
    → (if b then (if c then x else y) else f (if c then x else y))
      ≡ (if b then y else f (if c then x else y))
else-put true c x y f h = rw (h refl)
else-put false c x y f h = refl

-- The loop of an import over any items and a current dict does not raise. In the dict that it
-- makes, `system` has its current value, and every other key the latest value that the items give
-- it, or its current one if they give none.
pub import_items-settings :
    (items : Dict String Json) (current : Fields)
    → (new : Fields) × (import_items items (obj current) ≡ ok (obj new))
      × ((k : String)
          → Dict.get k (fields new) ≡ (
              if k == "system"
              then Dict.get k (fields current)
              else latest k (Dict.get k (fields current)) items))
unfolding import_items latest
import_items-settings [] current = (current, refl, λ k. ground arith)
import_items-settings ((key, value) ∷ items) current = elim (Bool-cases (key == "system")) [
  | inl system ↦
      let (new, done, settings) = import_items-settings items current in
      (
        new,
        rw (import_item-lem key value current, system, import_items) done,
        λ k.
            settings k
            ∙ same-else (k == "system") (Dict.get k (fields current)) (λ o. latest k o items)
                (some value) (Dict.get k (fields current))
            ∙ ap
                (λ j.
                  if k == "system"
                  then Dict.get k (fields current)
                  else latest k (if k == j then some value else Dict.get k (fields current)) items)
                (sym (==-eq key "system" system)),
      )
  | inr other ↦
      let (new, done, settings) =
        import_items-settings items (of_dict (Dict.put key value (fields current))) in
      (
        new,
        rw (import_item-lem key value current, other, import_items) done,
        λ k.
            settings k
            ∙ rw
                (
                  fields-of_dict (Dict.put key value (fields current)),
                  get-put k key value (fields current),
                )
                (else-put (k == "system") (k == key) (some value) (Dict.get k (fields current))
                  (λ o. latest k o items) (other-key k key other)),
      )
]

pub config_path-kept :
    (fs : Files) (o : Result Text × Files)
    → Rendered fs o
    → Dict.get config_path o.1 ≡ Dict.get config_path fs
config_path-kept fs (raised e, after) h = ap (λ x. Dict.get config_path x) h
config_path-kept fs (ok text, after) h = h config_path ∙ (unfold string_eq in refl)

pub load_config-json :
    {fs : Files} {j : Json} → Dict.get config_path fs ≡ some (json j) → load_config fs ≡ (ok j, fs)
unfolding load_config
load_config-json {fs} h = read_json-json config_path fs h

module _ {Number : Type 0} (repr : Json → Text) where
  reload_config-files : (b : Backend Number) → (reload_config repr b).1.files ≡ b.files
  unfolding reload_config
  reload_config-files b = ground (arith, load_config-lift b.files)

  pub apply_config-config_path :
      (b : Backend Number)
      → Dict.get config_path (apply_config repr b).1.files ≡ Dict.get config_path b.files
  unfolding apply_config
  apply_config-config_path b = ground (
    arith,
    config_path-kept b.files (render_ptp4l_conf repr b.files)
        (render_ptp4l_conf_files repr b.files),
    reload_config-files (record b { files = (render_ptp4l_conf repr b.files).1 }),
  )

  -- The end of an import, after the file is saved
  applied-config_path :
      (done : String) (b : Backend Number)
      → Dict.get config_path ((apply_config repr >> pure done) b).1.files
        ≡ Dict.get config_path b.files
  applied-config_path done b = ground (arith, apply_config-config_path b)

  pub saved-config_path :
      (done : String) (config : Json) (b : Backend Number)
      → Dict.get config_path
          ((on_files repr (save_config config) >> (apply_config repr >> pure done)) b).1.files
        ≡ some (json config)
  saved-config_path done config b =
      let fs = (save_config config b.files).1 in
      subst
        (λ o.
          Dict.get config_path
            (bind_from {S = Backend Number} (o, record b { files = fs })
              (λ _. apply_config repr >> pure done)).1.files
          ≡ some (json config))
        (sym (ap (λ o. o.0) (save_config_lem config b.files)))
        (applied-config_path done (record b { files = fs })
          ∙ get-save_config config_path config b.files
          ∙ rw ==-self)

  unfoldable pub merged : Json → Json → Exec (Backend Number) String
  merged value c = lift (items_of value) >>= λ items. lift (import_items items c) >>= λ changed.
      on_files repr (save_config changed) >> (apply_config repr >> pure "imported")

  -- An import of a dict after the file is loaded: what it saves
  pub merged-settings :
      (items : Fields) (b : Backend Number) (current : Fields)
      → (new : Fields) × (Dict.get config_path (merged (obj items) (obj current) b).1.files
          ≡ some (json (obj new)))
        × ((k : String)
            → Dict.get k (fields new) ≡ (
                if k == "system"
                then Dict.get k (fields current)
                else latest k (Dict.get k (fields current)) (fields items)))
  unfolding merged items_of
  merged-settings items b current =
      let (new, done, settings) = import_items-settings (fields items) current in
      (new, rw done (saved-config_path "imported" (obj new) b), settings)

  -- The import after the file is loaded
  imported-items :
      (value : Json) (b : Backend Number) (current : Fields)
      → Dict.get config_path b.files ≡ some (json (obj current))
      → (new : Fields) × (Dict.get config_path (merged value (obj current) b).1.files
          ≡ some (json (obj new)))
        × (Dict.get "system" (fields new) ≡ Dict.get "system" (fields current))
  unfolding merged items_of
  imported-items (obj items) b current h =
      let (new, stored, settings) = merged-settings items b current in
      (new, stored, unfold string_eq in settings "system")
  imported-items _ b current h = (current, h, refl)

  -- An import of a dict, from the file
  pub import_config-stored :
      (items : Fields) (b : Backend Number) {current : Fields}
      → Dict.get config_path b.files ≡ some (json (obj current))
      → Dict.get config_path (import_config repr (ok (obj items)) b).1.files
        ≡ Dict.get config_path (merged (obj items) (obj current) b).1.files
  unfolding import_config merged
  import_config-stored items b {current} h =
      ap
        (λ o.
          Dict.get config_path
            (bind_from {S = Backend Number} (o.0, record b { files = o.1 })
              (merged (obj items))).1.files)
        (load_config-json h)

  -- If config.json holds a dict, it holds a dict with the same value of `system` after any import,
  -- whether the import returns or raises, and whatever was uploaded.
  pub import_config-system :
      (imported : Result Json) (b : Backend Number) {current : Fields}
      → Dict.get config_path b.files ≡ some (json (obj current))
      → (new : Fields) × (Dict.get config_path (import_config repr imported b).1.files
          ≡ some (json (obj new)))
        × (Dict.get "system" (fields new) ≡ Dict.get "system" (fields current))
  unfolding import_config merged
  import_config-system (raised e) b {current} h = (current, h, refl)
  import_config-system (ok value) b {current} h =
      subst
        (λ o.
          (new : Fields) × (Dict.get config_path
              (bind_from {S = Backend Number} (o.0, record b { files = o.1 })
                (merged value)).1.files
            ≡ some (json (obj new)))
          × (Dict.get "system" (fields new) ≡ Dict.get "system" (fields current)))
        (sym (load_config-json h)) (imported-items value b current h)
