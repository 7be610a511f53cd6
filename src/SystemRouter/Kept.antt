-- ===== src/SystemRouter/Kept.antt =====
-- What `_neutralize_conflicting_netplan_files` leaves of the definitions of other interfaces.
use mathlib.Core.Path.{subst}
use mo_ip_checker.Base.{
  String, ◌≡◌, refl, sym, ap, ◌∙◌, Option, Bool, true, false, List, [], ◌∷◌, arith, string_eq, ◌⊎◌,
  inl, inr, Bool-cases, ℕ,
}
use mo_ip_checker.Base.Dict
use mo_ip_checker.Base.Dict.{Dict, get-remove}
use mo_ip_checker.Base.Exec.{ok-injective, Result, ok, raised, Result-cases}
use mo_ip_checker.Json.{Json, obj, Fields, end, field, fields, object}
use mo_ip_checker.SystemRouter.Netplan.{
  Yaml, IsYaml, File, mentioned, delete_all, delete_from, put_ethernets, ethernets_of,
  neutralize_file, neutralize, is_foreign, rewrite_found, rewrite_loaded, get_or_empty, Write, Disk,
  completed, refused, cut, mode_kept, rewritten,
}
use mo_ip_checker.SystemRouter.Conflicts.{or_empty, ethernets_of-network}
use mo_ip_checker.SystemRouter.Sorted.{sorted_value}
use mo_ip_checker.SystemRouter.Reloaded.{reloaded, entry_in-sort_keys}
use mo_ip_checker.SystemRouter.Entries.{
  is_among, entry_in, loaded_entry, definition_of, mentioned-is_among, delete_all-keeps,
  entry_in-object,
}

-- A write that ends with a part of the text
abbrev pub is_cut : {Document : Type 0} → Write Document → Bool
is_cut (cut part) = true
is_cut _ = false

module _ (j : String) where
  -- Two definitions are the same, or the second is the first with the keys of every dict in their order.
  abbrev pub Kept : Option Json → Option Json → Type 0
  Kept before after = (after ≡ before) ⊎ (after ≡ sorted_value before)

  module _ (Y : Yaml) (laws : IsYaml Y) where
    deleted-keeps :
        (value : Json) (k : String) (v : Json) (fs : Fields) (removed : List String) (mode : ℕ)
        (left : Dict String Json)
        → ethernets_of value ≡ ok (obj (field k v fs))
        → delete_all removed (fields (field k v fs)) ≡ ok left
        → is_among j removed ≡ false
        → definition_of Y j
            (record { text = Y.safe_dump (put_ethernets value (object left)); mode = mode })
          ≡ sorted_value (entry_in j (ethernets_of value))
    unfolding definition_of loaded_entry
    deleted-keeps (obj data_fields) k v fs removed mode left h gone apart =
        rw
          (
            laws.load-dump (put_ethernets (obj data_fields) (object left)),
            reloaded (put_ethernets (obj data_fields) (object left)),
            entry_in-sort_keys j
                (ethernets_of (or_empty (put_ethernets (obj data_fields) (object left)))),
            ethernets_of-network left data_fields (Dict.get "network" (fields data_fields)) refl h,
            h,
          )
          (ap (λ o. sorted_value o)
            (entry_in-object j left
              ∙ delete_all-keeps j removed (fields (field k v fs)) gone apart
              ∙ unfold entry_in in refl))
    deleted-keeps _ k v fs removed mode left h gone apart =
        absurd (unfold ethernets_of get_or_empty in ground arith)

    rewritten-keeps :
        (write : Write Y.Document) (text : Y.Document) (file : (File Y.Document))
        → is_cut write ≡ false
        → ((mode : ℕ)
            → definition_of Y j (record { text = text; mode = mode })
              ≡ sorted_value (definition_of Y j file))
        → Kept (definition_of Y j file) (definition_of Y j (rewritten write text file))
    unfolding rewritten
    rewritten-keeps completed text file h same = inr (same 0o600)
    rewritten-keeps mode_kept text file h same = inr (same file.mode)
    rewritten-keeps refused text file h same = inl refl
    rewritten-keeps (cut part) text file h same = absurd (cc)

    module _ (write : Write Y.Document) (whole : is_cut write ≡ false) where
      rewrite_found-keeps :
          (value ethernets : Json) (removed : List String) (file : (File Y.Document))
          {changed : (File Y.Document)}
          → ethernets_of value ≡ ok ethernets
          → is_among j removed ≡ false
          → definition_of Y j file ≡ entry_in j (ethernets_of value)
          → rewrite_found Y write value ethernets removed file ≡ ok changed
          → Kept (definition_of Y j file) (definition_of Y j changed)
      unfolding rewrite_found delete_from
      rewrite_found-keeps value e [] file h apart old eq =
          subst (λ f. Kept (definition_of Y j file) (definition_of Y j f)) (ok-injective eq)
            (inl refl)
      rewrite_found-keeps value (obj end) (x ∷ removed) file h apart old eq =
          absurd (unfold delete_from delete_all fields Dict.get in cc)
      rewrite_found-keeps value (obj (field k v fs)) (x ∷ removed) file h apart old eq =
          elim (Result-cases (delete_all (x ∷ removed) (fields (field k v fs)))) [
            | inl (left, gone) ↦
                subst (λ f. Kept (definition_of Y j file) (definition_of Y j f))
                  (ok-injective (rw gone at eq))
                  (rewritten-keeps write _ file whole (λ mode.
                    deleted-keeps value k v fs (x ∷ removed) mode left h gone apart
                    ∙ ap (λ o. sorted_value o) (sym old)))
            | inr (error, bad) ↦ absurd (cc (rw bad at eq))
          ]
      rewrite_found-keeps value _ (x ∷ removed) file h apart old eq = absurd (cc)

      rewrite_loaded-keeps :
          (interfaces : List String) (loaded : Json) (file : (File Y.Document))
          {changed : (File Y.Document)}
          → is_among j interfaces ≡ false
          → Y.safe_load file.text ≡ ok loaded
          → rewrite_loaded Y write interfaces loaded file ≡ ok changed
          → Kept (definition_of Y j file) (definition_of Y j changed)
      unfolding rewrite_loaded
      rewrite_loaded-keeps interfaces loaded file apart read eq =
          elim (Result-cases (ethernets_of (or_empty loaded))) [
            | inr (error, bad) ↦ absurd (cc (rw bad at eq))
            | inl (ethernets, good) ↦ elim (Result-cases (mentioned ethernets interfaces)) [
              | inr (error, bad) ↦ absurd (cc (rw (good, bad) at eq))
              | inl (removed, found) ↦
                  rewrite_found-keeps (or_empty loaded) ethernets removed file good
                    (mentioned-is_among j ethernets interfaces found apart)
                    (unfold definition_of loaded_entry in rw read refl) (rw (good, found) at eq)
            ]
          ]

      neutralize_file-keeps :
          (interfaces : List String) (file : (File Y.Document)) (loaded : Result Json)
          {changed : (File Y.Document)}
          → is_among j interfaces ≡ false
          → Y.safe_load file.text ≡ loaded
          → neutralize_file Y write interfaces file ≡ ok changed
          → Kept (definition_of Y j file) (definition_of Y j changed)
      unfolding neutralize_file
      neutralize_file-keeps interfaces file (raised e) apart read eq =
          subst (λ f. Kept (definition_of Y j file) (definition_of Y j f))
            (ok-injective (rw (read, neutralize_file) at eq)) (inl refl)
      neutralize_file-keeps interfaces file (ok loaded) apart read eq =
          rewrite_loaded-keeps interfaces loaded file apart read (rw (read, neutralize_file) at eq)

    -- The files of both lists have the same names, pair by pair. A pair is the same file twice, or
    -- both are foreign, and the second keeps the definition of the first.
    unfoldable pub Keeps : Dict String (File Y.Document) → Dict String (File Y.Document) → Type 0
    Keeps [] [] = Unit
    Keeps ((n, f) ∷ fs) ((m, g) ∷ gs) =
        (m ≡ n)
        × ((g ≡ f) ⊎ ((is_foreign n ≡ true) × Kept (definition_of Y j f) (definition_of Y j g)))
        × Keeps fs gs
    Keeps _ _ = ⊥

    Keeps-refl : (fs : Dict String (File Y.Document)) → Keeps fs fs
    unfolding Keeps
    Keeps-refl [] = tt
    Keeps-refl ((n, f) ∷ fs) = (refl, inl refl, Keeps-refl fs)

    -- If `safe_load` reads what `safe_dump` wrote of a value as this value with the keys of every
    -- dict in their order, by which `safe_dump` sorts them, and no write ends with a part of its
    -- text, then a run of `_neutralize_conflicting_netplan_files`, whether it ends or raises, and
    -- also if files cannot be opened or keep their mode, leaves the names and the order of the
    -- files, and an interface that is not among the given ones keeps its definition in every file:
    -- each file is the same as before, or it is another program's and defines the interface with
    -- the same value as before, or with this value and the keys of its dicts in their order, or
    -- not, as before.
    pub neutralize-Keeps :
        (D : Disk Y.Document) (interfaces : List String) (files : Dict String (File Y.Document))
        → ((name : String) → is_cut (D.foreign name) ≡ false)
        → is_among j interfaces ≡ false
        → Keeps files (neutralize Y D interfaces files).1
    unfolding neutralize Keeps
    neutralize-Keeps D interfaces [] whole apart = tt
    neutralize-Keeps D interfaces ((name, file) ∷ files) whole apart =
        elim (Bool-cases (is_foreign name)) [
          | inr own ↦
              rw (own, neutralize) (refl, inl refl, neutralize-Keeps D interfaces files whole apart)
          | inl foreign ↦ elim (Result-cases (neutralize_file Y (D.foreign name) interfaces file)) [
            | inr (error, bad) ↦ rw (foreign, bad, neutralize) (refl, inl refl, Keeps-refl files)
            | inl (changed, good) ↦
                rw (foreign, good, neutralize)
                  (
                    refl,
                    inr (
                      foreign,
                      neutralize_file-keeps (D.foreign name) (whole name) interfaces file
                          (Y.safe_load file.text) apart refl good,
                    ),
                    neutralize-Keeps D interfaces files whole apart,
                  )
          ]
        ]
