-- ===== src/SystemRouter/Cleared.antt =====
-- The netplan files after `_neutralize_conflicting_netplan_files` and `_write_netplan`.
use mathlib.Core.Path.{subst}
use mo_ip_checker.Base.{
  String, ◌≡◌, refl, sym, ap, ◌∙◌, Bool, true, false, ◌&&◌, some, List, [], ◌∷◌, map, arith, ◌==◌,
  ==-self, ==-eq, string_eq, inl, inr, All, Member, Bool-cases,
}
use mo_ip_checker.Base.Dict
use mo_ip_checker.Base.Dict.{Dict, get-put, get-remove}
use mo_ip_checker.Base.Exec.{bind_from-ok, Result, ok, Result-cases}
use mo_ip_checker.SystemRouter.Netplan.{
  Yaml, IsYaml, File, neutralize_file, neutralize, is_foreign, Write, Disk, completed, save_own,
}
use mo_ip_checker.SystemRouter.Netplan.{
  NicIpConfig, netplan_name, write_netplan, Netplan, network_of, disable_cloud_init, in_files,
}
use mo_ip_checker.SystemRouter.Conflicts.{defines}
use mo_ip_checker.SystemRouter.Rewritten.{reaches, neutralize_file-loaded}

module _ (Y : Yaml) (laws : IsYaml Y) (i : String) where
  and-false : (a : Bool) {b : Bool} → b ≡ false → (a && b) ≡ false
  and-false a h = ground arith

  false-and : {a : Bool} (b : Bool) → a ≡ false → (a && b) ≡ false
  false-and b h = ground arith

  -- Of the files that netplan reads beside the program's own, none names the interface.
  pub IsClear : String × (File Y.Document) → Type 0
  IsClear (name, file) = (is_foreign name && defines Y i file) ≡ false

  neutralize-IsClear :
      (D : Disk Y.Document) (interfaces : List String) (files : Dict String (File Y.Document))
      → ((name : String) → reaches (D.foreign name) ≡ true)
      → Member i interfaces
      → (neutralize Y D interfaces files).0 ≡ ok tt
      → All IsClear (neutralize Y D interfaces files).1
  unfolding neutralize IsClear
  neutralize-IsClear D interfaces [] whole m h = tt
  neutralize-IsClear D interfaces ((name, file) ∷ files) whole m h =
      elim (Bool-cases (is_foreign name)) [
        | inr own ↦
            rw (own, neutralize)
              (
                false-and (defines Y i file) own,
                neutralize-IsClear D interfaces files whole m (rw (own, neutralize) at h),
              )
        | inl foreign ↦ elim (Result-cases (neutralize_file Y (D.foreign name) interfaces file)) [
          | inr (error, bad) ↦ absurd (cc (rw (foreign, bad, neutralize) at h))
          | inl (changed, good) ↦
              rw (foreign, good, neutralize)
                (
                  and-false (is_foreign name) (
                      neutralize_file-loaded Y laws i (D.foreign name) (whole name) interfaces file
                        (Y.safe_load file.text) m refl good),
                  neutralize-IsClear D interfaces files whole m
                      (rw (foreign, good, neutralize) at h),
                )
        ]
      ]

  put-IsClear :
      (name : String) (file : (File Y.Document)) (files : Dict String (File Y.Document))
      → is_foreign name ≡ false
      → All IsClear files
      → All IsClear (Dict.put name file files)
  unfolding IsClear Dict.put
  put-IsClear name file [] own _ = (rw own, tt)
  put-IsClear name file ((other, old) ∷ files) own (clear, rest) =
      elim (Bool-cases (name == other)) [
        | inl same ↦ rw same (rw (sym (==-eq name other same), own), rest)
        | inr differ ↦ rw differ (clear, put-IsClear name file files own rest)
      ]

  netplan_name-own : is_foreign netplan_name ≡ false
  unfolding is_foreign string_eq
  netplan_name-own = refl

  abbrev Saved : Y.Document → Dict String (File Y.Document) → Type 0
  Saved text files =
      All IsClear files
      × (Dict.get netplan_name files ≡ some (record { text = text; mode = 0o600 }))

  save_own-Saved :
      (D : Disk Y.Document) (text : Y.Document) (files : Dict String (File Y.Document))
      (write : Write Y.Document)
      → D.own ≡ write
      → All IsClear files
      → (save_own Y D text files).0 ≡ ok tt
      → Saved text (save_own Y D text files).1
  unfolding save_own
  save_own-Saved D text files completed e clear h =
      rw (e, save_own)
        (
          put-IsClear netplan_name _ files netplan_name-own clear,
          get-put netplan_name netplan_name _ files ∙ rw ==-self,
        )
  save_own-Saved D text files _ e clear h = absurd (cc (rw (e, save_own) at h))

  -- If `safe_load` reads what `safe_dump` wrote of a value as this value with the keys of every
  -- dict in their order, by which `safe_dump` sorts them, and each rewrite of another file brings
  -- the whole text to the disk, then after a call of `_write_netplan` that does not raise, no other
  -- file with the suffix .yaml or .yml that can be loaded names any of the configured interfaces
  -- among its ethernets, and the program's own file holds the requested network, readable by its
  -- owner only.
  pub write_netplan-IsClear :
      (D : Disk Y.Document) (configs : List NicIpConfig) (n : Netplan Y.Document)
      → ((name : String) → reaches (D.foreign name) ≡ true)
      → Member i (map (λ cfg. cfg.interface) configs)
      → (write_netplan Y D configs n).0 ≡ ok tt
      → All IsClear (write_netplan Y D configs n).1.files
        × (Dict.get netplan_name (write_netplan Y D configs n).1.files
            ≡ some (record { text = Y.safe_dump (network_of configs); mode = 0o600 }))
  unfolding write_netplan disable_cloud_init in_files
  write_netplan-IsClear D configs n whole m h =
      let interfaces = map (λ cfg. cfg.interface) configs in
      let outcome = write_netplan Y D configs n in
      let all_done : outcome ≡ (ok tt, outcome.1) = ap (λ r. (r, outcome.1)) h in
      let (_, n₁, e₁, h₁) = bind_from-ok (disable_cloud_init Y D n) _ all_done in
      let (_, n₂, e₂, h₂) = bind_from-ok (in_files Y D (neutralize Y D interfaces) n₁) _ h₁ in
      let clear = neutralize-IsClear D interfaces n₁.files whole m (ap (λ o. o.0) e₂) in
      let clear₂ =
        subst (λ (o : Result (Unit {0}) × Netplan Y.Document). All IsClear o.1.files) e₂ clear in
      let saved =
        save_own-Saved D (Y.safe_dump (network_of configs)) n₂.files D.own refl clear₂
          (ap (λ o. o.0) h₂) in
      subst
        (λ (o : Result (Unit {0}) × Netplan Y.Document).
          Saved (Y.safe_dump (network_of configs)) o.1.files)
        h₂ saved
