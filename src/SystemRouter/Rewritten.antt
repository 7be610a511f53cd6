-- ===== src/SystemRouter/Rewritten.antt =====
-- A netplan file after `_neutralize_conflicting_netplan_files` has gone through it.
use mathlib.Core.Path.{subst}
use mo_ip_checker.Base.{
  ℕ, String, ◌≡◌, refl, Bool, true, false, none, List, [], ◌∷◌, arith, string_eq, ◌⊎◌, inl, inr,
  Member,
}
use mo_ip_checker.Base.Dict
use mo_ip_checker.Base.Dict.{Dict, get-put, get-remove}
use mo_ip_checker.Base.Exec.{ok-injective, Result, ok, raised, Result-cases}
use mo_ip_checker.Json.{Json, obj, Fields, end, field, fields, object}
use mo_ip_checker.SystemRouter.Netplan.{
  Yaml, IsYaml, File, get_or_empty, mentions, mentioned, delete_all, delete_from, put_ethernets,
  ethernets_of, neutralize_file, rewrite_found, rewrite_loaded, rewritten, Write, completed,
  refused, cut, mode_kept,
}
use mo_ip_checker.SystemRouter.Reloaded.{reloaded, mentions-sort_keys}
use mo_ip_checker.SystemRouter.Conflicts.{
  or_empty, defines, mentioned_lem, delete_all-absent, ethernets_of-network, mentions-left,
  mentions-absent,
}

-- The whole text is on the disk after such a write.
abbrev pub reaches : {Document : Type 0} → Write Document → Bool
reaches completed = true
reaches mode_kept = true
reaches _ = false

module _ (Y : Yaml) (laws : IsYaml Y) (i : String) where
  defines-written :
      (data_fields : Fields) (left : Dict String Json) (mode : ℕ) {k : String} {v : Json}
      {fs : Fields}
      → ethernets_of (obj data_fields) ≡ ok (obj (field k v fs))
      → Dict.get i left ≡ none
      → defines Y i (record {
        text = Y.safe_dump (put_ethernets (obj data_fields) (object left));
        mode = mode;
      })
        ≡ false
  unfolding defines
  defines-written data_fields left mode h absent =
      rw
        (
          laws.load-dump (put_ethernets (obj data_fields) (object left)),
          reloaded (put_ethernets (obj data_fields) (object left)),
          ethernets_of-network left data_fields (Dict.get "network" (fields data_fields)) refl h,
          mentions-sort_keys i (or_empty (object left)),
        )
        (mentions-left i left absent)

  present_or_removed :
      (fs : Fields) (removed : List String)
      → (mentions (obj fs) i ≡ ok false) ⊎ Member i removed
      → (Dict.get i (fields fs) ≡ none) ⊎ Member i removed
  present_or_removed fs removed (inl absent) = inl (mentions-absent i fs absent)
  present_or_removed fs removed (inr m) = inr m

  deleted-clean :
      (value : Json) (k : String) (v : Json) (fs : Fields) (removed : List String) (mode : ℕ)
      (left : Dict String Json)
      → ethernets_of value ≡ ok (obj (field k v fs))
      → delete_all removed (fields (field k v fs)) ≡ ok left
      → (mentions (obj (field k v fs)) i ≡ ok false) ⊎ Member i removed
      → defines Y i (record { text = Y.safe_dump (put_ethernets value (object left)); mode = mode })
        ≡ false
  deleted-clean (obj data_fields) k v fs removed mode left h gone m =
      defines-written data_fields left mode h (
        delete_all-absent i removed (fields (field k v fs)) gone
          (present_or_removed (field k v fs) removed m))
  deleted-clean _ k v fs removed mode left h gone m =
      absurd (unfold ethernets_of get_or_empty in ground arith)

  -- The file after a write that brings the whole text to the disk
  rewritten-clean :
      (write : Write Y.Document) (text : Y.Document) (file : (File Y.Document))
      → reaches write ≡ true
      → ((mode : ℕ) → defines Y i (record { text = text; mode = mode }) ≡ false)
      → defines Y i (rewritten write text file) ≡ false
  unfolding rewritten
  rewritten-clean completed text file h clean = clean 0o600
  rewritten-clean mode_kept text file h clean = clean file.mode
  rewritten-clean refused text file h clean = absurd (cc)
  rewritten-clean (cut part) text file h clean = absurd (cc)

  module _ (write : Write Y.Document) (whole : reaches write ≡ true) where
    rewrite_found-clean :
        (value ethernets : Json) (removed : List String) (file : (File Y.Document))
        {changed : (File Y.Document)}
        → ethernets_of value ≡ ok ethernets
        → (mentions ethernets i ≡ ok false) ⊎ Member i removed
        → (mentions ethernets i ≡ ok false → defines Y i file ≡ false)
        → rewrite_found Y write value ethernets removed file ≡ ok changed
        → defines Y i changed ≡ false
    unfolding rewrite_found delete_from
    rewrite_found-clean value e [] file h (inl absent) old eq =
        subst (λ f. defines Y i f ≡ false) (ok-injective eq) (old absent)
    rewrite_found-clean value e [] file h (inr m) old eq = absurd m
    rewrite_found-clean value (obj end) (x ∷ removed) file h m old eq =
        absurd (unfold delete_from delete_all fields Dict.get in cc)
    rewrite_found-clean value (obj (field k v fs)) (x ∷ removed) file h m old eq =
        elim (Result-cases (delete_all (x ∷ removed) (fields (field k v fs)))) [
          | inl (left, gone) ↦
              subst (λ f. defines Y i f ≡ false) (ok-injective (rw gone at eq))
                (rewritten-clean write _ file whole
                  (λ mode. deleted-clean value k v fs (x ∷ removed) mode left h gone m))
          | inr (error, bad) ↦ absurd (cc (rw bad at eq))
        ]
    rewrite_found-clean value _ (x ∷ removed) file h m old eq = absurd (cc)

    rewrite_loaded-clean :
        (interfaces : List String) (loaded : Json) (file : (File Y.Document))
        {changed : (File Y.Document)}
        → Member i interfaces
        → Y.safe_load file.text ≡ ok loaded
        → rewrite_loaded Y write interfaces loaded file ≡ ok changed
        → defines Y i changed ≡ false
    unfolding rewrite_loaded
    rewrite_loaded-clean interfaces loaded file m read eq =
        elim (Result-cases (ethernets_of (or_empty loaded))) [
          | inr (error, bad) ↦ absurd (cc (rw bad at eq))
          | inl (ethernets, good) ↦ elim (Result-cases (mentioned ethernets interfaces)) [
            | inr (error, bad) ↦ absurd (cc (rw (good, bad) at eq))
            | inl (removed, found) ↦
                rewrite_found-clean (or_empty loaded) ethernets removed file good
                  (mentioned_lem ethernets i interfaces found m)
                  (λ absent. unfold defines in rw (read, good, absent)) (rw (good, found) at eq)
          ]
        ]

    -- A file that is gone through and left or rewritten names the interface no more.
    pub neutralize_file-loaded :
        (interfaces : List String) (file : (File Y.Document)) (loaded : Result Json)
        {changed : (File Y.Document)}
        → Member i interfaces
        → Y.safe_load file.text ≡ loaded
        → neutralize_file Y write interfaces file ≡ ok changed
        → defines Y i changed ≡ false
    unfolding neutralize_file
    neutralize_file-loaded interfaces file (raised e) m read eq =
        subst (λ f. defines Y i f ≡ false) (ok-injective (rw (read, neutralize_file) at eq))
          (unfold defines in rw read)
    neutralize_file-loaded interfaces file (ok loaded) m read eq =
        rewrite_loaded-clean interfaces loaded file m read (rw (read, neutralize_file) at eq)
