-- ===== src/SystemRouter/Entries.antt =====
-- What a netplan file defines for an interface, and what the deletion of others leaves of it.
use mathlib.Core.Path.{subst}
use mo_ip_checker.Base.{
  String, ◌≡◌, refl, ◌∙◌, Bool, true, false, ◌||◌, Option, none, List, [], ◌∷◌, arith, ◌==◌,
  string_eq, if◌then◌else◌, inl, inr, Option-cases,
}
use mo_ip_checker.Base.Dict
use mo_ip_checker.Base.Dict.{Dict, get-remove}
use mo_ip_checker.Base.Exec.{ok-injective, Result, ok, raised, Result-cases}
use mo_ip_checker.Json.{Json, obj, fields, of_dict, fields-of_dict, object, truthy}
use mo_ip_checker.SystemRouter.Netplan.{Yaml, File, mentions, mentioned, delete_all, ethernets_of}
use mo_ip_checker.SystemRouter.Conflicts.{or_empty}

abbrev pub is_among : String → List String → Bool
is_among j [] = false
is_among j (x ∷ xs) = j == x || is_among j xs

-- The value of a key among the ethernets, if there are any
unfoldable pub entry_in : String → Result Json → Option Json
entry_in j (ok (obj fs)) = Dict.get j (fields fs)
entry_in j _ = none

unfoldable pub loaded_entry : String → Result Json → Option Json
loaded_entry j (raised e) = none
loaded_entry j (ok loaded) = entry_in j (ethernets_of (or_empty loaded))

-- What netplan reads of an interface in a file
unfoldable pub definition_of : (Y : Yaml) → String → File Y.Document → Option Json
definition_of Y j file = loaded_entry j (Y.safe_load file.text)

module _ (j : String) where
  mentioned_from :
      (e : Json) (x : String) (b : Bool) (r : List String) {removed : List String}
      → is_among j (x ∷ []) ≡ false
      → is_among j r ≡ false
      → ok (if b then x ∷ r else r) ≡ ok removed
      → is_among j removed ≡ false
  mentioned_from e x true r apart rest h =
      subst (λ l. is_among j l ≡ false) (ok-injective h) (ground arith)
  mentioned_from e x false r apart rest h = subst (λ l. is_among j l ≡ false) (ok-injective h) rest

  pub mentioned-is_among :
      (e : Json) (xs : List String) {removed : List String}
      → mentioned e xs ≡ ok removed
      → is_among j xs ≡ false
      → is_among j removed ≡ false
  unfolding mentioned
  mentioned-is_among e [] h apart = subst (λ l. is_among j l ≡ false) (ok-injective h) refl
  mentioned-is_among e (x ∷ xs) h apart = elim (Result-cases (mentions e x)) [
    | inr (error, bad) ↦ absurd (cc (rw (bad, mentioned) at h))
    | inl (b, found) ↦ elim (Result-cases (mentioned e xs)) [
      | inr (error, bad) ↦ absurd (cc (rw (found, bad, mentioned) at h))
      | inl (r, rest) ↦
          mentioned_from e x b r (ground arith) (mentioned-is_among e xs rest (ground arith))
            (rw (found, rest, mentioned) at h)
    ]
  ]

  pub delete_all-keeps :
      (removed : List String) (d : Dict String Json) {left : Dict String Json}
      → delete_all removed d ≡ ok left
      → is_among j removed ≡ false
      → Dict.get j left ≡ Dict.get j d
  unfolding delete_all
  delete_all-keeps [] d h apart = subst (λ l. Dict.get j l ≡ Dict.get j d) (ok-injective h) refl
  delete_all-keeps (x ∷ removed) d h apart = elim (Option-cases (Dict.get x d)) [
    | inl missing ↦ absurd (cc (rw (missing, delete_all) at h))
    | inr (v, there) ↦
        delete_all-keeps removed (Dict.remove x d) (rw (there, delete_all) at h) (ground arith)
        ∙ ground (arith, get-remove j x d)
  ]

  pub entry_in-object :
      (left : Dict String Json) → entry_in j (ok (or_empty (object left))) ≡ Dict.get j left
  unfolding entry_in truthy of_dict fields Dict.get
  entry_in-object [] = refl
  entry_in-object ((k, v) ∷ left) = rw (fields-of_dict left)
