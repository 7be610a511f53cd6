-- ===== src/SystemRouter/Conflicts.antt =====
-- When a netplan file defines an interface, and what the deletion of interfaces leaves of its value.
use mathlib.Core.Path.{subst}
use mo_ip_checker.Base.{
  String, ◌≡◌, refl, ◌∙◌, ap, Bool, true, false, Option, none, some, List, [], ◌∷◌, arith, ==-self,
  string_eq, if◌then◌else◌, ◌⊎◌, inl, inr, Member, Option-cases,
}
use mo_ip_checker.Base.Dict
use mo_ip_checker.Base.Dict.{Dict, get-put, get-remove}
use mo_ip_checker.Base.Exec.{ok-injective, Result, ok, raised}
use mo_ip_checker.Json.{
  Json, obj, Fields, end, field, fields, of_dict, fields-of_dict, object, truthy,
}
use mo_ip_checker.SystemRouter.Netplan.{
  Yaml, File, get_or_empty, mentions, ◌>=>◌, mentioned, delete_all, put_ethernets, ethernets_of,
}

-- `data or {}`
abbrev pub or_empty : Json → Json
or_empty value = if truthy value then value else obj end

-- Whether the `ethernets` of a value name an interface; an exception on the way counts as no.
abbrev pub found_in : Result Bool → Bool
found_in (ok b) = b
found_in (raised e) = false

abbrev names_interface : String → Result Json → Bool
names_interface iface (raised e) = false
names_interface iface (ok loaded) =
    found_in (ethernets_of (or_empty loaded) >=> λ ethernets. mentions ethernets iface)

unfoldable pub defines : (Y : Yaml) → String → File Y.Document → Bool
defines Y iface file = names_interface iface (Y.safe_load file.text)

Member-when :
    (i x : String) (b : Bool) (r : List String) → Member i r → Member i (if b then x ∷ r else r)
Member-when i x true r m = inr m
Member-when i x false r m = m

module _ (e : Json) (i : String) where
  mentioned-head :
      (x : String) (b : Bool) (r : List String)
      → mentions e x ≡ ok b
      → i ≡ x
      → (mentions e i ≡ ok false) ⊎ Member i (if b then x ∷ r else r)
  mentioned-head x true r eq same = inr (inl same)
  mentioned-head x false r eq same = inl (ap (mentions e) same ∙ eq)

  mentioned_from :
      (x : String) (xs : List String) (here : Result Bool) (rest : Result (List String))
      {removed : List String}
      → mentions e x ≡ here
      → mentioned e xs ≡ rest
      → ((r : List String)
          → mentioned e xs ≡ ok r
          → Member i xs
          → (mentions e i ≡ ok false) ⊎ Member i r)
      → (here >=> λ found. rest >=> λ r. ok (if found then x ∷ r else r)) ≡ ok removed
      → Member i (x ∷ xs)
      → (mentions e i ≡ ok false) ⊎ Member i removed
  mentioned_from x xs (raised _) rest eq er ih h m = absurd (cc)
  mentioned_from x xs (ok b) (raised _) eq er ih h m = absurd (cc)
  mentioned_from x xs (ok b) (ok r) {removed} eq er ih h (inl same) =
      subst (λ l. (mentions e i ≡ ok false) ⊎ Member i l) (ok-injective h)
        (mentioned-head x b r eq same)
  mentioned_from x xs (ok b) (ok r) {removed} eq er ih h (inr m) =
      subst (λ l. (mentions e i ≡ ok false) ⊎ Member i l) (ok-injective h)
        (elim (ih r er m) [ inl absent ↦ inl absent | inr there ↦ inr (Member-when i x b r there) ])

  -- An interface that is asked for and is not among the found ones is not in the dict.
  pub mentioned_lem :
      (xs : List String) {removed : List String}
      → mentioned e xs ≡ ok removed
      → Member i xs
      → (mentions e i ≡ ok false) ⊎ Member i removed
  unfolding mentioned
  mentioned_lem [] h m = absurd m
  mentioned_lem (x ∷ xs) h m =
      mentioned_from x xs (mentions e x) (mentioned e xs) refl refl
        (λ r. mentioned_lem xs {removed = r}) h m

remaining :
    (i x : String) (removed : List String) (d : Dict String Json)
    → (Dict.get i d ≡ none) ⊎ Member i (x ∷ removed)
    → (Dict.get i (Dict.remove x d) ≡ none) ⊎ Member i removed
remaining i x removed d (inl absent) = inl (ground (arith, get-remove i x d))
remaining i x removed d (inr (inl same)) = inl (get-remove i x d ∙ rw (same, ==-self))
remaining i x removed d (inr (inr m)) = inr m

pub delete_all-absent :
    (i : String) (removed : List String) (d : Dict String Json) {left : Dict String Json}
    → delete_all removed d ≡ ok left
    → (Dict.get i d ≡ none) ⊎ Member i removed
    → Dict.get i left ≡ none
unfolding delete_all
delete_all-absent i [] d h (inl absent) = ground arith
delete_all-absent i [] d h (inr m) = absurd m
delete_all-absent i (x ∷ removed) d h m = elim (Option-cases (Dict.get x d)) [
  | inl missing ↦ absurd (cc (rw (missing, delete_all) at h))
  | inr (v, there) ↦
      delete_all-absent i removed (Dict.remove x d) (rw (there, delete_all) at h)
        (remaining i x removed d m)
]

truthy-put :
    (k : String) (v : Json) (d : Dict String Json) → truthy (object (Dict.put k v d)) ≡ true
unfolding truthy of_dict Dict.put
truthy-put k v [] = refl
truthy-put k v ((j, w) ∷ d) = ground arith

get_or_empty-put :
    (k : String) (v : Json) (d : Dict String Json)
    → get_or_empty k (object (Dict.put k v d)) ≡ ok (or_empty v)
unfolding get_or_empty
get_or_empty-put k v d =
    rw (fields-of_dict (Dict.put k v d), get-put k k v d, ==-self, get_or_empty)

ethernets-end : Dict.get "ethernets" (fields end) ≡ none
unfolding fields Dict.get
ethernets-end = refl

-- What the changed value is loaded as names what is left in the dict.
module _ (d : Dict String Json) where
  ethernets_of-put :
      (network data_dict : Dict String Json)
      → ethernets_of
          (object (Dict.put "network" (object (Dict.put "ethernets" (object d) network)) data_dict))
        ≡ ok (or_empty (object d))
  unfolding ethernets_of
  ethernets_of-put network data_dict =
      rw
        (
          get_or_empty-put "network" (object (Dict.put "ethernets" (object d) network)) data_dict,
          truthy-put "ethernets" (object d) network,
        )
        (get_or_empty-put "ethernets" (object d) network)

  pub ethernets_of-network :
      (data_fields : Fields) (network : Option Json) {k : String} {v : Json} {fs : Fields}
      → Dict.get "network" (fields data_fields) ≡ network
      → ethernets_of (obj data_fields) ≡ ok (obj (field k v fs))
      → ethernets_of (or_empty (put_ethernets (obj data_fields) (object d)))
        ≡ ok (or_empty (object d))
  unfolding put_ethernets
  ethernets_of-network data_fields (some (obj network)) eq h =
      rw (eq, truthy-put, put_ethernets) (ethernets_of-put (fields network) (fields data_fields))
  ethernets_of-network data_fields none eq h =
      absurd
        (unfold ethernets_of get_or_empty truthy fields string_eq in ground (arith, ethernets-end))
  ethernets_of-network data_fields (some _) eq h =
      absurd
        (unfold ethernets_of get_or_empty truthy fields string_eq in ground (arith, ethernets-end))

pub mentions-left :
    (i : String) (left : Dict String Json)
    → Dict.get i left ≡ none
    → found_in (mentions (or_empty (object left)) i) ≡ false
unfolding mentions truthy of_dict fields
mentions-left i [] h = ground (arith, h)
mentions-left i ((k, v) ∷ left) h = rw (fields-of_dict left, h)

pub mentions-absent :
    (i : String) (fs : Fields) → mentions (obj fs) i ≡ ok false → Dict.get i (fields fs) ≡ none
unfolding mentions
mentions-absent i fs h = ground arith
