-- ===== src/Monitor/Interfaces/Laws.antt =====
-- The list of network interfaces that is offered.
use mathlib.Core.List.{Perm}
use mathlib.Core.List.Perm
use mo_ip_checker.Base.{
  ◌≡◌, refl, true, false, not, none, some, List, [], ◌∷◌, Text, arith, nat_eq, string_eq,
  if◌then◌else◌, Bool-cases, inl, inr, keep_if, Member,
}
use mo_ip_checker.Base.Dict
use mo_ip_checker.Base.Exec.{ok, raised, key_error, Error, Result-cases}
use mo_ip_checker.Base.Texts.{lt_text}
use mo_ip_checker.Json.{Json, str, arr, obj, Items, Fields, fields, elements}
use mo_ip_checker.Monitor.Interfaces.{
  insert, sorted, excluded_prefixes, starts_with_any, iterate, link_names, link_name,
  interface_name, list_network_interfaces,
}

lt_text-asymm : (s t : Text) → lt_text s t ≡ true → lt_text t s ≡ false
unfolding lt_text
lt_text-asymm s [] h = absurd (cc)
lt_text-asymm [] (b ∷ t) h = refl
lt_text-asymm (a ∷ s) (b ∷ t) h = ground (arith, lt_text-asymm s t)

-- No text of the list is greater than the next one.
abbrev pub IsSorted : List Text → Type 0
IsSorted [] = Unit
IsSorted (x ∷ []) = Unit
IsSorted (x ∷ y ∷ ys) = (lt_text y x ≡ false) × IsSorted (y ∷ ys)

tail-IsSorted : (y : Text) (ys : List Text) → IsSorted (y ∷ ys) → IsSorted ys
tail-IsSorted y [] s = tt
tail-IsSorted y (z ∷ zs) s = s.1

cons-IsSorted :
    (x y : Text) (ys : List Text)
    → lt_text y x ≡ true
    → IsSorted (y ∷ ys)
    → IsSorted (insert x ys)
    → IsSorted (y ∷ insert x ys)
unfolding insert
cons-IsSorted x y [] less sorted s = (lt_text-asymm y x less, tt)
cons-IsSorted x y (z ∷ zs) less (le, rest) s = elim (Bool-cases (lt_text z x)) [
  | inl e ↦ rw e (le, rw e at s)
  | inr e ↦ rw e (lt_text-asymm y x less, rw e at s)
]

insert-IsSorted : (x : Text) (ys : List Text) → IsSorted ys → IsSorted (insert x ys)
unfolding insert
insert-IsSorted x [] s = tt
insert-IsSorted x (y ∷ ys) s = elim (Bool-cases (lt_text y x)) [
  | inl e ↦ rw e (cons-IsSorted x y ys e s (insert-IsSorted x ys (tail-IsSorted y ys s)))
  | inr e ↦ rw e (e, s)
]

insert-perm : (x : Text) (ys : List Text) → Perm (insert x ys) (x ∷ ys)
unfolding insert
insert-perm x [] = Perm.rfl
insert-perm x (y ∷ ys) = elim (Bool-cases (lt_text y x)) [
  | inl less ↦ rw less (Perm.trans (Perm.cons y (insert-perm x ys)) (Perm.swap x y ys))
  | inr rest ↦ rw rest Perm.rfl
]

sorted-IsSorted : (xs : List Text) → IsSorted (sorted xs)
unfolding sorted
sorted-IsSorted [] = tt
sorted-IsSorted (x ∷ xs) = insert-IsSorted x (sorted xs) (sorted-IsSorted xs)

sorted-perm : (xs : List Text) → Perm (sorted xs) xs
unfolding sorted
sorted-perm [] = Perm.rfl
sorted-perm (x ∷ xs) = Perm.trans (insert-perm x (sorted xs)) (Perm.cons x (sorted-perm xs))

-- A link with this name, whatever else it holds
abbrev pub HasName : Json → Text → Type 0
HasName (obj fs) name = Dict.get "ifname" (fields fs) ≡ some (str name)
HasName _ name = ⊥

-- The links have these names, in this order.
abbrev pub Named : List Json → List Text → Type 0
Named [] [] = Unit
Named (link ∷ links) (name ∷ names) = HasName link name × Named links names
Named _ _ = ⊥

-- The interfaces that a user may choose.
abbrev pub offered : List Text → List Text
offered names = keep_if (λ name. not (starts_with_any excluded_prefixes name)) names

link_name-HasName :
    (link : Json) (name : Text)
    → HasName link name
    → link_name link ≡ ok (if starts_with_any excluded_prefixes name then none else some name)
unfolding link_name interface_name
link_name-HasName (obj fs) name h = rw (h, interface_name)
link_name-HasName _ name h = absurd h

link_names-Named :
    (links : List Json) (names : List Text)
    → Named links names
    → link_names links ≡ ok (offered names)
unfolding link_names
link_names-Named [] [] h = refl
link_names-Named [] (name ∷ names) h = absurd h
link_names-Named (link ∷ links) [] h = absurd h
link_names-Named (link ∷ links) (name ∷ names) (h, hs) =
    ground (arith, link_name-HasName link name h, link_names-Named links names hs)

-- If `ip` answers with a list of objects with these names, `list_network_interfaces` gives a sorted
-- list with exactly the names that begin with none of the excluded prefixes, as often as they
-- occur.
pub list_network_interfaces-Named :
    (links : Items) (names : List Text)
    → Named (elements links) names
    → IsSorted (list_network_interfaces (ok (arr links)))
      × Perm (list_network_interfaces (ok (arr links))) (offered names)
unfolding list_network_interfaces iterate
list_network_interfaces-Named links names h =
    rw (link_names-Named (elements links) names h)
      (sorted-IsSorted (offered names), sorted-perm (offered names))

link_names-raised :
    (links : List Json) (link : Json) {e : Error}
    → link_name link ≡ raised e
    → Member link links
    → (e' : Error) × (link_names links ≡ raised e')
unfolding link_names
link_names-raised [] link bad m = absurd m
link_names-raised (x ∷ links) link {e} bad (inl same) = (e, rw (← same, bad, link_names))
link_names-raised (x ∷ links) link bad (inr m) =
    let (e', h) = link_names-raised links link bad m in
    elim (Result-cases (link_name x)) [
      | inl (name, good) ↦ (e', rw (good, h, link_names))
      | inr (e'', worse) ↦ (e'', rw (worse, link_names))
    ]

-- If one object of the list that `ip` answers with has no `ifname`, no interface is offered,
-- whatever the other links are.
pub list_network_interfaces-unnamed :
    (links : Items) (link : Fields)
    → Member (obj link) (elements links)
    → Dict.get "ifname" (fields link) ≡ none
    → list_network_interfaces (ok (arr links)) ≡ []
unfolding list_network_interfaces iterate
list_network_interfaces-unnamed links link m h =
    let bad : link_name (obj link) ≡ raised key_error =
      unfold link_name interface_name in rw (h, interface_name) in
    let (e, all) = link_names-raised (elements links) (obj link) bad m in rw all
