-- ===== src/Monitor/Interfaces.antt =====
-- `list_network_interfaces` of frontend/services/system_monitor.py, from the outcome of `ip -j link show` and `json.loads`.
pub mod Laws
use mo_ip_checker.Base.{
  ℕ, String, ◌≡◌, refl, Bool, true, false, not, ◌&&◌, ◌||◌, Option, none, some, List, [], ◌∷◌, map,
  Text, codes, ltb, ◌==◌, nat_eq, string_eq, if◌then◌else◌,
}
use mo_ip_checker.Base.Dict
use mo_ip_checker.Base.Dict.{Dict}
use mo_ip_checker.Base.Exec.{Result, ok, raised, type_error, key_error, attribute_error}
use mo_ip_checker.Json.{
  Json, null, bool, num, real, str, arr, obj, fields, elements, cons, nil, field, end,
}
use mo_ip_checker.Base.Texts.{starts_with, lt_text}

-- `sorted(names)`
unfoldable pub insert : Text → List Text → List Text
insert x [] = x ∷ []
insert x (y ∷ ys) = let rest = insert x ys in if lt_text y x then y ∷ rest else x ∷ y ∷ ys

unfoldable pub sorted : List Text → List Text
unfolding insert
sorted [] = []
sorted (x ∷ xs) = insert x (sorted xs)

abbrev pub excluded_prefixes : List Text
excluded_prefixes = codes "lo" ∷ codes "docker" ∷ codes "br-" ∷ codes "veth" ∷ []

-- `text.startswith(prefixes)` of a tuple
unfoldable pub starts_with_any : List Text → Text → Bool
unfolding starts_with
starts_with_any [] s = false
starts_with_any (p ∷ prefixes) s = starts_with p s || starts_with_any prefixes s

-- `for x in value`
unfoldable pub iterate : Json → Result (List Json)
iterate (arr xs) = ok (elements xs)
iterate (obj fs) = ok (map (λ (k, v). str (codes k)) (fields fs))
iterate (str s) = ok (map (λ c. str (c ∷ [])) s)
iterate _ = raised type_error

-- A link without a name passes the filter as "", and `link["ifname"]` raises.
unfoldable pub interface_name : Option Json → Result (Option Text)
interface_name none = raised key_error
interface_name (some (str s)) = ok (if starts_with_any excluded_prefixes s then none else some s)
interface_name (some _) = raised attribute_error

unfoldable pub link_name : Json → Result (Option Text)
unfolding string_eq
link_name (obj fs) = interface_name (Dict.get "ifname" (fields fs))
link_name _ = raised attribute_error

abbrev cons_some : Option Text → List Text → List Text
cons_some none xs = xs
cons_some (some x) xs = x ∷ xs

unfoldable pub link_names : List Json → Result (List Text)
link_names [] = ok []
link_names (link ∷ links) = elim (link_name link) [
  | raised e ↦ raised e
  | ok name ↦ elim (link_names links) [ raised e ↦ raised e | ok names ↦ ok (cons_some name names) ]
]

names_of : Result (List Json) → Result (List Text)
names_of (raised e) = raised e
names_of (ok links) = link_names links

-- Any exception of the body is logged, and the list is empty.
or_none : Result (List Text) → List Text
or_none (raised e) = []
or_none (ok names) = sorted names

unfoldable pub list_network_interfaces : Result Json → List Text
unfolding names_of or_none
list_network_interfaces (raised e) = []
list_network_interfaces (ok links) = or_none (names_of (iterate links))
