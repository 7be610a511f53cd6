-- ===== src/SystemRouter/Netplan.antt =====
-- `_neutralize_conflicting_netplan_files` and `_write_netplan`, over the files of /etc/netplan in the
-- order of their names; the program's own file, which the loop passes over, may stand anywhere. PyYAML
-- is a parameter, and so is what the disk does with each file that is written.
use mo_ip_checker.Base.{
  ℕ, String, Bool, true, false, not, ◌&&◌, ◌||◌, Option, none, some, List, [], ◌∷◌, ◌++◌, map, Text,
  codes, ◌==◌, nat_eq, string_eq, text_eq, if◌then◌else◌,
}
use mo_ip_checker.Base.Dict
use mo_ip_checker.Base.Texts.{starts_with, ends_with, contains_text}
use mo_ip_checker.Base.Dict.{Dict}
use mo_ip_checker.Base.Exec.{
  Exec, Result, ok, raised, type_error, key_error, attribute_error, os_error, ◌>>◌,
}
use mo_ip_checker.Base.Int.{pos}
use mo_ip_checker.Json.{
  Json, null, bool, num, str, arr, obj, Items, nil, cons, end, fields, object, truthy,
}
pub use mo_ip_checker.SystemRouter.Disk.{
  Yaml, IsYaml, File, Write, completed, refused, cut, mode_kept, Disk,
}
unfoldable pub use mo_ip_checker.SystemRouter.Disk.{rewritten}

pub record Netplan (Document : Type 0) : Type 0 where
  pub cloud_init : Option Text
  pub files : Dict String (File Document)

pub record NicIpConfig : Type 0 where
  pub interface : String
  pub dhcp : Bool
  pub address : Option Text
  pub gateway : Option Text

abbrev pub netplan_name : String
netplan_name = "99-moip-checker.yaml"

unfoldable pub is_foreign : String → Bool
unfolding starts_with nat_eq string_eq
is_foreign name =
    not (name == netplan_name)
    && (ends_with (codes ".yaml") (codes name) || ends_with (codes ".yml") (codes name))

-- `value.get(key) or {}`
unfoldable pub get_or_empty : String → Json → Result Json
get_or_empty key (obj fs) = elim (Dict.get key (fields fs)) [
  | none ↦ ok (obj end)
  | some value ↦ ok (if truthy value then value else obj end)
]
get_or_empty key _ = raised attribute_error

unfoldable pub has_text : String → Items → Bool
has_text iface nil = false
has_text iface (cons (str s) xs) = codes iface == s || has_text iface xs
has_text iface (cons _ xs) = has_text iface xs

abbrev pub is_some {ℓ} : {A : Type ℓ} → Option A → Bool
is_some none = false
is_some (some _) = true

-- `iface in ethernets`
unfoldable pub mentions : Json → String → Result Bool
unfolding has_text contains_text
mentions (obj fs) iface = ok (is_some (Dict.get iface (fields fs)))
mentions (arr xs) iface = ok (has_text iface xs)
mentions (str s) iface = ok (contains_text (codes iface) s)
mentions _ iface = raised type_error

infixl 10 ◌>=>◌
abbrev pub ◌>=>◌ : {A B : Type 0} → Result A → (A → Result B) → Result B
ok a >=> f = f a
raised e >=> f = raised e

-- `[iface for iface in interfaces if iface in ethernets]`
unfoldable pub mentioned : Json → List String → Result (List String)
mentioned ethernets [] = ok []
mentioned ethernets (iface ∷ interfaces) = mentions ethernets iface >=> λ found.
    mentioned ethernets interfaces >=> λ rest. ok (if found then iface ∷ rest else rest)

-- `del ethernets[iface]` for each of the list: a key that is gone by then is a `KeyError`.
unfoldable pub delete_all : List String → Dict String Json → Result (Dict String Json)
delete_all [] d = ok d
delete_all (iface ∷ rest) d = elim (Dict.get iface d) [
  | none ↦ raised key_error
  | some _ ↦ delete_all rest (Dict.remove iface d)
]

-- The deletion from whatever value the key `ethernets` has
unfoldable pub delete_from : List String → Json → Result Json
delete_from removed (obj fs) = delete_all removed (fields fs) >=> λ d. ok (object d)
delete_from removed _ = raised type_error

-- `data` with the changed dict in its place: both keys are there, since something was found in it.
unfoldable pub put_ethernets : Json → Json → Json
put_ethernets (obj data_fields) ethernets = elim (Dict.get "network" (fields data_fields)) [
  | some (obj network) ↦ object (
      Dict.put "network" (object (Dict.put "ethernets" ethernets (fields network)))
        (fields data_fields))
  | _ ↦ obj data_fields
]
put_ethernets value _ = value

unfoldable pub ethernets_of : Json → Result Json
ethernets_of value = get_or_empty "network" value >=> get_or_empty "ethernets"

module _ (Y : Yaml) where
  unfoldable pub rewrite_found :
      Write Y.Document → Json → Json → List String → (File Y.Document) → Result (File Y.Document)
  unfolding rewritten
  rewrite_found write value ethernets [] file = ok file
  rewrite_found write value ethernets (iface ∷ removed) file =
      delete_from (iface ∷ removed) ethernets >=> λ changed.
      ok (rewritten write (Y.safe_dump (put_ethernets value changed)) file)

  -- `data or {}`, and the rest of the loop's body
  unfoldable pub rewrite_loaded :
      Write Y.Document → List String → Json → (File Y.Document) → Result (File Y.Document)
  rewrite_loaded write interfaces loaded file =
      let value = if truthy loaded then loaded else obj end in
      ethernets_of value >=> λ ethernets.
      mentioned ethernets interfaces >=> λ removed. rewrite_found write value ethernets removed file

  -- A file that cannot be loaded is logged and left.
  unfoldable pub neutralize_file :
      Write Y.Document → List String → (File Y.Document) → Result (File Y.Document)
  unfolding rewrite_found rewrite_loaded
  neutralize_file write interfaces file = elim (Y.safe_load file.text) [
    | raised e ↦ ok file
    | ok loaded ↦ rewrite_loaded write interfaces loaded file
  ]

present : Option Text → Bool
present none = false
present (some []) = false
present (some (c ∷ s)) = true

text_or_null : Option Text → Json
text_or_null none = null
text_or_null (some s) = str s

-- The entry of one interface
unfoldable pub entry_of : NicIpConfig → Json
unfolding present text_or_null
entry_of cfg =
    let addresses : Dict String Json =
      if present cfg.address
      then ("addresses", arr (cons (text_or_null cfg.address) nil)) ∷ []
      else [] in
    let routes : Dict String Json =
      if present cfg.gateway
      then (
        "routes",
        arr (
            cons (object (("to", str (codes "default")) ∷ ("via", text_or_null cfg.gateway) ∷ []))
              nil),
      )
        ∷ []
      else [] in
    object (("dhcp4", bool cfg.dhcp) ∷ (if cfg.dhcp then [] else addresses ++ routes))

unfoldable pub ethernets_from : List NicIpConfig → Dict String Json → Dict String Json
ethernets_from [] d = d
ethernets_from (cfg ∷ configs) d = ethernets_from configs (Dict.put cfg.interface (entry_of cfg) d)

unfoldable pub network_of : List NicIpConfig → Json
unfolding ethernets_from
network_of configs = object (
    (
      "network",
      object (("version", num (pos 2)) ∷ ("ethernets", object (ethernets_from configs [])) ∷ []),
    )
    ∷ [])

module _ (Y : Yaml) (D : Disk Y.Document) where
  -- Files before one at which the loop raises stay rewritten.
  unfoldable pub neutralize : List String → Exec (Dict String (File Y.Document)) (Unit {0})
  neutralize interfaces [] = (ok tt, [])
  neutralize interfaces ((name, file) ∷ files) =
      let (result, rest) = neutralize interfaces files in
      if is_foreign name
      then elim (neutralize_file Y (D.foreign name) interfaces file) [
        | raised e ↦ (raised e, (name, file) ∷ files)
        | ok changed ↦ (result, (name, changed) ∷ rest)
      ]
      else (result, (name, file) ∷ rest)

  unfoldable pub disable_cloud_init : Exec (Netplan Y.Document) (Unit {0})
  disable_cloud_init n =
      let text = codes "network: {config: disabled}\n" in
      elim D.cloud_init [
        | completed ↦ (ok tt, record n { cloud_init = some text })
        | refused ↦ (raised os_error, n)
        | cut part ↦ (raised os_error, record n { cloud_init = some part })
        | mode_kept ↦ (ok tt, record n { cloud_init = some text })
      ]

  own_mode : Option (File Y.Document) → ℕ
  own_mode none = D.new_mode
  own_mode (some file) = file.mode

  -- The write of the program's own file, whose exceptions are not caught
  unfoldable pub save_own : Y.Document → Exec (Dict String (File Y.Document)) (Unit {0})
  unfolding own_mode
  save_own text files =
      let mode = own_mode (Dict.get netplan_name files) in
      elim D.own [
        | completed ↦ (ok tt, Dict.put netplan_name (record { text = text; mode = 0o600 }) files)
        | refused ↦ (raised os_error, files)
        | cut part ↦
            (raised os_error, Dict.put netplan_name (record { text = part; mode = mode }) files)
        | mode_kept ↦
            (raised os_error, Dict.put netplan_name (record { text = text; mode = mode }) files)
      ]

  unfoldable pub in_files :
      Exec (Dict String (File Y.Document)) (Unit {0}) → Exec (Netplan Y.Document) (Unit {0})
  in_files m n = let (result, files) = m n.files in (result, record n { files = files })

  unfoldable pub write_netplan : List NicIpConfig → Exec (Netplan Y.Document) (Unit {0})
  unfolding disable_cloud_init in_files save_own
  write_netplan configs = do
    disable_cloud_init
    in_files (neutralize (map (λ cfg. cfg.interface) configs))
    in_files (save_own (Y.safe_dump (network_of configs)))
