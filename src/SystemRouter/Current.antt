-- ===== src/SystemRouter/Current.antt =====
-- The current addresses, `get_system_config`, and the state of the system, of
-- frontend/routers/system.py. What `ip` and psutil print is an argument: `ip -j route show default`
-- prints a list of objects, whose `dev` and `gateway` are texts where they are given.
pub mod Addresses
pub mod Logs
use mo_ip_checker.Base.{
  ℕ, String, Bool, true, false, ◌&&◌, Option, none, some, List, [], ◌∷◌, ◌++◌, Text, codes, ◌==◌,
  text_eq, string_eq, if◌then◌else◌, length, map,
}
use mo_ip_checker.Base.Decimal.{str_ℕ}
use mo_ip_checker.Base.Dict
use mo_ip_checker.Base.Dict.{Dict}
use mo_ip_checker.Base.Int.{ℤ, pos}
use mo_ip_checker.Base.Exec.{
  Exec, Result, ok, raised, type_error, key_error, attribute_error, lift, pure, ◌>>=◌, ◌>>◌,
}
use mo_ip_checker.Json.{
  Json, null, str, arr, of_list, obj, fields, object, of_dict, truthy, subscript,
}
use mo_ip_checker.Numbers.{Numbers}
use mo_ip_checker.Files.{Files}
use mo_ip_checker.ConfigStore.Store.{load_config}
use mo_ip_checker.Monitor.Interfaces.{list_network_interfaces}
use mo_ip_checker.Monitor.Logs.{Entry, get_recent_logs}
use mo_ip_checker.Monitor.Nics.{Reading, Previous, NicStatus, key_of, get_nic_status}
use mo_ip_checker.SystemRouter.Netmask.{prefixlen}

pub record Route : Type 0 where
  pub dev : Option Text
  pub gateway : Option Text

-- An address of a card: `family.name == "AF_INET"`, the address and the netmask
pub record Address : Type 0 where
  pub is_ipv4 : Bool
  pub address : Text
  pub netmask : Option Text

abbrev pub is_given : Option Text → Bool
is_given none = false
is_given (some []) = false
is_given (some (c ∷ s)) = true

abbrev given_text : Option Text → Text
given_text none = []
given_text (some s) = s

-- The dict of the comprehension: a later route of the same device replaces an earlier one.
unfoldable pub gateways_from : List Route → Dict Text Text → Dict Text Text
gateways_from [] d = d
gateways_from (r ∷ routes) d = gateways_from routes (
    if is_given r.dev && is_given r.gateway
    then Dict.put (given_text r.dev) (given_text r.gateway) d
    else d)

-- Any exception is logged, and there is no gateway.
unfoldable pub default_gateways : Result (List Route) → Dict Text Text
default_gateways (raised e) = []
default_gateways (ok routes) = gateways_from routes []

-- `next((a for a in … if a.family.name == "AF_INET"), None)`
unfoldable pub first_ipv4 : List Address → Option Address
first_ipv4 [] = none
first_ipv4 (a ∷ addresses) = if a.is_ipv4 then some a else first_ipv4 addresses

abbrev pub text_or_null : Option Text → Json
text_or_null none = null
text_or_null (some s) = str s

with_prefix : Text → Option ℕ → Text
with_prefix address none = address
with_prefix address (some n) = address ++ codes "/" ++ str_ℕ n

cidr : Text → Option Text → Option Text
cidr address none = none
cidr address (some []) = none
cidr address (some (c ∷ netmask)) = some (with_prefix address (prefixlen (c ∷ netmask)))

unfoldable pub address_of : Option Address → Option Text
unfolding with_prefix cidr
address_of none = none
address_of (some a) = cidr a.address a.netmask

abbrev pub setting_of : Json → Option Text → Option Text → Json
setting_of iface address gateway = object (
    ("interface", iface)
    ∷ ("address", text_or_null address)
    ∷ ("gateway", text_or_null gateway)
    ∷ [])

module _ (addrs : Text → List Address) (gateways : Dict Text Text) where
  key_setting : Json → Option Text → Json
  key_setting iface none = setting_of iface none none
  key_setting iface (some key) =
      setting_of iface (address_of (first_ipv4 (addrs key))) (Dict.get key gateways)

  hashed_setting : Json → Result (Option Text) → Result Json
  hashed_setting iface (raised e) = raised e
  hashed_setting iface (ok key) = ok (key_setting iface key)

  -- The entry of one role
  unfoldable pub role_setting : Json → Result Json
  unfolding key_setting hashed_setting
  role_setting iface =
      if truthy iface then hashed_setting iface (key_of iface) else ok (setting_of iface none none)

  -- The loop over the roles
  unfoldable pub role_settings : Dict String Json → Dict String Json → Result (Dict String Json)
  role_settings [] result = ok result
  role_settings ((role, iface) ∷ roles) result = elim (role_setting iface) [
    | raised e ↦ raised e
    | ok setting ↦ role_settings roles (Dict.put role setting result)
  ]

unfoldable pub current_ip_settings :
    (Text → List Address) → Result (List Route) → Json → Result Json
current_ip_settings addrs routes (obj roles) =
    elim (role_settings addrs (default_gateways routes) (fields roles) []) [
      | raised e ↦ raised e
      | ok result ↦ ok (object result)
    ]
current_ip_settings addrs routes _ = raised attribute_error

unfoldable pub get_system_config : (Text → List Address) → Result (List Route) → Exec Files Json
get_system_config addrs routes = do
  config ← load_config
  system_cfg ← lift (subscript config "system")
  settings ← lift (current_ip_settings addrs routes system_cfg)
  pure (object (("nics", system_cfg) ∷ ("ip_settings", settings) ∷ []))

pub record SystemStatus (Number : Type 0) : Type 0 where
  pub cpu_pct : Number
  pub mem_pct : Number
  pub nics : List (NicStatus Number)
  pub error_log_count : ℕ

-- `system_cfg.values()`
unfoldable pub values_of : Json → Result (List Json)
values_of (obj fs) = ok (map (λ (k, v). v) (fields fs))
values_of _ = raised attribute_error

module _ (N : Numbers) where
  open N use {Number}

  nics_of : Files → Result (List Json)
  nics_of files =
      ((load_config >>= λ config.
      lift (subscript config "system") >>= λ system. lift (values_of system))
        files).0

  -- `cpu_pct` and `mem_pct` are what psutil says.
  unfoldable pub get_system_status :
      Files
      → List Entry
      → Number
      → Number
      → Reading Number
      → Exec (Previous Number) (SystemStatus Number)
  unfolding nics_of
  get_system_status files buffer cpu_pct mem_pct reading = do
    nic_names ← lift (nics_of files)
    nics ← get_nic_status N reading nic_names
    pure (record {
      cpu_pct = cpu_pct;
      mem_pct = mem_pct;
      nics = nics;
      error_log_count = length (get_recent_logs (pos 100) buffer);
    })

abbrev pub entry_json : Entry → Json
entry_json e = object (
    ("timestamp", str e.timestamp)
    ∷ ("level", str e.level)
    ∷ ("logger", str e.logger)
    ∷ ("message", str e.message)
    ∷ [])

abbrev pub logs_json : List Entry → Json
logs_json entries = object (("logs", arr (of_list (map entry_json entries))) ∷ [])

unfoldable pub get_system_log : ℤ → List Entry → Json
get_system_log limit buffer = logs_json (get_recent_logs limit buffer)

-- `links` is what `json.loads` makes of the output of `ip -j link show`.
unfoldable pub get_available_nics : Result Json → Json
get_available_nics links =
    object (("nics", arr (of_list (map str (list_network_interfaces links)))) ∷ [])
