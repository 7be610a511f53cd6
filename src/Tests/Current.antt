-- ===== src/Tests/Current.antt =====
-- The current addresses of a card.
use mo_ip_checker.Base.{
  String, ◌≡◌, refl, true, arith, none, some, List, [], ◌∷◌, ◌++◌, Text, codes, string_eq, text_eq,
}
use mo_ip_checker.Base.Decimal.{str_ℕ}
use mo_ip_checker.Base.Dict
use mo_ip_checker.Base.Texts.{join}
use mo_ip_checker.Base.Dict.{Dict, latest}
use mo_ip_checker.Base.Exec.{Result, ok, raised, os_error}
use mo_ip_checker.Json.{Json, null, str, fields, of_dict, object, truthy}
use mo_ip_checker.Monitor.Nics.{key_of}
use mo_ip_checker.SystemRouter.Netmask.Masks.{mask, dotted}
use mo_ip_checker.SystemRouter.Current.{
  Address, Route, role_setting, setting_of, current_ip_settings, default_gateways, role_settings,
  first_ipv4,
}
use mo_ip_checker.SystemRouter.Current.Addresses.{
  IsEntry, role_setting-dotted, current_ip_settings-IsEntry,
}

abbrev eth0_address : Address
eth0_address = record {
  is_ipv4 = true;
  address = codes "192.168.1.10";
  netmask = some (dotted (mask 24));
}

netmask_run : dotted (mask 24) ≡ codes "255.255.255.0"
unfolding dotted join str_ℕ
netmask_run = refl

abbrev addresses : Text → List Address
addresses _ = eth0_address ∷ []

role_setting-dotted_example :
    role_setting addresses [] (str (codes "eth0"))
    ≡ ok (
        setting_of (str (codes "eth0")) (some (codes "192.168.1.10" ++ codes "/" ++ str_ℕ 24)) none)
unfolding Dict.get
role_setting-dotted_example =
    role_setting-dotted addresses [] b'e' (codes "th0") eth0_address 24 (unfold first_ipv4 in refl)
      (omega arith) refl

abbrev roles : Dict String Json
roles = ("media_nic_amber", str (codes "eth0")) ∷ ("control_nic", null) ∷ []

abbrev no_routes : Result (List Route)
no_routes = raised os_error

abbrev entries : Result Json
entries = current_ip_settings addresses no_routes (object roles)

abbrev some_json : Result Json → Json
some_json (ok j) = j
some_json (raised e) = null

entries_run : entries ≡ ok (some_json entries)
unfolding current_ip_settings role_settings role_setting fields of_dict truthy key_of string_eq
entries_run = refl

current_ip_settings-IsEntry_example :
    (d : Dict String Json) × (some_json entries ≡ object d)
    × ((role : String)
        → IsEntry addresses
            (default_gateways no_routes)
            (latest role none (fields (of_dict roles)))
            (Dict.get role d))
current_ip_settings-IsEntry_example =
    current_ip_settings-IsEntry addresses no_routes (of_dict roles) entries_run
