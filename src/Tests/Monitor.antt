-- ===== src/Tests/Monitor.antt =====
-- The network cards of a small host.
use mathlib.Core.List.{Perm}
use mo_ip_checker.Base.{◌≡◌, refl, true, some, List, [], ◌∷◌, Text, codes, string_eq, text_eq, inl}
use mo_ip_checker.Base.Int.{ℤ, pos, ◌-ℤ◌}
use mo_ip_checker.Base.Dict
use mo_ip_checker.Base.Exec.{ok}
use mo_ip_checker.Json.{Json, str, arr, nil, cons, of_dict, object, Items, elements, fields, truthy}
use mo_ip_checker.Monitor.Interfaces.{list_network_interfaces}
use mo_ip_checker.Monitor.Interfaces.Laws.{
  IsSorted, offered, list_network_interfaces-Named, list_network_interfaces-unnamed,
}
use mo_ip_checker.Monitor.Nics.{
  Reading, Previous, NicStatus, get_nic_status, nic_status, key_of, status_of, measure, is_link_up,
  reported, rate_since, rate_between,
}
use mo_ip_checker.Monitor.Nics.Rates.{IsRounding, Reports, get_nic_status-Reports}
use mo_ip_checker.Monitor.Nics.Kept.{kept, is_listed, get_nic_status-kept}
use mo_ip_checker.Tests.Fixtures.{whole}

abbrev link : Text → Json
link name = object (("ifname", str name) ∷ [])

abbrev links : Items
links = cons (link (codes "lo")) (cons (link (codes "eth1")) (cons (link (codes "eth0")) nil))

abbrev names : List Text
names = codes "lo" ∷ codes "eth1" ∷ codes "eth0" ∷ []

list_network_interfaces-Named_example :
    IsSorted (list_network_interfaces (ok (arr links)))
    × Perm (list_network_interfaces (ok (arr links))) (offered names)
list_network_interfaces-Named_example =
    list_network_interfaces-Named links names
      (unfold elements fields of_dict Dict.get string_eq in (refl, (refl, (refl, tt))))

abbrev with_unnamed : Items
with_unnamed = cons (object []) links

list_network_interfaces-unnamed_example : list_network_interfaces (ok (arr with_unnamed)) ≡ []
list_network_interfaces-unnamed_example =
    list_network_interfaces-unnamed with_unnamed (of_dict []) (unfold elements in inl refl)
      (unfold fields of_dict Dict.get in refl)

whole-IsRounding : IsRounding whole
whole-IsRounding = record { lt-irrefl = refl; round-not_below = λ x h. h }

-- A card that has moved 3000000 bytes in 2 seconds
abbrev reading : Reading ℤ
reading = record { is_up = λ _. some true; total_bytes = λ _. some 4000000; now = pos 7 }

abbrev before : Previous ℤ
before = (codes "eth0", (pos 5, 1000000)) ∷ []

abbrev cards : List Json
cards = str (codes "eth0") ∷ str [] ∷ []

abbrev eth0_status : NicStatus ℤ
eth0_status = record { name = str (codes "eth0"); link_up = true; rate_mbps = pos 12 }

get_nic_status-Reports_example : Reports whole (get_nic_status whole reading cards before).0
get_nic_status-Reports_example = get_nic_status-Reports whole whole-IsRounding reading cards before

abbrev after : Previous ℤ
after = (codes "eth0", (pos 7, 4000000)) ∷ []

status_run : get_nic_status whole reading cards before ≡ (ok (eth0_status ∷ []), after)
unfolding get_nic_status nic_status key_of status_of measure truthy text_eq Dict.get Dict.put
    is_link_up reported rate_since rate_between ◌-ℤ◌
status_run = refl

get_nic_status-kept_example :
    Dict.get (codes "eth0") after
    ≡ kept whole reading
        (is_listed (codes "eth0") cards)
        (some 4000000)
        (Dict.get (codes "eth0") before)
get_nic_status-kept_example =
    get_nic_status-kept whole reading cards before status_run (codes "eth0")
