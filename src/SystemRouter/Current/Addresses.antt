-- ===== src/SystemRouter/Current/Addresses.antt =====
-- The entries of the roles in the current addresses.
use mathlib.Core.Path.{subst}
use mo_ip_checker.Base.{
  ℕ, ◌≤◌, ◌-◌, String, ◌≡◌, refl, sym, ◌∙◌, Option, none, some, List, [], ◌∷◌, ◌++◌, Text, codes,
  ◌==◌, text_eq, string_eq, if◌then◌else◌, arith, length, length-drop, leb, Bool-cases, inl, inr,
}
use mo_ip_checker.Base.Decimal.{str_ℕ}
use mo_ip_checker.Base.Dict
use mo_ip_checker.Base.Dict.{Dict, get-put, latest}
use mo_ip_checker.Base.Exec.{ok-injective, Result, ok, Result-cases}
use mo_ip_checker.Json.{Json, str, obj, Fields, fields, object, truthy}
use mo_ip_checker.Monitor.Logs.{Entry, get_recent_logs}
use mo_ip_checker.Monitor.Nics.{key_of, Reading, Previous}
use mo_ip_checker.Numbers.{Numbers}
use mo_ip_checker.Files.{Files}
use mo_ip_checker.SystemRouter.Netmask.{prefixlen}
use mo_ip_checker.SystemRouter.Netmask.Masks.{mask, dotted, dotted-cons, prefixlen-dotted}
use mo_ip_checker.SystemRouter.Current.{
  Route, Address, first_ipv4, address_of, setting_of, role_setting, role_settings,
  current_ip_settings, default_gateways, cidr, with_prefix, SystemStatus, get_system_status,
}

cidr-cons :
    (address netmask : Text) {c : ℕ} {s : Text} {o : Option ℕ}
    → netmask ≡ c ∷ s
    → prefixlen netmask ≡ o
    → cidr address (some netmask) ≡ some (with_prefix address o)
unfolding cidr
cidr-cons address [] h p = absurd (cc)
cidr-cons address (c ∷ s) h p = rw p

cidr-dotted :
    (address : Text) (n : ℕ)
    → n ≤ 32
    → cidr address (some (dotted (mask n))) ≡ some (address ++ codes "/" ++ str_ℕ n)
unfolding with_prefix
cidr-dotted address n h =
    let (c, s, e) = dotted-cons (mask n) in
    cidr-cons address (dotted (mask n)) e (prefixlen-dotted n h)

module _ (addrs : Text → List Address) (gateways : Dict Text Text) where
  -- If the first IPv4 address of the card that a role has comes with the dotted netmask of `n`
  -- leading ones, for `n` of at most 32, the entry of the role shows the address with the suffix
  -- `/n`, and the gateway of the card.
  pub role_setting-dotted :
      (c : ℕ) (s : Text) (a : Address) (n : ℕ)
      → first_ipv4 (addrs (c ∷ s)) ≡ some a
      → n ≤ 32
      → a.netmask ≡ some (dotted (mask n))
      → role_setting addrs gateways (str (c ∷ s))
        ≡ ok (
            setting_of
              (str (c ∷ s))
              (some (a.address ++ codes "/" ++ str_ℕ n))
              (Dict.get (c ∷ s) gateways))
  unfolding role_setting truthy key_of address_of
  role_setting-dotted c s a n first h netmask =
      rw (first, address_of, netmask) (rw (cidr-dotted a.address n h))

  -- What the entry of a role is, by the card that the role has.
  abbrev pub IsEntry : Option Json → Option Json → Type 0
  IsEntry none entry = entry ≡ none
  IsEntry (some iface) entry =
      (setting : Json) × (role_setting addrs gateways iface ≡ ok setting) × (entry ≡ some setting)

  put-IsEntry :
      (role r : String) (iface setting : Json) (old : Option Json) (result : Dict String Json)
      → role_setting addrs gateways iface ≡ ok setting
      → IsEntry old (Dict.get role result)
      → IsEntry (if role == r then some iface else old) (Dict.get role (Dict.put r setting result))
  put-IsEntry role r iface setting old result h entry = elim (Bool-cases (role == r)) [
    | inl same ↦ rw same (setting, h, get-put role r setting result ∙ rw same)
    | inr other ↦
        rw other (subst (IsEntry old) (sym (get-put role r setting result ∙ rw other)) entry)
  ]

  role_settings-IsEntry :
      (role : String) (roles result : Dict String Json) (old : Option Json) {out : Dict String Json}
      → IsEntry old (Dict.get role result)
      → role_settings addrs gateways roles result ≡ ok out
      → IsEntry (latest role old roles) (Dict.get role out)
  unfolding role_settings latest
  role_settings-IsEntry role [] result old entry h =
      subst (λ d. IsEntry old (Dict.get role d)) (ok-injective h) entry
  role_settings-IsEntry role ((r, iface) ∷ roles) result old entry h =
      elim (Result-cases (role_setting addrs gateways iface)) [
        | inr (e, bad) ↦ absurd (cc (rw (bad, role_settings) at h))
        | inl (setting, good) ↦
            role_settings-IsEntry role roles (Dict.put r setting result)
              (if role == r then some iface else old)
              (put-IsEntry role r iface setting old result good entry)
              (rw (good, role_settings) at h)
      ]

-- A call of `_current_ip_settings` for a dict of roles that returns gives a dict with an entry for
-- exactly the roles of the dict, each the entry of the card that the role has last.
pub current_ip_settings-IsEntry :
    (addrs : Text → List Address) (routes : Result (List Route)) (roles : Fields) {out : Json}
    → current_ip_settings addrs routes (obj roles) ≡ ok out
    → (d : Dict String Json) × (out ≡ object d)
      × ((role : String)
          → IsEntry addrs
              (default_gateways routes)
              (latest role none (fields roles))
              (Dict.get role d))
unfolding current_ip_settings
current_ip_settings-IsEntry addrs routes roles h =
    elim (Result-cases (role_settings addrs (default_gateways routes) (fields roles) [])) [
      | inr (e, bad) ↦ absurd (cc (rw (bad, current_ip_settings) at h))
      | inl (d, good) ↦ (
        d,
        sym (ok-injective (rw (good, current_ip_settings) at h)),
        λ role.
            role_settings-IsEntry addrs (default_gateways routes) role (fields roles) [] none
              (unfold Dict.get in refl) good,
      )
    ]

-- In a status that `get_system_status` returns, the count of logged errors is the number of entries
-- in the buffer, but never more than 100.
pub get_system_status-error_log_count :
    (N : Numbers) (files : Files) (buffer : List Entry) (cpu_pct mem_pct : N.Number)
    (reading : Reading N.Number) (previous : Previous N.Number) {status : SystemStatus N.Number}
    {after : Previous N.Number}
    → get_system_status N files buffer cpu_pct mem_pct reading previous ≡ (ok status, after)
    → status.error_log_count ≡ (if leb 100 (length buffer) then 100 else length buffer)
unfolding get_system_status get_recent_logs
get_system_status-error_log_count N files buffer cpu_pct mem_pct reading previous h =
    ground (arith, length-drop (length buffer - 100) buffer)
