-- ===== src/PtpRouter/Complete.antt =====
-- Configurations with everything that a change of the PTP settings reads.
use mo_ip_checker.Base.{
  String, ◌≡◌, refl, ◌∙◌, Bool, false, true, ◌||◌, Option, some, List, [], ◌∷◌, Text, codes, ◌==◌,
  ==-self, string_eq, text_eq, nat_eq, All, map, Bool-cases, inl, inr,
}
use mo_ip_checker.Base.Dict
use mo_ip_checker.Base.Dict.{Dict, latest, get-put, get-update}
use mo_ip_checker.Base.Exec.{ok}
use mo_ip_checker.Json.{Json, obj, Fields, fields, of_dict, fields-of_dict, object, subscript}
use mo_ip_checker.Files.{Files, json}
use mo_ip_checker.ConfigStore.Store.{config_path}
use mo_ip_checker.ConfigStore.Rendering.{Settings, values}
use mo_ip_checker.PtpRouter.Import.{load_config-json}

-- The keys of the section that the program reads
abbrev pub needed : List String
needed =
    "domain" ∷ "priority1" ∷ "priority2" ∷ "sync_interval" ∷ "announce_interval"
    ∷ "delay_request_interval" ∷ "lock_threshold_ns" ∷ "lock_stable_sec"
    ∷ "offset_alert_threshold_ns" ∷ []

abbrev pub Has : Dict String Json → String → Type 0
Has d k = (v : Json) × (Dict.get k d ≡ some v)

pub record IsComplete (config : Fields) : Type 0 where
  pub ptp : Fields
  pub has_ptp : Dict.get "ptp" (fields config) ≡ some (obj ptp)
  pub given : All (Has (fields ptp)) needed
  pub system : Fields
  pub has_system : Dict.get "system" (fields config) ≡ some (obj system)
  pub interface : Json
  pub has_interface : Dict.get "media_nic_amber" (fields system) ≡ some interface

pub subscript-some :
    (fs : Fields) (k : String) {v : Json}
    → Dict.get k (fields fs) ≡ some v
    → subscript (obj fs) k ≡ ok v
unfolding subscript
subscript-some fs k h = rw h refl

latest-some :
    (k : String) (old : Option Json) (changes : Dict String Json) {v : Json}
    → old ≡ some v
    → (w : Json) × (latest k old changes ≡ some w)
unfolding latest
latest-some k old [] {v} h = (v, h)
latest-some k old ((j, w) ∷ changes) {v} h = elim (Bool-cases (k == j)) [
  | inl same ↦ rw same (latest-some k (some w) changes refl)
  | inr other ↦ rw other (latest-some k old changes h)
]

Has-update : (d patch : Dict String Json) (k : String) → Has d k → Has (Dict.update d patch) k
Has-update d patch k (v, h) =
    let (w, e) = latest-some k (Dict.get k d) patch h in (w, get-update k d patch ∙ e)

All-Has :
    (d patch : Dict String Json) (ks : List String)
    → All (Has d) ks
    → All (Has (Dict.update d patch)) ks
All-Has d patch [] h = h
All-Has d patch (k ∷ ks) (h, hs) = (Has-update d patch k h, All-Has d patch ks hs)

pub get-put_section :
    (section : String) (value : Json) (config : Fields)
    → Dict.get section (fields (of_dict (Dict.put section value (fields config)))) ≡ some value
get-put_section section value config =
    rw (fields-of_dict (Dict.put section value (fields config)), get-put, ==-self) refl

-- A change of the section keeps its keys.
pub put-IsComplete :
    (patch : Dict String Json) {config : Fields} (c : IsComplete config)
    → IsComplete
        (of_dict (Dict.put "ptp" (object (Dict.update (fields c.ptp) patch)) (fields config)))
unfolding string_eq
put-IsComplete patch {config} c =
    let section = object (Dict.update (fields c.ptp) patch) in
    let all = fields-of_dict (Dict.put "ptp" section (fields config)) in
    record {
      ptp = of_dict (Dict.update (fields c.ptp) patch);
      has_ptp = get-put_section "ptp" section config;
      given =
          rw (fields-of_dict (Dict.update (fields c.ptp) patch))
            (All-Has (fields c.ptp) patch needed c.given);
      system = c.system;
      has_system = rw all (get-put "system" "ptp" section (fields config) ∙ c.has_system);
      interface = c.interface;
      has_interface = c.has_interface;
    }

pub Settings-from :
    (fs : Files) {config : Fields}
    → Dict.get config_path fs ≡ some (json (obj config))
    → IsComplete config
    → Settings fs
Settings-from fs {config} held c =
    let (d, (p1, (p2, (s, (a, (r, rest)))))) = c.given in
    record {
      config = obj config;
      ptp = obj c.ptp;
      system = obj c.system;
      domain = d.0;
      priority1 = p1.0;
      priority2 = p2.0;
      sync_interval = s.0;
      announce_interval = a.0;
      delay_request_interval = r.0;
      interface = c.interface;
      loaded = load_config-json held;
      has_ptp = subscript-some config "ptp" c.has_ptp;
      has_system = subscript-some config "system" c.has_system;
      has_interface = subscript-some c.system "media_nic_amber" c.has_interface;
      has_domain = subscript-some c.ptp "domain" d.1;
      has_priority1 = subscript-some c.ptp "priority1" p1.1;
      has_priority2 = subscript-some c.ptp "priority2" p2.1;
      has_sync_interval = subscript-some c.ptp "sync_interval" s.1;
      has_announce_interval = subscript-some c.ptp "announce_interval" a.1;
      has_delay_request_interval = subscript-some c.ptp "delay_request_interval" r.1;
    }

-- The names that the program has values for
abbrev pub placeholders : List Text
placeholders =
    codes "domain"
    ∷ codes "priority1"
    ∷ codes "priority2"
    ∷ codes "sync_interval"
    ∷ codes "announce_interval"
    ∷ codes "delay_request_interval"
    ∷ codes "interface"
    ∷ []

unfoldable pub is_among : List Text → Text → Bool
unfolding text_eq
is_among [] n = false
is_among (name ∷ names) n = n == name || is_among names n

get-is_among :
    (d : Dict Text Text) (n : Text)
    → is_among (map (λ (k, v). k) d) n ≡ true
    → (v : Text) × (Dict.get n d ≡ some v)
unfolding is_among Dict.get
get-is_among [] n h = absurd (cc (h))
get-is_among ((k, v) ∷ d) n h = elim (Bool-cases (n == k)) [
  | inl same ↦ (v, rw same refl)
  | inr other ↦ rw other (get-is_among d n (rw other at h))
]

pub values-is_among :
    (repr : Json → Text) (fs : Files) (r : Settings fs) (n : Text)
    → is_among placeholders n ≡ true
    → (v : Text) × (Dict.get n (values repr r) ≡ some v)
values-is_among repr fs r n h = get-is_among (values repr r) n h
