-- ===== src/PtpRouter/Status.antt =====
-- The status handlers of frontend/routers/ptp.py: `get_ptp_status`, an event of `stream_ptp_status`,
-- and `external_ptp_status`, which monitoring tools call.
use mo_ip_checker.Base.{
  String, ◌≡◌, refl, ap, Bool, true, false, ◌||◌, none, some, List, [], ◌∷◌, Text, arith, ◌==◌,
  ==-eq, string_eq, if◌then◌else◌, Bool-cases, Option-cases, inl, inr, all,
}
use mo_ip_checker.Base.Dict
use mo_ip_checker.Base.Dict.{Dict}
use mo_ip_checker.Base.Exec.{Result, ok, raised}
use mo_ip_checker.Json.{Json, object}
use mo_ip_checker.Json.Dumps.{dumps_ascii}
use mo_ip_checker.LogReader.State.{Reader}
use mo_ip_checker.LogReader.Tick.{get_status}
use mo_ip_checker.PtpRouter.Handlers.{public_fields, select, to_public_dict}

dumped : Result (Dict String Json) → Result Text
dumped (ok d) = ok (dumps_ascii (object d))
dumped (raised e) = raised e

module _ {Number : Type 0} where
  unfoldable pub get_ptp_status : Reader Number → Json
  get_ptp_status r = object (get_status r)

  unfoldable pub external_ptp_status : Reader Number → Result (Dict String Json)
  external_ptp_status r = to_public_dict (get_status r)

  -- The data of one event of the stream
  unfoldable pub stream_event : Reader Number → Result Text
  unfolding dumped
  stream_event r = dumped (to_public_dict (get_status r))

-- `key in keys`
abbrev pub is_in : String → List String → Bool
is_in key [] = false
is_in key (k ∷ keys) = key == k || is_in key keys

abbrev pub has : Dict String Json → String → Bool
has d k = elim (Dict.get k d) [ none ↦ false | some v ↦ true ]

select-has :
    (keys : List String) (snapshot : Dict String Json)
    → all (has snapshot) keys ≡ true
    → (d : Dict String Json) × (select keys snapshot ≡ ok d)
      × ((k : String) → Dict.get k d ≡ (if is_in k keys then Dict.get k snapshot else none))
unfolding select Dict.get
select-has [] snapshot h = ([], refl, λ k. refl)
select-has (key ∷ keys) snapshot h = elim (Option-cases (Dict.get key snapshot)) [
  | inl absent ↦ absurd (ground arith)
  | inr (v, there) ↦
      let (d, done, settings) = select-has keys snapshot (ground arith) in
      (
        (key, v) ∷ d,
        rw (there, done, select) refl,
        λ k. elim (Bool-cases (k == key)) [
          | inl same ↦ ground (arith, ap (λ x. Dict.get x snapshot) (==-eq k key same), there)
          | inr other ↦ ground (arith, settings k)
        ],
      )
]

module _ {Number : Type 0} where
  -- In every state of the log reader, the status for monitoring tools is a dict, never an
  -- exception; it has the values of the full status for the eight public fields and no other key,
  -- and each event of the stream carries the text of this dict.
  pub external_ptp_status-public :
      (r : Reader Number)
      → (d : Dict String Json) × (external_ptp_status r ≡ ok d)
        × (stream_event r ≡ ok (dumps_ascii (object d)))
        × ((k : String)
            → Dict.get k d ≡ (if is_in k public_fields then Dict.get k (get_status r) else none))
  unfolding external_ptp_status stream_event to_public_dict
  external_ptp_status-public r =
      let (d, done, settings) =
        select-has public_fields (get_status r) (unfold get_status Dict.get string_eq in refl) in
      (d, done, rw done, settings)
