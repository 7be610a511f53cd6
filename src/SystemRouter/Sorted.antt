-- ===== src/SystemRouter/Sorted.antt =====
-- What `yaml.safe_dump` keeps of a value: it writes the keys of every dict in their order.
use mo_ip_checker.Base.{
  String, ◌≡◌, refl, ap, Bool, true, false, Option, none, some, [], ◌∷◌, Text, codes, arith, leb,
  ◌==◌, ==-eq, string_eq, text_eq, nat_eq, if◌then◌else◌, Bool-cases, inl, inr,
}
use mo_ip_checker.Base.Dict
use mo_ip_checker.Base.Dict.{Dict}
use mo_ip_checker.Json.{
  Json, null, bool, num, real, str, arr, obj, Items, nil, cons, Fields, end, field, fields,
}

-- `a <= b` of two texts
unfoldable pub leb_text : Text → Text → Bool
leb_text [] b = true
leb_text (x ∷ a) [] = false
leb_text (x ∷ a) (y ∷ b) =
    let rest = leb_text a b in if leb y x then if leb x y then rest else false else true

leb_text_self : (a : Text) → leb_text a a ≡ true
unfolding leb_text
leb_text_self [] = refl
leb_text_self (x ∷ a) = ground (arith, leb_text_self a)

-- An item in front of the first whose key is not less
unfoldable pub insert_key : String → Json → Fields → Fields
insert_key k v end = field k v end
insert_key k v (field j w fs) =
    let rest = insert_key k v fs in
    if leb_text (codes k) (codes j) then field k v (field j w fs) else field j w rest

unfoldable mutual
  pub sort_keys : Json → Json
  sort_keys (arr xs) = arr (sort_items xs)
  sort_keys (obj fs) = obj (sort_fields fs)
  sort_keys null = null
  sort_keys (bool b) = bool b
  sort_keys (num n) = num n
  sort_keys (real s) = real s
  sort_keys (str s) = str s

  pub sort_items : Items → Items
  sort_items nil = nil
  sort_items (cons x xs) = cons (sort_keys x) (sort_items xs)

  pub sort_fields : Fields → Fields
  sort_fields end = end
  sort_fields (field k v fs) = insert_key k (sort_keys v) (sort_fields fs)

abbrev pub sorted_value : Option Json → Option Json
sorted_value none = none
sorted_value (some v) = some (sort_keys v)

differ_lem : (k j : String) → leb_text (codes k) (codes j) ≡ false → (k == j) ≡ false
differ_lem k j more = elim (Bool-cases (k == j)) [
  | inr differ ↦ differ
  | inl same ↦ absurd (cc (more, leb_text_self (codes k), ==-eq k j same))
]

get-insert_key :
    (i k : String) (v : Json) (fs : Fields)
    → Dict.get i (fields (insert_key k v fs)) ≡ (if i == k then some v else Dict.get i (fields fs))
unfolding insert_key fields Dict.get
get-insert_key i k v end = refl
get-insert_key i k v (field j w fs) = elim (Bool-cases (leb_text (codes k) (codes j))) [
  | inl less ↦ ground (arith, less)
  | inr more ↦ elim (Bool-cases (i == k)) [
    | inr other ↦ ground (arith, more, other, get-insert_key i k v fs)
    | inl same ↦ ground (
      arith,
      more,
      same,
      get-insert_key i k v fs,
      ap (λ x. x == j) (==-eq i k same),
      differ_lem k j more,
    )
  ]
]

pub get-sort_fields :
    (i : String) (fs : Fields)
    → Dict.get i (fields (sort_fields fs)) ≡ sorted_value (Dict.get i (fields fs))
unfolding sort_keys fields Dict.get
get-sort_fields i end = refl
get-sort_fields i (field k v fs) =
    ground (arith, get-insert_key i k (sort_keys v) (sort_fields fs), get-sort_fields i fs)
