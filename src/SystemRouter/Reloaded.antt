-- ===== src/SystemRouter/Reloaded.antt =====
-- What netplan reads of a value that was dumped and is loaded again.
use mo_ip_checker.Base.{
  String, ◌≡◌, refl, ◌==◌, ◌||◌, text_eq, codes, ◌∙◌, ap, true, Option, none, some, arith,
  string_eq,
}
use mo_ip_checker.Base.Dict
use mo_ip_checker.Base.Exec.{Result, ok, raised}
use mo_ip_checker.Json.{
  Json, null, bool, num, real, str, arr, obj, Items, nil, cons, Fields, end, field, fields, truthy,
}
use mo_ip_checker.SystemRouter.Netplan.{get_or_empty, has_text, mentions, ◌>=>◌, ethernets_of}
use mo_ip_checker.SystemRouter.Conflicts.{or_empty}
use mo_ip_checker.SystemRouter.Entries.{entry_in}
use mo_ip_checker.SystemRouter.Sorted.{
  sort_keys, sort_items, insert_key, sorted_value, get-sort_fields,
}

abbrev pub sorted_result : Result Json → Result Json
sorted_result (ok j) = ok (sort_keys j)
sorted_result (raised e) = raised e

truthy-insert_key : (k : String) (v : Json) (fs : Fields) → truthy (obj (insert_key k v fs)) ≡ true
unfolding truthy insert_key
truthy-insert_key k v end = refl
truthy-insert_key k v (field j w fs) = ground arith

truthy-sort_keys : (j : Json) → truthy (sort_keys j) ≡ truthy j
unfolding truthy sort_keys
truthy-sort_keys (obj end) = refl
truthy-sort_keys (obj (field k v fs)) = truthy-insert_key k (sort_keys v) _
truthy-sort_keys (arr nil) = refl
truthy-sort_keys (arr (cons x xs)) = refl
truthy-sort_keys null = refl
truthy-sort_keys (bool b) = refl
truthy-sort_keys (num n) = refl
truthy-sort_keys (real s) = refl
truthy-sort_keys (str s) = refl

or_empty-sort_keys : (j : Json) → or_empty (sort_keys j) ≡ sort_keys (or_empty j)
unfolding sort_keys
or_empty-sort_keys j = rw (truthy-sort_keys j) (ground arith)

abbrev chosen : Option Json → Result Json
chosen none = ok (obj end)
chosen (some value) = ok (or_empty value)

chosen-sorted : (o : Option Json) → chosen (sorted_value o) ≡ sorted_result (chosen o)
unfolding sort_keys
chosen-sorted none = refl
chosen-sorted (some v) = ap ok (or_empty-sort_keys v)

get_or_empty-sort_keys :
    (k : String) (j : Json) → get_or_empty k (sort_keys j) ≡ sorted_result (get_or_empty k j)
unfolding get_or_empty sort_keys
get_or_empty-sort_keys k (obj fs) =
    ap (λ o. chosen o) (get-sort_fields k fs) ∙ chosen-sorted (Dict.get k (fields fs))
get_or_empty-sort_keys k (arr xs) = refl
get_or_empty-sort_keys k null = refl
get_or_empty-sort_keys k (bool b) = refl
get_or_empty-sort_keys k (num n) = refl
get_or_empty-sort_keys k (real s) = refl
get_or_empty-sort_keys k (str s) = refl

ethernets-sorted :
    (r : Result Json)
    → (sorted_result r >=> get_or_empty "ethernets")
      ≡ sorted_result (r >=> get_or_empty "ethernets")
ethernets-sorted (ok j) = get_or_empty-sort_keys "ethernets" j
ethernets-sorted (raised e) = refl

-- The ethernets of a value with sorted keys are those of the value, sorted.
pub reloaded :
    (j : Json) → ethernets_of (or_empty (sort_keys j)) ≡ sorted_result (ethernets_of (or_empty j))
unfolding ethernets_of
reloaded j =
    rw (or_empty-sort_keys j, get_or_empty-sort_keys "network" (or_empty j))
      (ethernets-sorted (get_or_empty "network" (or_empty j)))

module _ (i : String) where
  has_text-sort_items : (xs : Items) → has_text i (sort_items xs) ≡ has_text i xs
  unfolding has_text sort_keys
  has_text-sort_items nil = refl
  has_text-sort_items (cons (str s) xs) = ap (λ b. codes i == s || b) (has_text-sort_items xs)
  has_text-sort_items (cons null xs) = has_text-sort_items xs
  has_text-sort_items (cons (bool b) xs) = has_text-sort_items xs
  has_text-sort_items (cons (num n) xs) = has_text-sort_items xs
  has_text-sort_items (cons (real s) xs) = has_text-sort_items xs
  has_text-sort_items (cons (arr ys) xs) = has_text-sort_items xs
  has_text-sort_items (cons (obj fs) xs) = has_text-sort_items xs

  pub mentions-sort_keys : (j : Json) → mentions (sort_keys j) i ≡ mentions j i
  unfolding mentions sort_keys
  mentions-sort_keys (obj fs) = ground (arith, get-sort_fields i fs)
  mentions-sort_keys (arr xs) = ap ok (has_text-sort_items xs)
  mentions-sort_keys null = refl
  mentions-sort_keys (bool b) = refl
  mentions-sort_keys (num n) = refl
  mentions-sort_keys (real s) = refl
  mentions-sort_keys (str s) = refl

  pub entry_in-sort_keys :
      (r : Result Json) → entry_in i (sorted_result r) ≡ sorted_value (entry_in i r)
  unfolding entry_in sort_keys
  entry_in-sort_keys (ok (obj fs)) = get-sort_fields i fs
  entry_in-sort_keys (ok (arr xs)) = refl
  entry_in-sort_keys (ok null) = refl
  entry_in-sort_keys (ok (bool b)) = refl
  entry_in-sort_keys (ok (num n)) = refl
  entry_in-sort_keys (ok (real s)) = refl
  entry_in-sort_keys (ok (str s)) = refl
  entry_in-sort_keys (raised e) = refl
