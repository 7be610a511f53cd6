-- ===== src/Json.antt =====
-- JSON values as Python holds them after `json.load`, subscripts of them, and `json.dumps`.
pub mod Dumps
use mo_ip_checker.Base.{
  zero, String, Bool, true, false, not, ◌&&◌, ◌||◌, ◌==◌, nat_eq, Option, none, some, List, [], ◌∷◌,
  ◌≡◌, refl, ap, Text, string_eq,
}
use mo_ip_checker.Base.Int.{ℤ, pos}
use mo_ip_checker.Base.Dict
use mo_ip_checker.Base.Dict.{Dict}
use mo_ip_checker.Base.Exec.{Result, ok, raised, type_error, key_error, some_or}

-- A number with a fraction or an exponent is kept as its text.
mutual
  pub data Json : Type 0 where
    null : Json
    bool : Bool → Json
    num : ℤ → Json
    real : Text → Json
    str : Text → Json
    arr : Items → Json
    obj : Fields → Json

  pub data Items : Type 0 where
    nil : Items
    cons : Json → Items → Items

  pub data Fields : Type 0 where
    end : Fields
    field : String → Json → Fields → Fields

unfoldable pub fields : Fields → Dict String Json
fields end = []
fields (field k v fs) = (k, v) ∷ fields fs

unfoldable pub of_dict : Dict String Json → Fields
of_dict [] = end
of_dict ((k, v) ∷ d) = field k v (of_dict d)

pub fields-of_dict : (d : Dict String Json) → fields (of_dict d) ≡ d
unfolding fields of_dict
fields-of_dict [] = refl
fields-of_dict ((k, v) ∷ d) = ap (λ r. (k, v) ∷ r) (fields-of_dict d)

unfoldable pub of_list : List Json → Items
of_list [] = nil
of_list (x ∷ xs) = cons x (of_list xs)

unfoldable pub elements : Items → List Json
elements nil = []
elements (cons x xs) = x ∷ elements xs

-- `value[key]` with a text for the key
unfoldable pub subscript : Json → String → Result Json
subscript (obj fs) k = some_or key_error (Dict.get k (fields fs))
subscript _ k = raised type_error

-- `dict` literals
abbrev pub object : Dict String Json → Json
object d = obj (of_dict d)

-- Whether the digits of a number's text, up to an exponent, are all 0.
unfoldable pub is_zero : Text → Bool
unfolding nat_eq
is_zero [] = true
is_zero (c ∷ s) = c == b'e' || c == b'E' || ((c == b'0' || c == b'.' || c == b'-') && is_zero s)

-- `bool(value)`
unfoldable pub truthy : Json → Bool
truthy null = false
truthy (bool b) = b
truthy (num (pos zero)) = false
truthy (real s) = not (is_zero s)
truthy (str []) = false
truthy (arr nil) = false
truthy (obj end) = false
truthy _ = true
