-- ===== src/ConfigStore/Template/Known.antt =====
-- Templates of which every name has a value.
use mo_ip_checker.Base.{◌≡◌, refl, Bool, true, some, List, [], ◌∷◌, ◌++◌, Text, text_eq}
use mo_ip_checker.Base.Dict
use mo_ip_checker.Base.Dict.{Dict}
use mo_ip_checker.Base.Exec.{ok}
use mo_ip_checker.ConfigStore.Template.{value_of, prefixed}
use mo_ip_checker.ConfigStore.Template.Pieces.{
  Piece, literal, dollar, bare, in_braces, filled, and_then,
}

module _ (is_known : Text → Bool) where
  abbrev pub AreKnown : List Piece → Type 0
  AreKnown [] = Unit
  AreKnown (literal s ∷ ps) = AreKnown ps
  AreKnown (dollar ∷ ps) = AreKnown ps
  AreKnown (bare c s ∷ ps) = (is_known (c ∷ s) ≡ true) × AreKnown ps
  AreKnown (in_braces c s ∷ ps) = (is_known (c ∷ s) ≡ true) × AreKnown ps

  module _ (mapping : Dict Text Text)
      (known : (n : Text) → is_known n ≡ true → (v : Text) × (Dict.get n mapping ≡ some v)) where
    given : (n : Text) → is_known n ≡ true → (v : Text) × (value_of mapping n ≡ ok v)
    unfolding value_of
    given n h = let (v, e) = known n h in (v, rw e refl)

    pub filled-returns :
        (ps : List Piece) → AreKnown ps → (text : Text) × (filled mapping ps ≡ ok text)
    unfolding filled and_then prefixed
    filled-returns [] h = ([], refl)
    filled-returns (literal s ∷ ps) h =
        let (text, e) = filled-returns ps h in (s ++ text, rw e refl)
    filled-returns (dollar ∷ ps) h = let (text, e) = filled-returns ps h in (b'$' ∷ text, rw e refl)
    filled-returns (bare c s ∷ ps) (k, h) =
        let (text, e) = filled-returns ps h in
        let (v, e') = given (c ∷ s) k in (v ++ text, rw (e', e) refl)
    filled-returns (in_braces c s ∷ ps) (k, h) =
        let (text, e) = filled-returns ps h in
        let (v, e') = given (c ∷ s) k in (v ++ text, rw (e', e) refl)
