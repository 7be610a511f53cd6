-- ===== src/Pattern/Runs.antt =====
-- How the matcher goes over a run of characters of one class, and over literal text.
use mathlib.Core.List.{append_assoc, append-nil}
use mo_ip_checker.Base.{
  ℕ, ◌≡◌, refl, sym, ◌∙◌, ap, true, false, Option, none, some, List, [], ◌∷◌, ◌++◌, Text, All,
  ==-self, nat_eq,
}
use mo_ip_checker.Pattern.Engine.{
  Unicode, Class, Item, Captures, took, fits, plus_here, match_here, literals,
}

-- The text that follows does not begin with a character of the class.
abbrev pub Stops : Unicode → Class → Text → Type 0
Stops u cls [] = Unit
Stops u cls (c ∷ s) = fits u cls c ≡ false

-- The captures after a run is read.
abbrev pub took_all : Text → Captures → Captures
took_all run st = record st { current = st.current ++ run }

took_all-took :
    (c : ℕ) (run : Text) (st : Captures) → took_all run (took c st) ≡ took_all (c ∷ run) st
took_all-took c run st =
    ap (λ x. record { current = x; groups = st.groups }) (append_assoc st.current (c ∷ []) run)

module _ (u : Unicode) where
  plus_here-Stops :
      (cls : Class) (k : Text → Captures → Option Captures) (s : Text) (st : Captures)
      → Stops u cls s
      → plus_here u cls k s st ≡ none
  unfolding plus_here
  plus_here-Stops cls k [] st h = refl
  plus_here-Stops cls k (c ∷ s) st h = rw h

  -- A run is read whole, if what follows goes on from there.
  pub plus_here-run :
      (cls : Class) (k : Text → Captures → Option Captures) (c : ℕ) (run s : Text) (st : Captures)
      {t : Captures}
      → All (λ x. fits u cls x ≡ true) (c ∷ run)
      → Stops u cls s
      → k s (took_all (c ∷ run) st) ≡ some t
      → plus_here u cls k (c ∷ run ++ s) st ≡ some t
  unfolding plus_here
  plus_here-run cls k c [] s st (fit, _) stops goes =
      rw (fit, plus_here-Stops cls k s (took c st) stops) goes
  plus_here-run cls k c (d ∷ run) s st {t} (fit, fits_run) stops goes =
      rw (
        fit,
        plus_here-run cls k d run s (took c st) {t = t} fits_run stops (rw took_all-took goes),
      )

  -- Literal text is read character by character.
  pub match_here-literals :
      (word : Text) (items : List Item) (s : Text) (st : Captures)
      → match_here u (literals word items) (word ++ s) st ≡ match_here u items s (took_all word st)
  unfolding match_here fits
  match_here-literals [] items s st =
      ap (λ x. match_here u items s (record st { current = x })) (sym (append-nil st.current))
  match_here-literals (c ∷ word) items s st = rw ==-self (
      match_here-literals word items s (took c st)
      ∙ ap (match_here u items s) (took_all-took c word st))
