-- ===== src/Pattern/Complete.antt =====
-- The matcher and the search against the relation of matches.
use mathlib.Core.Option.{some-ne-none}
use mo_ip_checker.Base.{
  ℕ, ◌≡◌, ◌≢◌, refl, ◌∙◌, Option, none, some, List, [], ◌∷◌, ◌++◌, Text, Bool-cases, inl, inr,
  Option-cases,
}
use mo_ip_checker.Pattern.Engine.{
  Unicode, Class, Item, Captures, start, first_some, fits, plus_here, opt_here, match_here,
  search_from,
}
use mo_ip_checker.Pattern.Relation.{
  Match, done, one_more, plus_last, plus_more, opt_skip, opt_take, opening, closing,
  match_here-Match,
}

first_some-ne-none_left : (x y : Option Captures) → x ≢ none → first_some x y ≢ none
first_some-ne-none_left none y h e = h refl
first_some-ne-none_left (some a) y h e = cc

first_some-ne-none_right : (x y : Option Captures) → y ≢ none → first_some x y ≢ none
first_some-ne-none_right none y h e = h e
first_some-ne-none_right (some a) y h e = cc

pub first_some-eq-none : (x y : Option Captures) → first_some x y ≡ none → (x ≡ none) × (y ≡ none)
first_some-eq-none none y h = (refl, h)
first_some-eq-none (some a) y h = absurd (some-ne-none a h)

-- `t` is the result of a match of `items` in `s`, with no match further left.
pub data Found (u : Unicode) (items : List Item) : Text → Captures → Type 0 where
  here : {s : Text} {t : Captures} → Match u items s start t → Found u items s t
  later :
      {c : ℕ} {s : Text} {t : Captures}
      → ((t' : Captures) → ¬ Match u items (c ∷ s) start t')
      → Found u items s t
      → Found u items (c ∷ s) t

module _ (u : Unicode) where
  opt_here-ne-none :
      (cls : Class) (k : Text → Captures → Option Captures) (s : Text) (st : Captures)
      → k s st ≢ none
      → opt_here u cls k s st ≢ none
  unfolding opt_here
  opt_here-ne-none cls k [] st h = h
  opt_here-ne-none cls k (c ∷ s) st h = elim (Bool-cases (fits u cls c)) [
    | inl fit ↦ rw fit (first_some-ne-none_right _ _ h)
    | inr misfit ↦ rw misfit h
  ]

  -- A text that a pattern matches is never refused.
  pub match_here-ne-none :
      {items : List Item} {s : Text} {st t : Captures}
      → Match u items s st t
      → match_here u items s st ≢ none
  unfolding match_here plus_here opt_here
  match_here-ne-none (done {st = st}) = λ e. absurd (some-ne-none st e)
  match_here-ne-none (one_more fit m) = rw fit (match_here-ne-none m)
  match_here-ne-none (plus_last fit m) =
      rw fit (first_some-ne-none_right _ _ (match_here-ne-none m))
  match_here-ne-none (plus_more fit m) = rw fit (first_some-ne-none_left _ _ (match_here-ne-none m))
  match_here-ne-none (opt_skip {cls = cls} {items = items} {s = s} {st = st} m) =
      opt_here-ne-none cls (match_here u items) s st (match_here-ne-none m)
  match_here-ne-none (opt_take fit m) = rw fit (first_some-ne-none_left _ _ (match_here-ne-none m))
  match_here-ne-none (opening m) = match_here-ne-none m
  match_here-ne-none (closing m) = match_here-ne-none m

  module _ (items : List Item) where
    -- Where the search goes past a prefix without a match, it finds what it finds behind it.
    pub search_from-skip :
        (c : ℕ) (s : Text)
        → match_here u items (c ∷ s) start ≡ none
        → search_from u items (c ∷ s) ≡ search_from u items s
    unfolding search_from
    search_from-skip c s h = rw h

    pub search_from-hit :
        (s : Text) {t : Captures}
        → match_here u items s start ≡ some t
        → search_from u items s ≡ some t
    unfolding search_from
    search_from-hit [] h = h
    search_from-hit (c ∷ s) h = rw h

    -- If a search finds nothing in a text, the pattern matches at no place of this text.
    pub not-Match_of_search :
        (before s : Text) {t : Captures}
        → search_from u items (before ++ s) ≡ none
        → ¬ Match u items s start t
    unfolding search_from
    not-Match_of_search [] [] h m = match_here-ne-none m h
    not-Match_of_search [] (c ∷ s) h m = match_here-ne-none m (first_some-eq-none _ _ h).0
    not-Match_of_search (b ∷ before) s h m =
        not-Match_of_search before s (first_some-eq-none _ _ h).1 m

    -- What a search finds is the result of a match at some place of the text, and the pattern matches at
    -- no place further left.
    pub search_from-Found :
        (s : Text) {t : Captures} → search_from u items s ≡ some t → Found u items s t
    unfolding search_from
    search_from-Found [] {t} h = here (match_here-Match u items [] start t h)
    search_from-Found (c ∷ s) {t} h = elim (Option-cases (match_here u items (c ∷ s) start)) [
      | inl miss ↦ later (λ t' m. match_here-ne-none m miss) (search_from-Found s (rw miss at h))
      | inr (t', hit) ↦ here (match_here-Match u items (c ∷ s) start t (hit ∙ rw hit at h))
    ]
