-- ===== src/Pattern/Relation.antt =====
-- What it means that a pattern matches a text from its first character on, whatever the order in
-- which alternatives are tried.
use mo_ip_checker.Base.{
  ℕ, ◌≡◌, true, Option, none, some, List, [], ◌∷◌, Text, arith, Bool-cases, inl, inr, ◌⊎◌,
}
use mathlib.Core.Path.{subst}
use mathlib.Core.Option.{some-injective}
use mo_ip_checker.Pattern.Engine.{
  Unicode, Class, Item, one, plus, opt, open_group, close_group, Captures, took, opened, closed,
  first_some, fits, plus_here, opt_here, match_here,
}

pub data Match (u : Unicode) : List Item → Text → Captures → Captures → Type 0 where
  done : {s : Text} {st : Captures} → Match u [] s st st
  one_more :
      {cls : Class} {items : List Item} {c : ℕ} {s : Text} {st t : Captures}
      → fits u cls c ≡ true
      → Match u items s (took c st) t
      → Match u (one cls ∷ items) (c ∷ s) st t
  plus_last :
      {cls : Class} {items : List Item} {c : ℕ} {s : Text} {st t : Captures}
      → fits u cls c ≡ true
      → Match u items s (took c st) t
      → Match u (plus cls ∷ items) (c ∷ s) st t
  plus_more :
      {cls : Class} {items : List Item} {c : ℕ} {s : Text} {st t : Captures}
      → fits u cls c ≡ true
      → Match u (plus cls ∷ items) s (took c st) t
      → Match u (plus cls ∷ items) (c ∷ s) st t
  opt_skip :
      {cls : Class} {items : List Item} {s : Text} {st t : Captures}
      → Match u items s st t
      → Match u (opt cls ∷ items) s st t
  opt_take :
      {cls : Class} {items : List Item} {c : ℕ} {s : Text} {st t : Captures}
      → fits u cls c ≡ true
      → Match u items s (took c st) t
      → Match u (opt cls ∷ items) (c ∷ s) st t
  opening :
      {items : List Item} {s : Text} {st t : Captures}
      → Match u items s (opened st) t
      → Match u (open_group ∷ items) s st t
  closing :
      {items : List Item} {s : Text} {st t : Captures}
      → Match u items s (closed st) t
      → Match u (close_group ∷ items) s st t

-- The first of two results comes from one of them.
pub first_some_cases {ℓ} :
    {A : Type ℓ} {a : A} (x y : Option A) → first_some x y ≡ some a → (x ≡ some a) ⊎ (y ≡ some a)
first_some_cases none y h = inr h
first_some_cases (some b) y h = inl h

module _ (u : Unicode) where
  -- What a continuation must give for the sections below.
  abbrev Sound : List Item → Type 0
  Sound items =
      (s : Text) (st t : Captures) → match_here u items s st ≡ some t → Match u items s st t

  plus_here-Match :
      (cls : Class) (items : List Item)
      → Sound items
      → (s : Text) (st t : Captures) → plus_here u cls (match_here u items) s st ≡ some t
      → Match u (plus cls ∷ items) s st t
  unfolding plus_here
  plus_here-Match cls items sound [] st t h = absurd (cc)
  plus_here-Match cls items sound (c ∷ s) st t h = elim (Bool-cases (fits u cls c)) [
    | inl fit ↦ elim (first_some_cases _ _ (rw fit at h)) [
      | inl more ↦ plus_more fit (plus_here-Match cls items sound s (took c st) t more)
      | inr last ↦ plus_last fit (sound s (took c st) t last)
    ]
    | inr misfit ↦ absurd (ground arith)
  ]

  opt_here-Match :
      (cls : Class) (items : List Item)
      → Sound items
      → (s : Text) (st t : Captures) → opt_here u cls (match_here u items) s st ≡ some t
      → Match u (opt cls ∷ items) s st t
  unfolding opt_here
  opt_here-Match cls items sound [] st t h = opt_skip (sound [] st t h)
  opt_here-Match cls items sound (c ∷ s) st t h = elim (Bool-cases (fits u cls c)) [
    | inl fit ↦ elim (first_some_cases _ _ (rw fit at h)) [
      | inl taken ↦ opt_take fit (sound s (took c st) t taken)
      | inr skipped ↦ opt_skip (sound (c ∷ s) st t skipped)
    ]
    | inr misfit ↦ opt_skip (sound (c ∷ s) st t (rw misfit at h))
  ]

  -- A result of the matcher is a match.
  pub match_here-Match : (items : List Item) → Sound items
  unfolding match_here
  match_here-Match [] s st t h = subst (λ x. Match u [] s st x) (some-injective st t h) done
  match_here-Match (one cls ∷ items) [] st t h = absurd (cc)
  match_here-Match (one cls ∷ items) (c ∷ s) st t h = elim (Bool-cases (fits u cls c)) [
    | inl fit ↦ one_more fit (match_here-Match items s (took c st) t (rw fit at h))
    | inr misfit ↦ absurd (ground arith)
  ]
  match_here-Match (plus cls ∷ items) s st t h =
      plus_here-Match cls items (match_here-Match items) s st t h
  match_here-Match (opt cls ∷ items) s st t h =
      opt_here-Match cls items (match_here-Match items) s st t h
  match_here-Match (open_group ∷ items) s st t h =
      opening (match_here-Match items s (opened st) t h)
  match_here-Match (close_group ∷ items) s st t h =
      closing (match_here-Match items s (closed st) t h)
