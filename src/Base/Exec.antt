-- ===== src/Base/Exec.antt =====
-- Code that changes a state and may raise. What was written before a raise stays written, so the
-- state comes back beside the error too.
use mathlib.Core.Path.{subst}
use mo_ip_checker.Base.{◌≡◌, refl, sym, ap, Option, none, some, ◌⊎◌, inl, inr}

-- The exceptions of Python that the program can meet.
pub data Error : Type 0 where
  value_error type_error key_error os_error attribute_error overflow_error : Error

pub data Result {ℓ} (A : Type ℓ) : Type ℓ where
  ok : A → Result A
  raised : Error → Result A

abbrev pub Exec {ℓ} : Type ℓ → Type ℓ → Type ℓ
Exec S A = S → Result A × S

module _ {ℓ} {S A : Type ℓ} where
  abbrev pub pure : A → Exec S A
  pure a s = (ok a, s)

  abbrev pub raise : Error → Exec S A
  raise e s = (raised e, s)

  abbrev pub lift : Result A → Exec S A
  lift r s = (r, s)

  -- `except Exception`: the handler starts from the state that the body left.
  abbrev pub attempt : Exec S A → (Error → Exec S A) → Exec S A
  attempt m handler s = let (r, t) = m s in elim r [ ok a ↦ (ok a, t) | raised e ↦ handler e t ]

abbrev pub modify {ℓ} : {S : Type ℓ} → (S → S) → Exec S Unit
modify f s = (ok tt, f s)

abbrev pub bind_from {ℓ} : {S A B : Type ℓ} → Result A × S → (A → Exec S B) → Result B × S
bind_from (ok a, t) f = f a t
bind_from (raised e, t) f = (raised e, t)

infixl 10 ◌>>=◌ ◌>>◌
abbrev pub ◌>>=◌ {ℓ} : {S A B : Type ℓ} → Exec S A → (A → Exec S B) → Exec S B
◌>>=◌ m f s = bind_from (m s) f

abbrev pub ◌>>◌ {ℓ} : {S A B : Type ℓ} → Exec S A → Exec S B → Exec S B
m >> n = m >>= λ _. n

-- `o` or an exception
abbrev pub some_or {ℓ} : {A : Type ℓ} → Error → Option A → Result A
some_or e none = raised e
some_or e (some a) = ok a

pub Result-cases {ℓ} :
    {A : Type ℓ} (r : Result A) → ((a : A) × (r ≡ ok a)) ⊎ ((e : Error) × (r ≡ raised e))
Result-cases (ok a) = inl (a, refl)
Result-cases (raised e) = inr (e, refl)

result_or {ℓ} : {A : Type ℓ} → A → Result A → A
result_or a (ok b) = b
result_or a (raised e) = a

pub ok-injective {ℓ} : {A : Type ℓ} {a b : A} → ok a ≡ ok b → a ≡ b
unfolding result_or
ok-injective {a = a} h = ap (result_or a) h

-- A chain that returns: its first part did, and the rest from there.
pub bind_from-ok {ℓ} :
    {S A B : Type ℓ} (o : Result A × S) (f : A → Exec S B) {b : B} {t : S}
    → bind_from o f ≡ (ok b, t)
    → (a : A) × (s : S) × (o ≡ (ok a, s)) × (f a s ≡ (ok b, t))
bind_from-ok (ok a, s) f h = (a, s, refl, h)
bind_from-ok (raised e, s) f h = absurd (cc (ap (λ o. o.0) h))

-- What each part of a chain keeps, the chain keeps, whether it returns or raises.
pub bind_from-keeps {ℓ κ} :
    {S A B : Type ℓ} (P : S → Type κ) (o : Result A × S) (f : A → Exec S B)
    → P o.1
    → ((a : A) (s : S) → P s → P (f a s).1)
    → P (bind_from o f).1
bind_from-keeps P (ok a, s) f h k = k a s h
bind_from-keeps P (raised e, s) f h k = h

pub attempt-keeps {ℓ κ} :
    {S A : Type ℓ} (P : S → Type κ) (o : Result A × S) (handler : Error → Exec S A)
    → P o.1
    → ((e : Error) (s : S) → P s → P (handler e s).1)
    → P (attempt (λ _. o) handler o.1).1
attempt-keeps P (ok a, s) handler h k = h
attempt-keeps P (raised e, s) handler h k = k e s h

-- A chain returns if its first part does, and the rest from there.
pub bind_from-returns {ℓ} :
    {S A B : Type ℓ} (o : Result A × S) (f : A → Exec S B) {a : A} {b : B}
    → o.0 ≡ ok a
    → (f a o.1).0 ≡ ok b
    → (bind_from o f).0 ≡ ok b
bind_from-returns (ok x, s) f {a} {b} h k = subst (λ y. (f y s).0 ≡ ok b) (sym (ok-injective h)) k
bind_from-returns (raised e, s) f h k = absurd (cc)
