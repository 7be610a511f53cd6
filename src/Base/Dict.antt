-- ===== src/Base/Dict.antt =====
-- Python's `dict` with string keys, in insertion order.
use mo_ip_checker.Base.{
  ◌≡◌, refl, Option, none, some, List, [], ◌∷◌, arith, ◌==◌, Eq, if◌then◌else◌,
}

abbrev pub Dict {ℓ κ} : Type ℓ → Type κ → Type (ℓ ⊔ κ)
Dict K V = List (K × V)

module _ {ℓ κ} {K : Type ℓ} {V : Type κ} ⦃e : Eq K⦄ where
  -- `d.get(k)`
  unfoldable pub get : K → Dict K V → Option V
  get k [] = none
  get k ((j, v) ∷ d) = if k == j then some v else get k d

  -- `d[k] = v`
  unfoldable pub put : K → V → Dict K V → Dict K V
  put k v [] = (k, v) ∷ []
  put k v ((j, w) ∷ d) = if k == j then (j, v) ∷ d else (j, w) ∷ put k v d

  -- `d.pop(k, None)`
  unfoldable pub remove : K → Dict K V → Dict K V
  remove k [] = []
  remove k ((j, w) ∷ d) = let rest = remove k d in if k == j then rest else (j, w) ∷ rest

  -- `d.update(changes)`
  unfoldable pub update : Dict K V → Dict K V → Dict K V
  update d [] = d
  update d ((k, v) ∷ changes) = update (put k v d) changes

  pub get-put :
      (j k : K) (v : V) (d : Dict K V) → get j (put k v d) ≡ (if j == k then some v else get j d)
  unfolding get put
  get-put j k v [] = refl
  get-put j k v ((i, w) ∷ d) = ground (arith, get-put j k v d)

  pub get-remove :
      (j k : K) (d : Dict K V) → get j (remove k d) ≡ (if j == k then none else get j d)
  unfolding get remove
  get-remove j k [] = ground arith
  get-remove j k ((i, w) ∷ d) = ground (arith, get-remove j k d)

  -- The value of a key after `update`: the last change of it, if there is one.
  unfoldable pub latest : K → Option V → Dict K V → Option V
  latest j old [] = old
  latest j old ((k, v) ∷ changes) = latest j (if j == k then some v else old) changes

  pub get-update :
      (j : K) (d changes : Dict K V) → get j (update d changes) ≡ latest j (get j d) changes
  unfolding update latest
  get-update j d [] = refl
  get-update j d ((k, v) ∷ changes) = rw (get-update j (put k v d) changes, get-put)

  pub latest_absent :
      (j : K) (old : Option V) (changes : Dict K V)
      → get j changes ≡ none
      → latest j old changes ≡ old
  unfolding get latest
  latest_absent j old [] h = refl
  latest_absent j old ((k, v) ∷ changes) h = ground (arith, latest_absent j old changes)
