-- ===== src/Dict.antt =====
-- Go maps with string keys. The order in which a `range` visits a map is unspecified in Go; the
-- entries stand here newest first, and what the source makes of a `range` is sorted or a set.
use tarion.Base.{◌≡◌, refl, Bool, Option, none, some, List, [], ◌∷◌, arith, if◌then◌else◌}
use tarion.Text.{Text, str_eq, str_eq_iff, str_eq_refl}

abbrev pub Dict {ℓ} : Type ℓ → Type ℓ
Dict V = List (Text × V)

module _ {ℓ} {V : Type ℓ} where
  -- m[k]
  unfoldable pub get : Dict V → Text → Option V
  get [] k = none
  get ((j, v) ∷ m) k = if str_eq j k then some v else get m k

  -- delete(m, k)
  unfoldable pub delete : Dict V → Text → Dict V
  delete [] k = []
  delete ((j, v) ∷ m) k = let rest = delete m k in if str_eq j k then rest else (j, v) ∷ rest

  -- m[k] = v
  unfoldable pub put : Dict V → Text → V → Dict V
  put m k v = (k, v) ∷ delete m k

  pub get-delete :
      (m : Dict V) (k j : Text) → get (delete m k) j ≡ (if str_eq k j then none else get m j)
  unfolding get delete
  get-delete [] k j = ground arith
  get-delete ((i, v) ∷ m) k j =
      ground (arith, get-delete m k j, str_eq_iff i k, str_eq_iff i j, str_eq_iff k j)

  pub get-put :
      (m : Dict V) (k j : Text) (v : V)
      → get (put m k v) j ≡ (if str_eq k j then some v else get m j)
  unfolding get put
  get-put m k j v = ground (arith, get-delete m k j)

module _ {ℓ} {V : Type ℓ} where
  -- `for k, v := range m { if drop(k, v) { delete(m, k) } }`
  unfoldable pub retain : (Text → V → Bool) → Dict V → Dict V
  retain p [] = []
  retain p ((k, v) ∷ m) = let rest = retain p m in if p k v then (k, v) ∷ rest else rest

  -- A Go map has one value for each key.
  abbrev pub IsMap : Dict V → Type ℓ
  IsMap [] = Unit
  IsMap ((k, v) ∷ m) = (get m k ≡ none) × IsMap m

  abbrev pub pick : (V → Bool) → Option V → Option V
  pick p none = none
  pick p (some v) = if p v then some v else none

  get-retain-none :
      (p : Text → V → Bool) (m : Dict V) (k : Text) → get m k ≡ none → get (retain p m) k ≡ none
  unfolding get retain
  get-retain-none p [] k h = refl
  get-retain-none p ((j, v) ∷ m) k h = ground (arith, get-retain-none p m k)

  pub get-retain :
      (p : Text → V → Bool) (m : Dict V) (k : Text)
      → IsMap m
      → get (retain p m) k ≡ pick (p k) (get m k)
  unfolding get retain
  get-retain p [] k u = refl
  get-retain p ((j, v) ∷ m) k u =
      ground (arith, get-retain p m k u.1, get-retain-none p m j u.0, str_eq_iff j k)

  pub retain-IsMap : (p : Text → V → Bool) (m : Dict V) → IsMap m → IsMap (retain p m)
  unfolding retain
  retain-IsMap p [] u = tt
  retain-IsMap p ((j, v) ∷ m) u = ground (arith, get-retain-none p m j u.0, retain-IsMap p m u.1)

  get-delete-none : (m : Dict V) (k j : Text) → get m j ≡ none → get (delete m k) j ≡ none
  get-delete-none m k j h = ground (arith, get-delete m k j)

  pub delete-IsMap : (m : Dict V) (k : Text) → IsMap m → IsMap (delete m k)
  unfolding delete
  delete-IsMap [] k u = tt
  delete-IsMap ((j, v) ∷ m) k u = ground (arith, get-delete-none m k j u.0, delete-IsMap m k u.1)

  pub put-IsMap : (m : Dict V) (k : Text) (v : V) → IsMap m → IsMap (put m k v)
  unfolding put
  put-IsMap m k v u = (ground (arith, get-delete m k k, str_eq_refl k), delete-IsMap m k u)

pub ruleset dict_laws = (get-delete, get-put)
