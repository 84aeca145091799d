-- ===== src/Prelude/Dict.antt =====
-- Python's `dict` with text keys: entries in insertion order. An assignment to a key that is there
-- keeps the key's place.
use Prim.Native.String.{String}
use mathlib.Core.Path.{◌≡◌, refl}
use mathlib.Core.Bool.{Bool, true, false, ◌||◌}
use mathlib.Core.Option.{Option, none, some}
use mathlib.Core.List.{List, [], ◌∷◌}
use native.Mathlib.Omega.{arith}
use text.Mathlib.Text.{◌==◌}
use text.Mathlib.TextEquality.{eq_iff}
use text.Mathlib.TextPositions.{eq_refl}
use copilot_mempalace.Prelude.Tests.{if◌then◌else◌}

abbrev pub Dict {ℓ} : Type ℓ → Type ℓ
Dict V = List (String × V)

abbrev pub values {ℓ} : {V : Type ℓ} → Dict V → List V
values [] = []
values ((k, v) ∷ d) = v ∷ values d

abbrev pub keys {ℓ} : {V : Type ℓ} → Dict V → List String
keys [] = []
keys ((k, v) ∷ d) = k ∷ keys d

module _ {ℓ} {V : Type ℓ} where
  -- d.get(k)
  unfoldable pub get : String → Dict V → Option V
  get k [] = none
  get k ((j, v) ∷ d) = if j == k then some v else get k d

  -- k in d
  unfoldable pub has : String → Dict V → Bool
  has k [] = false
  has k ((j, v) ∷ d) = j == k || has k d

  -- d[k] = v
  unfoldable pub put : String → V → Dict V → Dict V
  put k v [] = (k, v) ∷ []
  put k v ((j, w) ∷ d) = if j == k then (j, v) ∷ d else (j, w) ∷ put k v d

  pub get-put :
      (k j : String) (v : V) (d : Dict V) → get j (put k v d) ≡ (if k == j then some v else get j d)
  unfolding get put
  get-put k j v [] = refl
  get-put k j v ((i, w) ∷ d) = ground (arith, eq_iff k j, eq_iff i k, eq_iff i j, get-put k j v d)

  pub get-put_self : (k : String) (v : V) (d : Dict V) → get k (put k v d) ≡ some v
  get-put_self k v d = simp (get-put, eq_refl)

  pub has-put : (k j : String) (v : V) (d : Dict V) → has j (put k v d) ≡ (k == j || has j d)
  unfolding has put
  has-put k j v [] = refl
  has-put k j v ((i, w) ∷ d) = ground (arith, eq_iff k j, eq_iff i k, eq_iff i j, has-put k j v d)

  pub has-get : (k : String) (v : V) (d : Dict V) → get k d ≡ some v → has k d ≡ true
  unfolding has get
  has-get k v [] h = cc
  has-get k v ((i, w) ∷ d) h = ground (arith, has-get k v d)

  pub get_of_has : (k : String) (d : Dict V) → has k d ≡ false → get k d ≡ none
  unfolding has get
  get_of_has k [] h = refl
  get_of_has k ((i, w) ∷ d) h = ground (arith, get_of_has k d)

  pub has_of_get : (k : String) (d : Dict V) → get k d ≡ none → has k d ≡ false
  unfolding has get
  has_of_get k [] h = refl
  has_of_get k ((i, w) ∷ d) h = ground (arith, has_of_get k d)
