-- ===== src/Stats/Maps.antt =====
-- Go's maps as association lists.
use mathlib.Core.List.{lookup}
use mathlib.Core.Logic.{ite}
use fizzbuzz.Prelude.{suc, ◌≡◌, ◌≢◌, refl, none, some, List, [], ◌∷◌, length, arith}

module _ {ℓ} {K V : Type ℓ} (dec : Discrete K) where
  -- `m[k] = v`
  unfoldable pub store : K → V → List (K × V) → List (K × V)
  store k v [] = (k, v) ∷ []
  store k v (e ∷ l) = ite (dec k e.0) ((k, v) ∷ l) (e ∷ store k v l)

  pub lookup-store : (k : K) (v : V) (l : List (K × V)) → lookup dec k (store k v l) ≡ some v
  unfolding lookup store
  lookup-store k v [] = ground arith
  lookup-store k v (e ∷ l) = ground (arith, lookup-store k v l)

  pub lookup-store_ne :
      (k k' : K) (v : V) (l : List (K × V)) → k' ≢ k → lookup dec k' (store k v l) ≡ lookup dec k' l
  unfolding lookup store
  lookup-store_ne k k' v [] h = ground arith
  lookup-store_ne k k' v (e ∷ l) h = ground (arith, lookup-store_ne k k' v l h)

  pub length-store :
      (k : K) (v : V) (l : List (K × V))
      → lookup dec k l ≡ none
      → length (store k v l) ≡ suc (length l)
  unfolding lookup store
  length-store k v [] h = refl
  length-store k v (e ∷ l) h = ground (arith, length-store k v l)
