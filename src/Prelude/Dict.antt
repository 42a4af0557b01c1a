-- ===== src/Prelude/Dict.antt =====
-- A dict as a list of its entries in their order, under an interface of equality.
use mathlib.Core.Path.{◌≡◌, refl}
use mathlib.Core.Bool.{Bool, true, false}
use mathlib.Core.Option.{Option, none, some}
use mathlib.Core.List.{List, [], ◌∷◌}
use native.Mathlib.Omega.{arith}
use personal_world.Prelude.Tests.{Eq, ◌==◌, if◌then◌else◌}
use personal_world.Prelude.Lists.{all}

module _ {K V : Type 0} ⦃e : Eq K⦄ where
  -- `d.get(k)`
  unfoldable pub dict_get : K → List (K × V) → Option V
  dict_get k [] = none
  dict_get k ((j, v) ∷ d) = if j == k then some v else dict_get k d

  -- `d[k] = v`
  unfoldable pub dict_put : K → V → List (K × V) → List (K × V)
  dict_put k v [] = (k, v) ∷ []
  dict_put k v ((j, w) ∷ d) = if j == k then (j, v) ∷ d else (j, w) ∷ dict_put k v d

  -- `d.pop(k, None)`
  unfoldable pub dict_del : K → List (K × V) → List (K × V)
  dict_del k [] = []
  dict_del k ((j, w) ∷ d) = if j == k then dict_del k d else (j, w) ∷ dict_del k d

  pub get-put :
      (k j : K) (v : V) (d : List (K × V))
      → dict_get j (dict_put k v d) ≡ (if k == j then some v else dict_get j d)
  unfolding dict_get dict_put
  get-put k j v [] = refl
  get-put k j v ((i, w) ∷ d) =
      ground (arith, e.beq_iff k j, e.beq_iff i k, e.beq_iff i j, get-put k j v d)

  pub get-del :
      (k j : K) (d : List (K × V))
      → dict_get j (dict_del k d) ≡ (if k == j then none else dict_get j d)
  unfolding dict_get dict_del
  get-del k j [] = ground arith
  get-del k j ((i, w) ∷ d) =
      ground (arith, e.beq_iff k j, e.beq_iff i k, e.beq_iff i j, get-del k j d)

  -- What holds of all values holds of the one under a key.
  pub get-all :
      (p : V → Bool) (k : K) (d : List (K × V)) {v : V}
      → all (λ (x : K × V). p x.1) d ≡ true
      → dict_get k d ≡ some v
      → p v ≡ true
  unfolding dict_get all
  get-all p k [] h g = absurd (ground arith)
  get-all p k ((j, w) ∷ d) {v} h g = ground (arith, get-all p k d {v = v})

-- `k in d`
abbrev pub is_some {ℓ} : {A : Type ℓ} → Option A → Bool
is_some none = false
is_some (some a) = true
