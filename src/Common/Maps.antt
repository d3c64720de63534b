-- ===== src/Common/Maps.antt =====
-- Go's maps as association lists with one entry for each key that was stored.
use mathlib.Core.Path.{◌≡◌, refl}
use mathlib.Core.Option.{Option, none, some}
use mathlib.Core.List.{List, [], ◌∷◌}
use native.Mathlib.Omega.{arith}
use sardis.Common.Tests.{if◌then◌else◌}
use sardis.Common.Compare.{Comparable, ◌==◌}

module _ {ℓ κ} {K : Type ℓ} {V : Type κ} ⦃c : Comparable K⦄ where
  -- `m[k]` with its presence flag.
  unfoldable pub load : K → List (K × V) → Option V
  load k [] = none
  load k ((j, v) ∷ m) = if j == k then some v else load k m

  -- `m[k] = v`
  unfoldable pub store : K → V → List (K × V) → List (K × V)
  store k v [] = (k, v) ∷ []
  store k v ((j, w) ∷ m) = if j == k then (j, v) ∷ m else (j, w) ∷ store k v m

  pub load-store :
      (k j : K) (v : V) (m : List (K × V))
      → load j (store k v m) ≡ (if k == j then some v else load j m)
  unfolding load store
  load-store k j v [] = refl
  load-store k j v ((i, w) ∷ m) =
      ground (arith, c.beq_iff k j, c.beq_iff i k, c.beq_iff i j, load-store k j v m)

-- `make(map[K]V)`
abbrev pub empty_map {ℓ κ} : {K : Type ℓ} {V : Type κ} → List (K × V)
empty_map = []

pub load-empty {ℓ κ} :
    {K : Type ℓ} {V : Type κ} ⦃c : Comparable K⦄ (k : K) → load {V = V} k [] ≡ none
unfolding load
load-empty k = refl
