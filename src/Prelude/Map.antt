-- ===== src/Prelude/Map.antt =====
-- Python's `dict` where only lookups, writes and removals matter: a function to an option.
use mathlib.Core.Option.{Option, none, some}
use layersmith.Prelude.Tests.{if◌then◌else◌}
use layersmith.Prelude.Equality.{Eq, ◌==◌}

abbrev pub Map {ℓ κ} : Type ℓ → Type κ → Type (ℓ ⊔ κ)
Map K V = K → Option V

abbrev pub empty {ℓ κ} : {K : Type ℓ} {V : Type κ} → Map K V
empty k = none

module _ {ℓ κ} {K : Type ℓ} {V : Type κ} ⦃e : Eq K⦄ where
  -- `m[k] = v`
  abbrev pub put : Map K V → K → V → Map K V
  put m k v j = if j == k then some v else m j

  -- `m.pop(k, None)`
  abbrev pub erase : Map K V → K → Map K V
  erase m k j = if j == k then none else m j
