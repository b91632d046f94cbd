-- ===== src/Core/Packages/Resolved.antt =====
-- The packages that `resolve_packages` finds.
use mathlib.Core.List.{Memᴰ}
use mathlib.Core.List.Memᴰ
use layersmith.Prelude.{◌≡◌, ◌⊎◌, Bool, true, some, List, nat_eq, list_eq, contains, All}
use layersmith.Prelude.Text.{Str}
use layersmith.Core.Packages.{Warning, only_in_epel, no_package, package_for, Found}
use layersmith.Core.Specification.Items.{IsPackage}
use layersmith.Core.Packages.Distinct.{distinct}

-- What becomes of a capability: its package is there, or a warning that names it
abbrev pub IsHandled : Str → Found → Str → Type 0
IsHandled family (names, warnings) name =
    ((m : Str) × (package_for family name ≡ some m) × (contains names m ≡ true))
    ⊎ (Memᴰ (only_in_epel name) warnings ⊎ Memᴰ (no_package name family) warnings)

abbrev Good : Found → Type 0
Good (names, warnings) = All IsPackage names × (distinct names ≡ true)

abbrev Extends : Found → Found → Type 0
Extends (names, warnings) (more, later) =
    ((x : Str) → contains names x ≡ true → contains more x ≡ true)
    × ((w : Warning) → Memᴰ w warnings → Memᴰ w later)

module _ (family : Str) (el epel_enabled : Bool) where
  abbrev AllHandled : List Str → Found → Type 0
  AllHandled names g = All (IsHandled family g) names
