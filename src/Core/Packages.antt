-- ===== src/Core/Packages.antt =====
-- `resolve_packages` of core/spec.py: capabilities as the packages of the distribution.
pub mod Tables
pub mod Distinct
pub mod Resolved
use layersmith.Prelude.{
  ℕ, Bool, true, false, Option, none, some, List, [], ◌∷◌, ◌++◌, ◌&&◌, not, map, ◌==◌, nat_eq,
  list_eq, contains, if◌then◌else◌,
}
use layersmith.Prelude.Result.{Result, ok, err, ◌>>=◌}
use layersmith.Prelude.Text.{Str, text}
use layersmith.Core.Patterns.{InvalidSpec, check, package_re}
use layersmith.Core.Catalog.{
  Distro, Names, Preset, find_key, distros, package_map, in_family, epel_only, presets_by_name,
}
use layersmith.Core.Specification.Entries.{Tool}
use layersmith.Core.Specification.{Spec}

-- What is raised: InvalidSpec, or the KeyError of a preset that the catalogue does not have
pub data Raised : Type 0 where
  spec_error : InvalidSpec → Raised
  key_error : Str → Raised

-- A warning, by what its text depends on: the capability, and the family
pub data Warning : Type 0 where
  only_in_epel : Str → Warning
  no_package : Str → Str → Warning
  not_configured : Str → Warning

-- `catalog.PRESETS_BY_NAME[name]`
abbrev preset_of : Str → Option Preset → Result Raised Preset
preset_of name none = err (key_error name)
preset_of name (some p) = ok p

-- The packages and the tools of the presets
unfoldable pub collect : List Str → Result Raised (List Str × List Str)
unfolding presets_by_name
collect [] = ok ([], [])
collect (name ∷ names) = preset_of name (find_key presets_by_name name) >>= λ p.
    collect names >>= λ rest. ok (p.packages ++ rest.0, p.tools ++ rest.1)

-- `catalog.DISTROS.get(distribution, {}).get("el", False)`
abbrev el_of : Option Distro → Bool
el_of none = false
el_of (some d) = d.el

unfoldable pub enterprise_linux : Spec → Bool
unfolding distros
enterprise_linux spec = el_of (find_key distros spec.base.distribution)

abbrev pub mapped_to : Str → Str → Option Names → Option Str
mapped_to family name none = some name
mapped_to family name (some n) = in_family name n family

-- `mapped`
unfoldable pub package_for : Str → Str → Option Str
unfolding package_map in_family
package_for family name = mapped_to family name (find_key package_map name)

abbrev as_raised {ℓ} : {A : Type ℓ} → Result InvalidSpec A → Result Raised A
as_raised (ok a) = ok a
as_raised (err e) = err (spec_error e)

-- `names` and `warnings`
abbrev pub Found : Type 0
Found = List Str × List Warning

-- `if mapped not in names: names.append(mapped)`
abbrev pub add_name : Str → List Str → List Str
add_name name names = if contains names name then names else names ++ (name ∷ [])

abbrev pub add_mapped : Str → Str → Found → Option Str → Result Raised Found
add_mapped family name (names, warnings) none =
    ok (names, warnings ++ (no_package name family ∷ []))
add_mapped family name (names, warnings) (some mapped) =
    as_raised (check package_re (some mapped) (text "package name")) >>= λ _.
    ok (add_name mapped names, warnings)

-- Whether a capability is only in EPEL, and EPEL is not enabled
abbrev pub needs_epel : Str → Bool → Bool → Str → Bool
needs_epel family el epel_enabled name =
    family == text "rpm" && (el && (contains epel_only name && not epel_enabled))

-- The body of the loop over `generic`
abbrev pub add_generic : Str → Bool → Bool → Str → Found → Result Raised Found
add_generic family el epel_enabled name (names, warnings) =
    if needs_epel family el epel_enabled name
    then ok (names, warnings ++ (only_in_epel name ∷ []))
    else add_mapped family name (names, warnings) (package_for family name)

unfoldable pub add_all : Str → Bool → Bool → List Str → Found → Result Raised Found
unfolding package_for check package_re epel_only text
add_all family el epel_enabled [] found = ok found
add_all family el epel_enabled (name ∷ names) found =
    add_generic family el epel_enabled name found >>= λ next.
    add_all family el epel_enabled names next

-- The loop over `extra_packages`
unfoldable pub add_extra : List Str → List Str → List Str
add_extra [] names = names
add_extra (name ∷ extra) names = add_extra extra (add_name name names)

-- The loop over `dict.fromkeys(tools)`, with the tools that were seen
unfoldable pub tool_warnings : List Str → List Str → List Str → List Warning
tool_warnings configured seen [] = []
tool_warnings configured seen (tool ∷ tools) =
    let rest = tool_warnings configured (tool ∷ seen) tools in
    if contains seen tool
    then tool_warnings configured seen tools
    else if contains configured tool
    then rest
    else not_configured tool ∷ rest

abbrev pub tool_name : Tool → Str
tool_name t = t.name

abbrev pub family_name : Option Str → Str
family_name none = []
family_name (some f) = f

-- `generic`, from the presets' packages
abbrev generic : Spec → List Str → List Str
generic spec packages = packages ++ spec.packages

-- `resolve_packages(spec)`, of a specification that was validated, which has a family
unfoldable pub resolve_packages : Spec → Result Raised Found
unfolding collect add_all add_extra tool_warnings enterprise_linux
resolve_packages spec = collect spec.presets >>= λ preset.
    add_all (family_name spec.base.family) (enterprise_linux spec) spec.enable_epel
      (generic spec preset.0) ([], [])
    >>= λ found. ok (
      add_extra spec.extra_packages found.0,
      found.1 ++ tool_warnings (map tool_name spec.tools) [] preset.1,
    )
