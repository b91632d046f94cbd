-- ===== src/Core/Specification/Valid.antt =====
-- What validation guarantees of the values that it returns.
use layersmith.Prelude.{
  ℕ, ◌+◌, ◌≤◌, ◌≡◌, ◌⊎◌, sym, subst, false, some, List, [], ltb, nat_eq, list_eq, length, arith,
  All,
}
use layersmith.Prelude.Result.{ok, >>=-eq-ok, ok-apart, map_ok, map_ok-All}
use layersmith.Prelude.Text.{Str, text}
use layersmith.Core.Patterns.{package_re, max_entries}
use layersmith.Core.Patterns.Checked.{check-matches, IsPlace}
use layersmith.Core.Specification.Entries.{
  check_package, check_packages, keep_filled, check_tool, check_file, check_script, check_variable,
  check_label, check_user, check_tests,
}
use layersmith.Core.Specification.Sound.{
  IsArchitecture, check_architecture-IsArchitecture, IsScript, check_script-IsScript, IsUser,
  check_user-IsUser, IsBase, check_base-IsBase,
}
use layersmith.Core.Specification.{
  Spec, check_base, check_architecture, check_preset, check_count, check_workdir, check_rest,
  validate_spec,
}
use layersmith.Core.Specification.Idempotent.{check_rest-Keeps, check_count_ok}
use layersmith.Core.Specification.Items.{
  IsValidTool, IsValidFile, IsValidVariable, IsValidLabel, IsTestLine, IsPreset, IsPackage,
  check_tool-IsValidTool, check_file-IsValidFile, check_variable-IsValidVariable,
  check_label-IsValidLabel, check_preset-IsPreset, check_workdir_ok, check_tests_ok,
}

abbrev pub IsValid : Spec → Type 0
IsValid s =
    IsBase s.base
    × IsArchitecture s.architecture
    × All IsPackage s.packages
    × All IsPackage s.extra_packages
    × All IsPreset s.presets
    × All (IsValidTool s.architecture) s.tools
    × (length s.files + length s.tools ≤ 100)
    × All IsValidFile s.files
    × All IsScript s.scripts
    × All IsValidVariable s.env
    × All IsValidLabel s.labels
    × IsUser s.user
    × ((s.workdir ≡ []) ⊎ IsPlace s.workdir)
    × All IsTestLine s.tests
    × (length s.tests ≤ 50)

abbrev IsValidRest : Spec → Type 0
IsValidRest s =
    All IsValidFile s.files
    × All IsScript s.scripts
    × All IsValidVariable s.env
    × All IsValidLabel s.labels
    × IsUser s.user
    × ((s.workdir ≡ []) ⊎ IsPlace s.workdir)
    × All IsTestLine s.tests
    × (length s.tests ≤ 50)

check_rest-IsValidRest : (s t : Spec) → check_rest s ≡ ok t → IsValidRest t
unfolding check_rest
check_rest-IsValidRest s t h =
    let (files, h_files, h1) = >>=-eq-ok (map_ok check_file s.files) _ h in
    let (scripts, h_scripts, h2) = >>=-eq-ok (map_ok check_script s.scripts) _ h1 in
    let (env, h_env, h3) = >>=-eq-ok (map_ok check_variable s.env) _ h2 in
    let (labels, h_labels, h4) = >>=-eq-ok (map_ok check_label s.labels) _ h3 in
    let (user, h_user, h5) = >>=-eq-ok (check_user s.user) _ h4 in
    let (workdir, h_workdir, h6) = >>=-eq-ok (check_workdir s.workdir) _ h5 in
    let (tests, h_tests, h7) = >>=-eq-ok (check_tests s.tests) _ h6 in
    let (lines, few) = check_tests_ok s.tests tests h_tests in
    subst IsValidRest (ok-apart h7) (
      map_ok-All check_file IsValidFile check_file-IsValidFile s.files files h_files,
      map_ok-All check_script IsScript check_script-IsScript s.scripts scripts h_scripts,
      map_ok-All check_variable IsValidVariable check_variable-IsValidVariable s.env env h_env,
      map_ok-All check_label IsValidLabel check_label-IsValidLabel s.labels labels h_labels,
      check_user-IsUser s.user user h_user,
      check_workdir_ok s.workdir workdir h_workdir,
      lines,
      few,
    )

leb_of : (n : ℕ) → ltb max_entries n ≡ false → n ≤ 100
leb_of n h = ground arith

check_packages-IsPackage : (ps qs : List Str) → check_packages ps ≡ ok qs → All IsPackage qs
unfolding check_packages
check_packages-IsPackage ps qs h =
    map_ok-All check_package IsPackage
      (λ p v e. check-matches package_re (some p) (text "package name") v e) (keep_filled ps) qs h

-- A specification that `validate_spec` returns has a base with a canonical reference, a known family and, where it
-- names one, a known distribution and version; a known architecture, which is also that of each tool; packages and
-- a working directory that match their patterns as they are, known presets and scripts, octal modes, a user with
-- ids in range, and at most 100 tools and files and 50 tests. The names, checksums and paths of the tools, files,
-- variables, labels and user match their patterns once the white space around them is removed. No path has a `..`,
-- ends in a slash or lies in /proc, /sys or /dev. No variable's name looks like a secret; the values of variables and
-- labels and the tests are single lines.
pub validate_spec-IsValid : (s t : Spec) → validate_spec s ≡ ok t → IsValid t
unfolding validate_spec
validate_spec-IsValid s t h =
    let (base, h_base, h1) = >>=-eq-ok (check_base s.base) _ h in
    let (a, h_architecture, h2) = >>=-eq-ok (check_architecture s.architecture) _ h1 in
    let (packages, h_packages, h3) = >>=-eq-ok (check_packages s.packages) _ h2 in
    let (extra, h_extra, h4) = >>=-eq-ok (check_packages s.extra_packages) _ h3 in
    let (presets, h_presets, h5) = >>=-eq-ok (map_ok check_preset s.presets) _ h4 in
    let (tools, h_tools, h6) = >>=-eq-ok (map_ok (check_tool a) s.tools) _ h5 in
    let (counted, h_count, h7) = >>=-eq-ok (check_count s tools) _ h6 in
    let (k_base, k_a, k_packages, k_extra, k_presets, k_tools, k_files) = check_rest-Keeps _ t h7 in
    let (files, scripts, env, labels, user, workdir, tests, few) = check_rest-IsValidRest _ t h7 in
    let fits = check_count_ok s tools counted h_count in
    (
      subst IsBase (sym k_base) (check_base-IsBase s.base base h_base),
      subst IsArchitecture (sym k_a)
          (check_architecture-IsArchitecture s.architecture a h_architecture),
      subst (All IsPackage) (sym k_packages)
          (check_packages-IsPackage s.packages packages h_packages),
      subst (All IsPackage) (sym k_extra) (check_packages-IsPackage s.extra_packages extra h_extra),
      subst (All IsPreset) (sym k_presets)
          (map_ok-All check_preset IsPreset check_preset-IsPreset s.presets presets h_presets),
      rw (k_a, k_tools)
          (map_ok-All (check_tool a) (IsValidTool (some a)) (check_tool-IsValidTool a) s.tools tools
            h_tools),
      rw (k_files, k_tools) (leb_of (length s.files + length tools) fits),
      files,
      scripts,
      env,
      labels,
      user,
      workdir,
      tests,
      few,
    )
