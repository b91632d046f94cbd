-- ===== src/Core/Specification.antt =====
-- `validate_spec` of core/spec.py, for a specification that names no recipe (training, aiml, gpu_benchmark,
-- openshift, opencode). Texts are of type `str`; lists and tables that are missing are empty.
mod Tests
pub mod Entries
pub mod Same
pub mod Again
pub mod Distribution
pub mod Idempotent
pub mod Sound
pub mod Items
pub mod Valid
use layersmith.Prelude.{
  ℕ, ◌+◌, Bool, true, false, Option, none, some, List, [], ◌∷◌, ◌++◌, not, ltb, ◌==◌, nat_eq,
  list_eq, if◌then◌else◌, length, contains,
}
use layersmith.Prelude.Result.{Result, ok, err, ◌>>=◌, map_ok}
use layersmith.Prelude.Text.{Str, text}
use layersmith.Core.Patterns.{InvalidSpec, refused, check_path, or_text, max_entries}
use layersmith.Core.Catalog.{
  Distro, find_key, defined, families, architectures, distros, presets_by_name,
}
use layersmith.Core.Reference.{Reference, parse_reference}
use layersmith.Core.Specification.Entries.{
  Tool, FileItem, Variable, User, set_default, check_packages, check_tool, check_file, check_script,
  check_variable, check_label, check_user, check_tests,
}

pub record Base : Type 0 where
  pub distribution : Str
  pub version : Str
  pub source : Option Str
  pub family : Option Str

pub record Spec : Type 0 where
  pub base : Base
  pub architecture : Option Str
  pub packages : List Str
  pub extra_packages : List Str
  pub presets : List Str
  pub tools : List Tool
  pub files : List FileItem
  pub scripts : List (Str × Str)
  pub env : List Variable
  pub labels : List (Str × Str)
  pub user : User
  pub workdir : Str
  pub tests : List Str
  pub tag_latest : Bool
  pub enable_epel : Bool

-- `versions[version]`, and what is set from it
abbrev pub with_version : Base → Distro → Option Str → Result InvalidSpec Base
with_version base d none = err (refused (text "Unsupported version"))
with_version base d (some default) =
    ok (record base { source = some (set_default default base.source); family = some d.family })

abbrev pub with_distro : Base → Option Distro → Result InvalidSpec Base
with_distro base none = err (refused (text "Unknown distribution"))
with_distro base (some d) = with_version base d (find_key d.versions base.version)

abbrev pub with_distribution : Base → Result InvalidSpec Base
with_distribution base =
    if base.distribution == []
    then ok base
    else with_distro base (find_key distros base.distribution)

abbrev pub known_family : Option Str → Bool
known_family none = false
known_family (some f) = defined (find_key families f)

abbrev pub with_source : Base → Reference → Result InvalidSpec Base
with_source base r =
    if known_family base.family
    then ok (record base { source = some r.source })
    else err (refused (text "Choose the package family of the base image"))

abbrev pub check_source : Base → Result InvalidSpec Base
check_source base =
    if or_text [] base.source == []
    then err (refused (text "Choose a base image"))
    else (parse_reference base.source >>= with_source base)

-- The base image, from its distribution or its source
unfoldable pub check_base : Base → Result InvalidSpec Base
unfolding distros families parse_reference text
check_base base = with_distribution base >>= check_source

unfoldable pub check_architecture : Option Str → Result InvalidSpec Str
unfolding architectures text
check_architecture architecture =
    let a = or_text (text "amd64") architecture in
    if contains architectures a
    then ok a
    else err (refused (text "Architecture must be amd64 or arm64"))

unfoldable pub check_preset : Str → Result InvalidSpec Str
unfolding presets_by_name text
check_preset name =
    if defined (find_key presets_by_name name)
    then ok name
    else err (refused (text "Unknown preset"))

abbrev pub check_count : Spec → List Tool → Result InvalidSpec (List Tool)
check_count spec tools =
    if ltb max_entries (length spec.files + length tools)
    then err (refused (text "An image may reference at most"))
    else ok tools

-- `if spec.get("workdir"):`
unfoldable pub check_workdir : Str → Result InvalidSpec Str
unfolding check_path text
check_workdir workdir =
    if workdir == [] then ok workdir else check_path (some workdir) (text "working directory")

-- The checks from the files on, with the checked base, architecture, packages, presets and tools in `spec`
unfoldable pub check_rest : Spec → Result InvalidSpec Spec
unfolding map_ok check_file check_script check_variable check_label check_user check_workdir
    check_tests
check_rest spec = map_ok check_file spec.files >>= λ files.
    map_ok check_script spec.scripts >>= λ scripts. map_ok check_variable spec.env >>= λ env.
    map_ok check_label spec.labels >>= λ labels. check_user spec.user >>= λ user.
    check_workdir spec.workdir >>= λ workdir. check_tests spec.tests >>= λ tests. ok (record spec {
      files = files;
      scripts = scripts;
      env = env;
      labels = labels;
      user = user;
      workdir = workdir;
      tests = tests;
    })

-- `validate_spec(spec)`
unfoldable pub validate_spec : Spec → Result InvalidSpec Spec
unfolding check_base check_architecture check_packages map_ok check_preset check_tool check_rest
    text
validate_spec spec = check_base spec.base >>= λ base.
    check_architecture spec.architecture >>= λ architecture.
    check_packages spec.packages >>= λ packages.
    check_packages spec.extra_packages >>= λ extra_packages.
    map_ok check_preset spec.presets >>= λ presets.
    map_ok (check_tool architecture) spec.tools >>= λ tools. check_count spec tools >>= λ _.
    check_rest (record spec {
      base = base;
      architecture = some architecture;
      packages = packages;
      extra_packages = extra_packages;
      presets = presets;
      tools = tools;
    })
