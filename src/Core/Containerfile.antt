-- ===== src/Core/Containerfile.antt =====
-- core/containerfile.py: `_quote`, `_install`, and `generate` for a specification that names no recipe and was
-- validated, so that its base, modes, paths and shell are set.
pub mod Quoted
pub mod Pinned
use layersmith.Prelude.{
  ℕ, Bool, true, false, Option, none, some, List, [], ◌∷◌, ◌++◌, ◌&&◌, not, map, ◌==◌, nat_eq,
  list_eq, contains, if◌then◌else◌, take,
}
use layersmith.Prelude.Result.{Result, ok, err, ◌>>=◌}
use layersmith.Prelude.Text.{Str, text, show}
use layersmith.Prelude.Strings.{strip, join, cut_first, cut_last, replace}
use layersmith.Core.Patterns.{or_text}
use layersmith.Core.Catalog.{find_key}
use layersmith.Core.Specification.Entries.{Tool, FileItem, Variable, User}
use layersmith.Core.Specification.{Spec}
use layersmith.Core.Packages.{Raised, Warning, enterprise_linux, family_name, resolve_packages}

-- `_quote(value)`: quotes around, and a backslash before each backslash, quote and dollar sign
unfoldable pub quote : Str → Str
unfolding replace
quote value =
    34
    ∷ (replace 36 (92 ∷ 36 ∷ []) (replace 34 (92 ∷ 34 ∷ []) (replace 92 (92 ∷ 92 ∷ []) value))
        ++ (34 ∷ []))

-- `" \\\n    "`, which continues an instruction on the next line
unfoldable continued : Str
unfolding text
continued = text " " ++ (92 ∷ 10 ∷ text "    ")

abbrev epel_prefix : Bool → Str
epel_prefix epel = if epel then text "dnf install -y epel-release && " else []

-- `_install(family, packages, epel)`, where there are packages
unfoldable pub install_line : Str → List Str → Bool → Str
unfolding continued join text
install_line family packages epel =
    let joined = join continued packages in
    if family == text "rpm"
    then text "RUN "
      ++ (epel_prefix epel
          ++ (text "dnf install -y --setopt=install_weak_deps=False"
              ++ (continued ++ (joined ++ (continued ++ text "&& dnf clean all")))))
    else if family == text "deb"
    then text "RUN apt-get update"
      ++ (continued
          ++ (text "&& DEBIAN_FRONTEND=noninteractive apt-get install -y --no-install-recommends"
              ++ (continued ++ (joined ++ (continued ++ text "&& rm -rf /var/lib/apt/lists/*")))))
    else text "RUN apk add --no-cache" ++ (continued ++ joined)

abbrev pub install : Str → List Str → Bool → Option Str
install family [] epel = none
install family (p ∷ ps) epel = some (install_line family (p ∷ ps) epel)

-- SHARE_DIR and ENTRYPOINT_PATH
unfoldable share_dir : Str
unfolding text
share_dir = text "/usr/local/share/layersmith"

unfoldable entrypoint_path : Str
unfolding text
entrypoint_path = text "/usr/local/bin/layersmith-entrypoint.sh"

-- What stands before a separator, or all
abbrev pub before : Str → Option (Str × Str) → Str
before s none = s
before s (some (a, b)) = a

-- `base.split("@", 1)[0].rsplit(":", 1)[0]`
unfoldable pub base_repository : Str → Str
unfolding cut_first cut_last
base_repository base = let name = before base (cut_first 64 base) in before name (cut_last 58 name)

-- A value that validation set
abbrev value_of : Option Str → Str
value_of none = []
value_of (some s) = s

unfoldable pub from_line : Str → Option Str → Str
unfolding base_repository text
from_line base none = text "FROM " ++ base
from_line base (some digest) = text "FROM " ++ (base_repository base ++ (64 ∷ digest))

pub record Project : Type 0 where
  pub name : Str
  pub description : Option Str

-- `labels[key] = value`, in the order in which the keys came in
unfoldable set_label : Str → Str → List (Str × Str) → List (Str × Str)
set_label key value [] = (key, value) ∷ []
set_label key value ((k, v) ∷ labels) =
    let rest = (k, v) ∷ set_label key value labels in if k == key then (k, value) ∷ labels else rest

unfoldable set_labels : List (Str × Str) → List (Str × Str) → List (Str × Str)
unfolding set_label
set_labels [] labels = labels
set_labels ((key, value) ∷ new) labels = set_labels new (set_label key value labels)

abbrev digest_label : Option Str → List (Str × Str) → List (Str × Str)
digest_label none labels = labels
digest_label (some digest) labels =
    set_label (text "org.opencontainers.image.base.digest") digest labels

unfoldable labels_of : Project → Spec → Str → Option Str → List (Str × Str)
unfolding set_labels replace text
labels_of project spec base base_digest = digest_label base_digest (
    set_labels spec.labels (
      (text "org.opencontainers.image.title", project.name)
      ∷ (
        text "org.opencontainers.image.description",
        replace 10 (text " ") (take 200 (or_text [] project.description)),
      )
      ∷ (text "org.opencontainers.image.base.name", base)
      ∷ []))

-- `f"{k}={_quote(v)}"`
unfoldable assigned : Str × Str → Str
unfolding quote
assigned (k, v) = k ++ (61 ∷ quote v)

unfoldable label_line : List (Str × Str) → Str
unfolding assigned join continued text
label_line labels = text "LABEL " ++ join (continued ++ text "  ") (map assigned labels)

-- `scripts.get(key)`, of the scripts that are not blank
abbrev is_filled : Option Str → Bool
is_filled none = false
is_filled (some body) = not (strip body == [])

abbrev has_script : Spec → Str → Bool
has_script spec key = is_filled (find_key spec.scripts key)

-- The lines that copy a script, and run it
unfoldable run_script : Str → List Str
unfolding share_dir text
run_script file =
    []
    ∷ (text "COPY --chmod=0755 scripts/"
        ++ (file ++ (text " " ++ (share_dir ++ (text "/" ++ file)))))
    ∷ (text "RUN " ++ (share_dir ++ (text "/" ++ file)))
    ∷ []

abbrev script_lines : Spec → Str → Str → List Str
script_lines spec key file = if has_script spec key then run_script file else []

abbrev install_lines : Option Str → List Str
install_lines none = []
install_lines (some line) = [] ∷ line ∷ []

unfoldable tool_line : Tool → Str
unfolding text
tool_line t =
    text "COPY --chmod="
    ++ (value_of t.mode ++ (text " tools/" ++ (t.sha256 ++ (text " " ++ value_of t.install_path))))

unfoldable file_line : FileItem → Str
unfolding text
file_line f =
    text "COPY --chmod="
    ++ (value_of f.mode ++ (text " files/" ++ (f.sha256 ++ (text " " ++ f.destination))))

abbrev variable_pair : Variable → Str × Str
variable_pair v = (v.name, v.value)

unfoldable env_lines : List Variable → List Str
unfolding assigned join continued text
env_lines [] = []
env_lines (v ∷ vs) =
    [] ∷ (text "ENV " ++ join continued (map assigned (map variable_pair (v ∷ vs)))) ∷ []

-- `user.get("gid")` and `user.get("uid")`, which are not 0 after validation
abbrev id_option : Str → Option ℕ → List Str
id_option flag none = []
id_option flag (some n) = (flag ++ show n) ∷ []

abbrev group_lines : Str → Option ℕ → List Str
group_lines name none = []
group_lines name (some gid) =
    (text "RUN groupadd -g "
      ++ (show gid
          ++ (text " " ++ (name ++ (text " || addgroup -g " ++ (show gid ++ (text " " ++ name)))))))
    ∷ []

unfoldable user_lines : User → List Str
unfolding join show text
user_lines user =
    let shell = value_of user.shell in
    let opts =
      join (text " ") (id_option (text "-u ") user.uid ++ id_option (text "-g ") user.gid) in
    if user.name == []
    then []
    else []
      ∷ (group_lines user.name user.gid
          ++ ((text "RUN useradd -m -s "
                ++ (shell
                    ++ (text " "
                        ++ (opts
                            ++ (text " "
                                ++ (user.name
                                    ++ (text " || adduser -D -s "
                                        ++ (shell ++ (text " " ++ user.name)))))))))
              ∷ []))

unfoldable last_lines : Spec → List Str
unfolding entrypoint_path text strip
last_lines spec =
    (if spec.workdir == [] then [] else [] ∷ (text "WORKDIR " ++ spec.workdir) ∷ [])
    ++ ((if spec.user.name == [] then [] else (text "USER " ++ spec.user.name) ∷ [])
        ++ (if has_script spec (text "entrypoint")
            then []
              ∷ (text "COPY --chmod=0755 scripts/entrypoint.sh " ++ entrypoint_path)
              ∷ (text "ENTRYPOINT [" ++ (34 ∷ (entrypoint_path ++ (34 ∷ text "]"))))
              ∷ []
            else []))

unfoldable head_lines : Project → Spec → Option Str → List Str
unfolding from_line labels_of label_line text
head_lines project spec base_digest =
    let base = value_of spec.base.source in
    (text "# Generated by LayerSmith for project " ++ (project.name ++ text "."))
    ∷ text
        "# GUI managed: this file is regenerated on save. Switch to Advanced mode to edit it yourself."
    ∷ from_line base base_digest
    ∷ []
    ∷ label_line (labels_of project spec base base_digest)
    ∷ []

-- The lines of the file, for packages that were found
unfoldable file_lines : Project → Spec → Option Str → List Str → List Str
unfolding head_lines run_script install_line tool_line file_line env_lines user_lines last_lines
    enterprise_linux strip text
file_lines project spec base_digest packages =
    head_lines project spec base_digest
    ++ (script_lines spec (text "pre_build") (text "pre-build.sh")
        ++ (install_lines (
              install (family_name spec.base.family) packages
                (spec.enable_epel && enterprise_linux spec))
            ++ (map tool_line spec.tools
                ++ (map file_line spec.files
                    ++ (env_lines spec.env
                        ++ (script_lines spec (text "post_install") (text "post-install.sh")
                            ++ (user_lines spec.user ++ last_lines spec)))))))

-- `generate(project, spec, base_digest)`
unfoldable pub generate :
    Project → Spec → Option Str → Result Raised (Str × List Str × List Warning)
unfolding file_lines join resolve_packages
generate project spec base_digest = resolve_packages spec >>= λ found.
    ok (join (10 ∷ []) (file_lines project spec base_digest found.0) ++ (10 ∷ []), found.0, found.1)
