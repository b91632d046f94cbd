-- ===== src/Scanning/Trivy/Command.antt =====
-- The command line that runs Trivy, in scanners/trivy.py. Paths are texts in the form that `str(Path)` writes,
-- the configured host directory too, so that joining two of them puts one slash between.
pub mod Mounts
use layersmith.Prelude.{
  ℕ, Bool, true, false, Option, none, some, List, [], ◌∷◌, ◌++◌, ◌&&◌, not, ◌==◌, nat_eq, list_eq,
  if◌then◌else◌,
}
use layersmith.Prelude.Result.{Result, ok, err}
use layersmith.Prelude.Text.{Str, text, show}
use layersmith.Prelude.Strings.{join}

-- The settings of TrivyScanner that the command depends on. `has_binary` says whether `shutil.which` finds it.
pub record Trivy : Type 0 where
  pub mode : Str
  pub binary : Str
  pub has_binary : Bool
  pub image : Str
  pub runtime : Str
  pub cache_volume : Str
  pub network : Str
  pub mount_flags : Str
  pub offline : Bool
  pub data_volume : Str
  pub host_data_dir : Str
  pub data_dir : Str
  pub timeout : ℕ

-- An archive: its path, its path from the data directory if `relative_to` gives one, and whether its
-- resolved path lies in the resolved data directory
pub record Archive : Type 0 where
  pub path : Str
  pub relative : Option Str
  pub inside : Bool

-- MOUNT_PATH and CACHE_PATH
unfoldable mount_path : Str
unfolding text
mount_path = text "/scan/image"

unfoldable pub cache_path : Str
unfolding text
cache_path = text "/root/.cache"

-- `f"{a}:{b}"`
abbrev pub colon : Str → Str → Str
colon a b = a ++ (58 ∷ b)

abbrev pub under : Str → Archive → Option Str → Str
under host a none = a.path
under host a (some relative) = host ++ (47 ∷ relative)

-- `_host_path(path)`
unfoldable pub host_path : Trivy → Archive → Str
host_path t a = if t.host_data_dir == [] then a.path else under t.host_data_dir a a.relative

-- `_use_container()`
unfoldable pub use_container : Trivy → Bool
unfolding text
use_container t =
    if t.mode == text "container"
    then true
    else if t.mode == text "binary"
    then false
    else not t.has_binary

-- `self.data_volume and self._inside_data_dir(archive)`
abbrev pub in_volume : Trivy → Archive → Bool
in_volume t a = not (t.data_volume == []) && a.inside

-- `_archive_mount(archive)`
unfoldable pub archive_mount : Trivy → Archive → Str
unfolding host_path mount_path text
archive_mount t a =
    if in_volume t a
    then colon t.data_volume (colon t.data_dir t.mount_flags)
    else colon (host_path t a) (colon mount_path t.mount_flags)

-- `_input_path(archive)`
unfoldable pub input_path : Trivy → Archive → Str
unfolding use_container mount_path text
input_path t a =
    if not (use_container t) then a.path else if in_volume t a then a.path else mount_path

abbrev network_args : Trivy → List Str
network_args t = if t.network == [] then [] else text "--network" ∷ t.network ∷ []

abbrev mount_args : Trivy → Option Archive → List Str
mount_args t none = []
mount_args t (some a) = text "-v" ∷ archive_mount t a ∷ []

-- What comes before the image in the command of a container
unfoldable pub run_args : Trivy → Option Archive → List Str
unfolding archive_mount cache_path text
run_args t archive =
    t.runtime
    ∷ text "run"
    ∷ text "--rm"
    ∷ text "--security-opt"
    ∷ text "no-new-privileges"
    ∷ text "--cap-drop"
    ∷ text "ALL"
    ∷ text "-v"
    ∷ colon t.cache_volume cache_path
    ∷ (network_args t ++ mount_args t archive)

-- `_argv(trivy_args, archive)`
unfoldable pub argv : Trivy → List Str → Option Archive → List Str
unfolding run_args use_container
argv t trivy_args archive =
    if not (use_container t)
    then t.binary ∷ trivy_args
    else run_args t archive ++ (t.image ∷ trivy_args)

-- KIND_TO_SCANNER
abbrev scanner_of : Str → Option Str
scanner_of kind =
    if kind == text "vulnerability"
    then some (text "vuln")
    else if kind == text "secret"
    then some (text "secret")
    else if kind == text "misconfiguration"
    then some (text "misconfig")
    else none

abbrev cons_known : Option Str → List Str → List Str
cons_known none scanners = scanners
cons_known (some s) scanners = s ∷ scanners

unfoldable pub requested : List Str → List Str
unfolding text
requested [] = []
requested (kind ∷ kinds) = cons_known (scanner_of kind) (requested kinds)

abbrev timeout_args : Trivy → List Str
timeout_args t = text "--quiet" ∷ text "--timeout" ∷ (show t.timeout ++ text "s") ∷ []

-- The command of `scan_image` for an archive that exists; `none` is its error for kinds that Trivy does not know.
unfoldable scan_command : Trivy → List Str → Archive → Option (List Str)
unfolding argv input_path requested join show text
scan_command t kinds a =
    let offline_args =
      if t.offline
      then text "--skip-db-update" ∷ text "--skip-java-db-update" ∷ text "--offline-scan" ∷ []
      else [] in
    if requested kinds == []
    then none
    else some (
        argv t
          (text "image"
            ∷ text "--input"
            ∷ input_path t a
            ∷ text "--scanners"
            ∷ join (text ",") (requested kinds)
            ∷ text "--format"
            ∷ text "json"
            ∷ (timeout_args t ++ offline_args))
          (some a))

-- The command of `generate_sbom`, for CycloneDX
unfoldable sbom_command : Trivy → Archive → List Str
unfolding argv input_path show text
sbom_command t a =
    let offline_args =
      if t.offline then text "--skip-db-update" ∷ text "--offline-scan" ∷ [] else [] in
    argv t
      (text "image"
        ∷ text "--input"
        ∷ input_path t a
        ∷ text "--format"
        ∷ text "cyclonedx"
        ∷ (timeout_args t ++ offline_args))
      (some a)
