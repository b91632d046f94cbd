-- ===== src/Scanning/Run.antt =====
-- `create`, `run`, `_set_state` and `_fail` of ScanService in services/scanning.py. What the scanner, the archive and the
-- file system do in a run is the record ScanSteps. Log lines and times are left out, and nothing deletes the row
-- of a scan while it is active.

mod Tests
pub mod Ended
use layersmith.Prelude.{
  ℕ, Bool, true, false, Option, none, some, List, [], ◌∷◌, ◌++◌, not, ◌==◌, nat_eq, list_eq,
  contains, if◌then◌else◌, take,
}
use layersmith.Prelude.Result.{Result, ok, err}
use layersmith.Prelude.Text.{Str, text}
use layersmith.Builds.Run.{Failure, message}
use layersmith.Scanning.Archive.{Source}
use layersmith.Scanning.Trivy.{Finding, Report}

-- What `scan_image` returns, and whether there is an SBOM: its components
pub record Scanned : Type 0 where
  pub findings : List Finding
  pub report : Report

-- The columns of a scan that are read or written here
pub record Scan : Type 0 where
  pub build_id : Str
  pub state : Str
  pub kinds : List Str
  pub error : Option Str
  pub archive_source : Option Source
  pub recorded : Option (Scanned × Option ℕ)

-- Why a scan is not created
pub data Refused : Type 0 where
  unavailable : Str → Refused
  unsupported : List Str → Refused
  unfinished : Refused

-- `[kind for kind in wanted if kind in supported_kinds]`
unfoldable pub supported_of : List Str → List Str → List Str
supported_of supported_kinds [] = []
supported_of supported_kinds (k ∷ ks) =
    let rest = supported_of supported_kinds ks in
    if contains supported_kinds k then k ∷ rest else rest

abbrev pub is_finished : Option Str → Bool
is_finished none = false
is_finished (some status) = status == text "ready"

-- `kinds or self.settings.scan_kinds`
abbrev pub wanted_kinds : List Str → List Str → List Str
wanted_kinds kinds scan_kinds = if kinds == [] then scan_kinds else kinds

-- `create(build_id, kinds)`: what the scanner says of itself, the kinds that it supports and those of the settings,
-- and the status of the build, if there is one
unfoldable pub create :
    Option Str → List Str → List Str → Option Str → Str → List Str → Result Refused Scan
unfolding supported_of text
create (some detail) supported_kinds scan_kinds build_status build_id kinds =
    err (unavailable detail)
create none supported_kinds scan_kinds build_status build_id kinds =
    let wanted = wanted_kinds kinds scan_kinds in
    let supported = supported_of supported_kinds wanted in
    if supported == []
    then err (unsupported wanted)
    else if not (is_finished build_status)
    then err unfinished
    else ok (record {
      build_id = build_id;
      state = text "queued";
      kinds = supported;
      error = none;
      archive_source = none;
      recorded = none;
    })

-- What the parts that a run calls return or raise: `archive_for`, `scan_image`, `generate_sbom` where the settings and the
-- scanner have it, and the writing of the report and of the SBOM in `_record`
pub record ScanSteps : Type 0 where
  pub archive_for : Result Failure Source
  pub scan_image : List Str → Result Failure Scanned
  pub wants_sbom : Bool
  pub generate_sbom : Result Failure ℕ
  pub write : Scanned → Option ℕ → Result Failure (Unit {0})

-- `_fail(scan_id, message)`
unfoldable pub fail : Str → Scan → Scan
unfolding text
fail m scan = record scan { state = text "failed"; error = some (take 2000 m) }

abbrev pub scan_then :
    {A : Type 0}
    → Scan
    → Result Failure A
    → (A → Scan × Result Failure (Unit {0}))
    → Scan × Result Failure (Unit {0})
scan_then scan (err f) k = (scan, err f)
scan_then scan (ok a) k = k a

abbrev some_sbom : Result Failure ℕ → Result Failure (Option ℕ)
some_sbom (err f) = err f
some_sbom (ok n) = ok (some n)

abbrev pub sbom_of : ScanSteps → Result Failure (Option ℕ)
sbom_of st = if st.wants_sbom then some_sbom st.generate_sbom else ok none

-- The end of `_record`
abbrev pub completed : Scan → Scanned → Option ℕ → Scan
completed scan r sbom = record scan { state = text "completed"; recorded = some (r, sbom) }

-- `_set_state(scan_id, "scanning", archive_source=…)`
abbrev pub set_scanning : Scan → Source → Scan
set_scanning scan source = record scan { state = text "scanning"; archive_source = some source }

-- The body of the `try`, for a scan that is being exported
unfoldable pub scan_stages : ScanSteps → Scan → Scan × Result Failure (Unit {0})
unfolding text
scan_stages st scan = scan_then scan st.archive_for (λ source.
    scan_then (set_scanning scan source) (st.scan_image scan.kinds) (λ r.
      scan_then (set_scanning scan source) (sbom_of st) (λ sbom.
        scan_then (set_scanning scan source) (st.write r sbom)
          (λ _. (completed (set_scanning scan source) r sbom, ok tt)))))

-- The `except` clauses
abbrev pub end_scan : Scan × Result Failure (Unit {0}) → Scan
end_scan (scan, err f) = fail (message f) scan
end_scan (scan, ok _) = scan

-- `run(scan_id)`
unfoldable pub run : ScanSteps → Scan → Scan
unfolding scan_stages fail text
run st scan =
    if not (scan.state == text "queued")
    then scan
    else end_scan (scan_stages st (record scan { state = text "exporting" }))
