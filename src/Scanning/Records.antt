-- ===== src/Scanning/Records.antt =====
-- The records of scans in services/scanning.py: the counts of `_record` and `summarise`,
-- `recover_interrupted`, `delete_for_build` and `delete_artifacts`. The table of scans is a list.
pub mod Counts
pub mod Removal
use layersmith.Prelude.{
  ℕ, ◌+◌, Bool, true, false, Option, none, some, List, [], ◌∷◌, ◌++◌, ◌&&◌, ◌||◌, not, map, ◌==◌,
  nat_eq, list_eq, contains, if◌then◌else◌, length,
}
use layersmith.Prelude.Result.{Result, ok, err}
use layersmith.Prelude.Text.{Str, text}
use layersmith.Prelude.Map.{Map, empty, put, erase}
use layersmith.Split.Stream.{Bytes}
use layersmith.Scanning.Archive.{filled}

pub record Finding : Type 0 where
  pub kind : Str
  pub severity : Str

abbrev pub Counts : Type 0
Counts = Map Str (Map Str ℕ)

abbrev or_none : Option (Map Str ℕ) → Map Str ℕ
or_none none = empty
or_none (some m) = m

abbrev or_0 : Option ℕ → ℕ
or_0 none = 0
or_0 (some n) = n

-- `counts.setdefault(kind, {}).setdefault(severity, 0)`, and `counts[kind][severity] += 1`
abbrev pub count_one : Counts → Finding → Counts
count_one counts f =
    let of_kind = or_none (counts f.kind) in
    put counts f.kind (put of_kind f.severity (or_0 (of_kind f.severity) + 1))

unfoldable pub count_all : Counts → List Finding → Counts
count_all counts [] = counts
count_all counts (f ∷ fs) = count_all (count_one counts f) fs

-- `(scan.counts or {}).get(kind, {})`, and of that `.get(level, 0)`
unfoldable pub level_count : Counts → Str → Str → ℕ
level_count counts kind level = or_0 (or_none (counts kind) level)

pub record Scan : Type 0 where
  pub id : Str
  pub build_id : Str
  pub state : Str
  pub error : Option Str
  pub report_path : Option Str
  pub sbom_path : Option Str

pub record Store : Type 0 where
  pub scans : List Scan
  pub disk : Map Str Bytes

-- SCAN_ACTIVE_STATES of models.py
unfoldable pub scan_active_states : List Str
unfolding text
scan_active_states = text "queued" ∷ text "exporting" ∷ text "scanning" ∷ []

abbrev pub is_active : Scan → Bool
is_active s = contains scan_active_states s.state

abbrev pub interrupted : Str
interrupted = text "Interrupted: LayerSmith stopped while this scan was running. Scan again."

abbrev pub fail_interrupted : Scan → Scan
fail_interrupted s =
    if is_active s then record s { state = text "failed"; error = some interrupted } else s

-- `recover_interrupted()`, without the number that it returns
unfoldable pub recover_interrupted : Store → Store
unfolding scan_active_states text
recover_interrupted s = record s { scans = map fail_interrupted s.scans }

abbrev pub unlink : Map Str Bytes → Option Str → Map Str Bytes
unlink disk none = disk
unlink disk (some path) = erase disk path

-- `delete_artifacts(scan)`
abbrev pub delete_artifacts : Map Str Bytes → Scan → Map Str Bytes
delete_artifacts disk s = unlink (unlink disk (filled s.report_path)) (filled s.sbom_path)

-- `any(scan.state in SCAN_ACTIVE_STATES for scan in scans)`, for the scans of the build
abbrev pub any_active : Str → List Scan → Bool
any_active build_id [] = false
any_active build_id (s ∷ ss) = (s.build_id == build_id && is_active s) || any_active build_id ss

-- `for scan in scans:`, over the table
abbrev pub delete_each : Str → Store → List Scan → Store
delete_each build_id s [] = record s { scans = [] }
delete_each build_id s (x ∷ xs) =
    let gone = delete_each build_id (record s { disk = delete_artifacts s.disk x }) xs in
    let kept = delete_each build_id s xs in
    if x.build_id == build_id then gone else record kept { scans = x ∷ kept.scans }

pub data RemovalError : Type 0 where
  still_running : RemovalError

-- `delete_for_build(build_id)`, without the number that it returns
unfoldable pub delete_for_build : Store → Str → Result RemovalError Store
unfolding scan_active_states text
delete_for_build s build_id =
    if any_active build_id s.scans then err still_running else ok (delete_each build_id s s.scans)
