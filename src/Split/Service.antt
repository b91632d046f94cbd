-- ===== src/Split/Service.antt =====
-- `SplitService` in services/splitting.py: one run per build at a time, in the background.
-- The table of builds and the disk belong to other parts of the program: a run reads them when it
-- starts and when it commits, and they may change between. In `start`, the size is that of the file that
-- was found, and the thread starts.
pub mod Runs
pub mod Current
pub mod Status
pub mod Threads
use layersmith.Prelude.{
  ℕ, ◌+◌, Bool, true, false, Option, none, some, List, [], ◌∷◌, ◌++◌, ◌&&◌, ◌||◌, not, ◌==◌, nat_eq,
  list_eq, option_eq, if◌then◌else◌, length,
}
use layersmith.Prelude.Result.{Result, ok, err}
use layersmith.Prelude.Text.{Str, text}
use layersmith.Prelude.Map.{Map, put, erase}
use layersmith.Split.Plan.{Range, PlanError, part_size, plan}
use layersmith.Split.Manifest.{
  File, Disk, Manifest, Build, SplitError, Download, build_not_found, nothing_to_split, not_on_disk,
  base_name, or_empty, is_set, archive_name, current_manifest, downloads, changed,
}

pub data State : Type 0 where
  running failed : State

-- An entry of `_jobs`; the error is the exception whose text it holds.
pub record Job : Type 0 where
  pub state : State
  pub done : ℕ
  pub total : ℕ
  pub error : Option SplitError

pub record Service : Type 0 where
  pub jobs : Map Str Job
  pub builds : Map Str Build
  pub disk : Disk

-- The arguments of the thread that `start` creates
pub record Run : Type 0 where
  pub build_id : Str
  pub path : Str
  pub archive : Str
  pub expected : Str
  pub image : Option Str
  pub size : ℕ

abbrev pub is_running : Option Job → Bool
is_running none = false
is_running (some j) = elim j.state [ running ↦ true | failed ↦ false ]

-- `with self._lock: ...` at the end of `start`
abbrev pub register : Service → Run → File → Service × Option Run
register s run f = if is_running (s.jobs run.build_id) then (s, none) else (
  record s {
    jobs =
        put s.jobs run.build_id
          (record { state = running; done = 0; total = length f.bytes; error = none });
  },
  some run,
)

-- The thread's arguments
abbrev pub run_for : ℕ → Str → Build → Str → Run
run_for configured build_id b archive = record {
  build_id = build_id;
  path = or_empty b.export_path;
  archive = archive;
  expected = or_empty b.export_sha256;
  image = b.image_ref;
  size = part_size configured;
}

-- The end of `start`, from the archive's name and the current manifest
abbrev pub begin :
    ℕ
    → Service
    → Str
    → Build
    → File
    → Result SplitError Str
    → Option Manifest
    → Result SplitError (Service × Option Run)
begin configured s build_id b f (err e) m = err e
begin configured s build_id b f (ok archive) (some m) = ok (s, none)
begin configured s build_id b f (ok archive) none =
    ok (register s (run_for configured build_id b archive) f)

abbrev pub start_file :
    ℕ → Service → Str → Build → Option File → Result SplitError (Service × Option Run)
start_file configured s build_id b none = err not_on_disk
start_file configured s build_id b (some f) =
    begin configured s build_id b f (archive_name b) (current_manifest s.disk b)

abbrev pub start_build : ℕ → Service → Str → Option Build → Result SplitError (Service × Option Run)
start_build configured s build_id none = err build_not_found
start_build configured s build_id (some b) =
    if (b.status == text "ready" && is_set b.export_path) && is_set b.export_sha256
    then start_file configured s build_id b (s.disk (or_empty b.export_path))
    else err nothing_to_split

-- `start(build_id)`: the thread to run, or `none` where there is nothing to do.
unfoldable pub start : ℕ → Service → Str → Result SplitError (Service × Option Run)
unfolding text archive_name current_manifest part_size
start configured s build_id = start_build configured s build_id (s.builds build_id)

abbrev with_done : ℕ → Option Job → Option Job
with_done done none = none
with_done done (some j) = some (record j { done = done })

-- `_progress`
unfoldable pub progress : Service → Str → ℕ → Service
progress s build_id done = elim (s.jobs build_id) [
  | none ↦ s
  | some j ↦ record s { jobs = put s.jobs build_id (record j { done = done }) }
]

-- `except Exception as exc:` of `_run`
abbrev pub fail : Service → Run → SplitError → Service
fail s run e = record s {
  jobs = put s.jobs run.build_id (record { state = failed; done = 0; total = 0; error = some e });
}

-- `build is None or build.export_sha256 != expected or Path(build.export_path or "") != path`
abbrev pub still_expected : Run → Option Build → Bool
still_expected run none = false
still_expected run (some b) =
    b.export_sha256 == some run.expected && or_empty b.export_path == run.path

abbrev pub commit : Service → Run → Manifest → Option Build → Service
commit s run m none = fail s run changed
commit s run m (some b) =
    if still_expected run (some b)
    then record s {
      jobs = erase s.jobs run.build_id;
      builds =
          put s.builds run.build_id
            (record b { export_parts = some (record m { image_ref = run.image }) });
    }
    else fail s run changed

-- `_run` after `compute` has returned or raised
unfoldable pub finish : Service → Run → Result SplitError Manifest → Service
finish s run (err e) = fail s run e
finish s run (ok m) = commit s run m (s.builds run.build_id)

pub data Answer : Type 0 where
  idle : Answer
  progressing : ℕ → ℕ → Answer
  ready : Manifest → Answer
  broken : Option SplitError → Answer

pub record Report : Type 0 where
  pub part_size : ℕ
  pub planned_parts : ℕ
  pub archive_size : ℕ
  pub available : Bool
  pub answer : Answer
  pub files : List Download
  pub archive : Option Str
  pub archive_sha256 : Option Str

abbrev pub or_zero : Option ℕ → ℕ
or_zero none = 0
or_zero (some n) = n

abbrev plan_length : Result PlanError (List Range) → ℕ
plan_length (ok rs) = length rs
plan_length (err e) = 0

abbrev pub is_file : Option File → Bool
is_file none = false
is_file (some f) = true

-- The order of the tests in `status`: a running job, then a current manifest, then a failure.
abbrev pub answer : Option Job → Option Manifest → Answer
answer (some (j)) m = elim j.state [
  | running ↦ progressing j.done j.total
  | failed ↦ elim m [ some k ↦ ready k | none ↦ broken j.error ]
]
answer none (some m) = ready m
answer none none = idle

abbrev pub report : (Manifest → ℕ) → ℕ → ℕ → Build → Bool → Answer → Report
report script_size size total b available a =
    let base : Report = record {
      part_size = size;
      planned_parts = plan_length (plan total size);
      archive_size = total;
      available = available;
      answer = a;
      files = [];
      archive = if is_set b.export_path then some (base_name (or_empty b.export_path)) else none;
      archive_sha256 = b.export_sha256;
    } in
    elim a [
      | ready m ↦ record base {
        part_size = m.part_size;
        planned_parts = length m.parts;
        files = downloads script_size m;
      }
      | _ ↦ base
    ]

-- `status(build)` for the build with this id and row
unfoldable pub status : (Manifest → ℕ) → ℕ → Service → Str → Build → Report
unfolding text part_size plan current_manifest downloads
status script_size configured s build_id b =
    let available =
      (b.status == text "ready" && is_set b.export_path)
      && is_file (s.disk (or_empty b.export_path)) in
    let m = if available then current_manifest s.disk b else none in
    report script_size (part_size configured) (or_zero b.export_size) b available
      (answer (s.jobs build_id) m)
