-- ===== src/Models/Service/Run.antt =====
-- `run`, `check_space` and `recover` of ModelService in services/llm_models.py. What the network and another
-- thread do in the course of a run is the record Surroundings.
pub mod Sized
pub mod Checked
pub mod Ready
pub mod Stored
pub mod Stuck
pub mod Retried
pub mod Served
pub mod Made
use layersmith.Prelude.{
  ℕ, ◌+◌, ◌-◌, ◌*◌, min, Bool, ◌||◌, Option, none, some, List, [], ◌∷◌, ◌++◌, map, ltb, ◌==◌,
  nat_eq, list_eq, contains, length, if◌then◌else◌,
}
use layersmith.Prelude.Result.{Result, ok, err}
use layersmith.Prelude.Text.{Str, text}
use layersmith.Prelude.Map.{Map, put, erase, empty}
use layersmith.Split.Stream.{Bytes}
use layersmith.Split.Manifest.{File, Disk}
use layersmith.Vtar.{Info}
use layersmith.Models.Files.{ModelFile}
use layersmith.Models.Download.{
  Answer, Stop, cancelled, model_error, os_error, cut_short, killed, no_space, already_exists,
  have_of, fetch,
}
use layersmith.Models.Service.{
  LlmModel, Models, ModelParts, get, set, sum_of, active, in_dir, staging_dir, verify, keep_file,
  clean, compute_parts, discard, NotFound, delete,
}

-- What happens beside a run: nothing; `delete` right before the test of `_cancel`; `delete`, or the end
-- of the process, while the parts are computed.
pub data Meanwhile : Type 0 where
  nothing deleted deleted_late killed_late : Meanwhile

-- `shutil.disk_usage(…).free`, the answers for each file, and the time of the writes
pub record Surroundings : Type 0 where
  pub free : ℕ
  pub answer : Str → Answer
  pub mtime_ns : ℕ
  pub meanwhile : Meanwhile

-- HEADROOM
abbrev pub headroom : ℕ
headroom = 2_000_000_000

-- What of the files is already there, with at most the size of each
abbrev pub already : Disk → List ModelFile → ℕ
already disk [] = 0
already disk (f ∷ fs) = min (have_of (disk f.name)) f.size + already disk fs

abbrev pub then_rest :
    Result Stop (Unit {0}) → Disk → Result Stop (Unit {0}) × Disk → Result Stop (Unit {0}) × Disk
then_rest (err stop) disk rest = (err stop, disk)
then_rest (ok done) disk rest = rest

-- `for entry in files:` with `_download`
unfoldable pub download_all : Surroundings → Disk → List ModelFile → Result Stop (Unit {0}) × Disk
unfolding fetch
download_all w disk [] = (ok tt, disk)
download_all w disk (f ∷ fs) =
    let (done, target) = fetch w.mtime_ns f.size (disk f.name) (w.answer f.name) in
    let after = keep_file disk f.name target in then_rest done after (download_all w after fs)

abbrev pub add_verified :
    ModelFile
    → Result Stop Str
    → Disk
    → Result Stop (List ModelFile) × Disk
    → Result Stop (List ModelFile) × Disk
add_verified f (err stop) disk rest = (err stop, disk)
add_verified f (ok sum) disk (err stop, after) = (err stop, after)
add_verified f (ok sum) disk (ok fs, after) = (ok (record f { sha256 = some sum } ∷ fs), after)

module _ (sha256 sha1 : Bytes → Str) where
  -- `for entry in files:` with `_verify`
  unfoldable pub verify_all : Disk → List ModelFile → Result Stop (List ModelFile) × Disk
  unfolding verify
  verify_all disk [] = (ok [], disk)
  verify_all disk (f ∷ fs) =
      let (sum, kept) = verify sha256 sha1 f (disk f.name) in
      let after = keep_file disk f.name kept in add_verified f sum after (verify_all after fs)

-- The row of a model that is ready
abbrev pub made_ready : Str → List ModelFile → ModelParts → ℕ → LlmModel → LlmModel
made_ready final files parts done m = record m {
  status = text "ready";
  path = some final;
  files = files;
  parts = some parts;
  done_bytes = done;
}

-- `staging.mkdir(parents=True, exist_ok=True)`
abbrev pub made : Option Disk → Disk
made none = empty
made (some disk) = disk

abbrev pub begin : LlmModel → Models → Models
begin m = set m.id (λ r. record r { status = text "downloading"; error = none })

module _ (model_dir : Str) where
  abbrev pub store :
      LlmModel
      → List ModelFile
      → ℕ
      → Result Stop ModelParts
      → Models
      → Result Stop (Unit {0}) × Models
  store m files done (err stop) s = (err stop, s)
  store m files done (ok parts) s =
      (ok tt, set m.id (made_ready (in_dir model_dir m.name) files parts done) s)

  -- The staging folder as the files are written and removed in it
  abbrev pub staged : LlmModel → Disk → Models → Models
  staged m disk s = record s { dirs = put s.dirs (staging_dir model_dir m.id) disk }

  -- `except …:` and `finally:`. When the process ends, `_queue` and `_cancel` go with it.
  abbrev pub settle : LlmModel → Result Stop (Unit {0}) × Models → Models
  settle m (ok done, s) = record s { cancel = discard m.id s.cancel }
  settle m (err cancelled, s) = record s {
    dirs = erase s.dirs (staging_dir model_dir m.id);
    cancel = discard m.id s.cancel;
  }
  settle m (err killed, s) = record s { queue = []; cancel = [] }
  settle m (err stop, s) =
      let failed = set m.id (λ r. record r { status = text "failed"; error = some stop }) s in
      record failed { cancel = discard m.id s.cancel }

module _ (resolve : Str → List Str) (model_dir : Str) where
  -- `delete` by another thread, where `rmtree` removes the whole folder
  abbrev pub after_delete : Models → Result NotFound (ℕ × Models) → Models
  after_delete s (err e) = s
  after_delete s (ok (freed, t)) = t

  unfoldable pub delete_meanwhile : Str → Models → Models
  unfolding delete
  delete_meanwhile id s = after_delete s (delete (λ path disk. none) resolve model_dir id s)

  abbrev pub delete_if : Meanwhile → Str → Models → Models
  delete_if deleted id s = delete_meanwhile id s
  delete_if _ id s = s

module _ (sha256 sha1 : Bytes → Str) (header : Info → Bytes) (configured : ℕ)
    (resolve : Str → List Str) (model_dir : Str) where
  -- `clean = …`, `compute_parts` and the last `_set`, with what comes between them
  abbrev pub split :
      LlmModel → Disk → List ModelFile → ℕ → Meanwhile → Models → Result Stop (Unit {0}) × Models
  split m disk files done killed_late s = (err killed, s)
  split m disk files done deleted_late s =
      store model_dir m files done
        (compute_parts sha256 header configured (in_dir model_dir m.name) disk m.name files)
        (delete_meanwhile resolve model_dir m.id s)
  split m disk files done _ s =
      store model_dir m files done
        (compute_parts sha256 header configured (in_dir model_dir m.name) disk m.name files) s

  -- `if final.exists():` and `staging.rename(final)`
  abbrev pub place :
      LlmModel
      → Disk
      → List ModelFile
      → ℕ
      → Meanwhile
      → Models
      → Option Disk
      → Result Stop (Unit {0}) × Models
  place m disk files done meanwhile s (some taken) =
      (err (model_error (already_exists (in_dir model_dir m.name))), s)
  place m disk files done meanwhile s none =
      split m disk (map clean files) done meanwhile (record s {
        dirs = put (erase s.dirs (staging_dir model_dir m.id)) (in_dir model_dir m.name) disk;
      })

  -- `if model_id in self._cancel:`
  abbrev pub unless_cancelled :
      LlmModel → Disk → List ModelFile → ℕ → Meanwhile → Models → Result Stop (Unit {0}) × Models
  unless_cancelled m disk files done meanwhile s =
      if contains s.cancel m.id
      then (err cancelled, s)
      else place m disk files done meanwhile s (s.dirs (in_dir model_dir m.name))

  abbrev pub after_verify :
      LlmModel
      → ℕ
      → Meanwhile
      → Models
      → Result Stop (List ModelFile) × Disk
      → Result Stop (Unit {0}) × Models
  after_verify m done meanwhile s (err stop, disk) = (err stop, staged model_dir m disk s)
  after_verify m done meanwhile s (ok files, disk) =
      unless_cancelled m disk files done meanwhile
        (delete_if resolve model_dir meanwhile m.id (staged model_dir m disk s))

  -- A download that finds itself cancelled does so after `delete`.
  abbrev pub after_download :
      Surroundings
      → LlmModel
      → Models
      → Result Stop (Unit {0}) × Disk
      → Result Stop (Unit {0}) × Models
  after_download w m s (err cancelled, disk) =
      (err cancelled, delete_meanwhile resolve model_dir m.id (staged model_dir m disk s))
  after_download w m s (err stop, disk) = (err stop, staged model_dir m disk s)
  after_download w m s (ok done, disk) =
      after_verify m (sum_of m.files) w.meanwhile
        (set m.id (λ r. record r { status = text "verifying"; done_bytes = sum_of m.files })
          (staged model_dir m disk s))
        (verify_all sha256 sha1 disk m.files)

  -- The body of `try:`, with the staging folder as it was made or found
  abbrev pub attempt : Surroundings → LlmModel → Models → Disk → Result Stop (Unit {0}) × Models
  attempt w m s disk =
      let needed = sum_of m.files - already disk m.files in
      let tried = after_download w m (staged model_dir m disk s) (download_all w disk m.files) in
      if ltb w.free (needed + headroom)
      then (err (model_error (no_space needed w.free)), staged model_dir m disk s)
      else tried

  abbrev pub run_row : Surroundings → Models → Option LlmModel → Models
  run_row w s none = s
  run_row w s (some m) =
      if m.status == text "queued" || m.status == text "downloading"
      then settle model_dir m (attempt w m (begin m s) (made (s.dirs (staging_dir model_dir m.id))))
      else s

  -- `run(model_id)`
  unfoldable pub run : Str → Surroundings → Models → Models
  unfolding text get staging_dir download_all verify_all compute_parts delete_meanwhile
  run id w s = run_row w s (get id s.rows)

-- `recover()`; the rows are in the order in which they were made.
abbrev pub requeue : List LlmModel → List LlmModel
requeue [] = []
requeue (m ∷ ms) =
    (if contains active m.status then record m { status = text "queued" } else m) ∷ requeue ms

abbrev pending : List LlmModel → List Str
pending [] = []
pending (m ∷ ms) = let rest = pending ms in if contains active m.status then m.id ∷ rest else rest

unfoldable pub recover : Models → Models
unfolding text active
recover s = record s { rows = requeue s.rows; queue = s.queue ++ pending s.rows }
