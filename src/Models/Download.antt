-- ===== src/Models/Download.antt =====
-- `_download` in services/llm_models.py: one file is fetched, from where an earlier attempt stopped.
-- The numbers that it yields for the progress display are not modelled.
pub mod Resumed
use layersmith.Prelude.{
  ℕ, Bool, true, false, Option, none, some, List, [], ◌∷◌, ◌++◌, ltb, ◌==◌, nat_eq, if◌then◌else◌,
  length,
}
use layersmith.Prelude.Result.{Result, ok, err}
use layersmith.Prelude.Text.{Str}
use layersmith.Split.Stream.{Bytes}
use layersmith.Split.Manifest.{File}

-- What one turn of the loop over the response meets: the model in `_cancel`, what
-- `response.read(READ_CHUNK)` gives, or the text of the OSError that it raises. After the last turn
-- the response has ended.
pub data Turn : Type 0 where
  cancel : Turn
  received : Bytes → Turn
  broken : Str → Turn

pub record Response : Type 0 where
  pub status : ℕ
  pub turns : List Turn

-- The answer to a request for the bytes from a position on, or the text of the URLError. At 0 the
-- request has no Range header.
abbrev pub Answer : Type 0
Answer = ℕ → Result Str Response

-- The exceptions that end a run. `os_error` has the reason, and `model_error` what is wrong.
pub data ModelError : Type 0 where
  -- "{name} is larger than Hugging Face said ({size} bytes)"
  larger : ℕ → ModelError
  -- "{name} does not match the sha256 Hugging Face publishes", or "its Git blob id"
  wrong_sha256 wrong_blob_id : Str → ModelError
  -- "Not enough space in the model directory", with what is needed and what is free
  no_space : ℕ → ℕ → ModelError
  -- "{final} already exists and is not managed by LayerSmith; move it away"
  already_exists : Str → ModelError
  -- a SplitError
  split_error : ModelError

pub data Stop : Type 0 where
  cancelled : Stop
  model_error : ModelError → Stop
  os_error : Str → Stop
  -- `stopped at {have} of {size} bytes`
  cut_short : ℕ → ℕ → Stop
  -- the process ends
  killed : Stop

-- `if have != size: raise OSError`
abbrev pub ended : ℕ → Bytes → Result Stop (Unit {0})
ended size held = if length held == size then ok tt else err (cut_short (length held) size)

-- `while True:`, with what the file holds; an empty chunk ends the loop.
unfoldable pub write_turns : ℕ → Bytes → List Turn → Result Stop (Unit {0}) × Bytes
write_turns size held [] = (ended size held, held)
write_turns size held (cancel ∷ turns) = (err cancelled, held)
write_turns size held (broken reason ∷ turns) = (err (os_error reason), held)
write_turns size held (received [] ∷ turns) = (ended size held, held)
write_turns size held (received (b ∷ chunk) ∷ turns) =
    let next = held ++ (b ∷ chunk) in
    let rest = write_turns size next turns in
    if ltb size (length next) then (err (model_error (larger size)), next) else rest

-- `target.stat().st_size if target.is_file() else 0`
abbrev pub have_of : Option File → ℕ
have_of none = 0
have_of (some f) = length f.bytes

-- `if have > size: target.unlink()`
abbrev pub unless_larger : ℕ → Option File → Option File
unless_larger size target = if ltb size (have_of target) then none else target

-- What the file holds when the loop begins: it is appended to only when the server sends a part.
abbrev pub held_at : Option File → ℕ → Bytes
held_at none status = []
held_at (some f) status = if status == 206 then f.bytes else []

abbrev pub respond :
    ℕ → ℕ → Option File → Result Str Response → Result Stop (Unit {0}) × Option File
respond mtime_ns size kept (err reason) = (err (os_error reason), kept)
respond mtime_ns size kept (ok r) =
    let (done, bytes) = write_turns size (held_at kept r.status) r.turns in
    (done, some (record { bytes = bytes; mtime_ns = mtime_ns }))

-- `_download(model_id, repo_id, commit, entry, target)` at a time, with the file afterwards
unfoldable pub fetch : ℕ → ℕ → Option File → Answer → Result Stop (Unit {0}) × Option File
unfolding write_turns
fetch mtime_ns size target answer =
    let kept = unless_larger size target in
    if have_of kept == size
    then (ok tt, kept)
    else respond mtime_ns size kept (answer (have_of kept))
