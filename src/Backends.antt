-- ===== src/Backends.antt =====
-- backends/cli.py, backends/podman.py and backends/docker.py: the commands of the container runtime and what is made
-- of their answers. The runtime is a parameter: what a command does to the disk, and how it ends. JSON is a
-- parameter too. Log lines are left out, and so is the reading of the output line by line.
mod Tests
pub mod Exported
use layersmith.Prelude.{
  ℕ, ◌/◌, ◌-◌, Bool, true, false, Option, none, some, List, [], ◌∷◌, ◌++◌, not, ◌==◌, nat_eq,
  list_eq, contains, if◌then◌else◌, length, take, drop,
}
use layersmith.Prelude.Result.{Result, ok, err}
use layersmith.Prelude.Text.{Str, text}
use layersmith.Prelude.Map.{Map}
use layersmith.Prelude.Strings.{strip, split, join, cut_first, cut_last}

-- PodmanBackend and DockerBackend
pub data Kind : Type 0 where
  podman docker : Kind

pub record Runtime : Type 0 where
  pub kind : Kind
  pub binary : Str
  pub timeout : ℕ

-- The sizes of the files
abbrev pub Disk : Type 0
Disk = Map Str ℕ

-- How a command ends: its exit status, its output and its error output, or a time-out
pub data Ended : Type 0 where
  exited : ℕ → Str → Str → Ended
  timed_out : Ended

-- BuildError, by what its text depends on, and the TimeoutExpired of `subprocess.run`
pub data BackendError : Type 0 where
  failed : Str → BackendError
  exited_with : List Str → ℕ → Str → BackendError
  timed_out_after : ℕ → BackendError
  wrong_format : Str → BackendError
  no_archive timeout_expired : BackendError
  no_metadata not_found no_digest : Str → BackendError

-- What `image inspect` says of an image
pub record Inspected : Type 0 where
  pub id : Option Str
  pub digest : Option Str
  pub repo_digests : List Str
  pub size : Option ℕ

-- `_platform_args`, `_save_args`, `archive_format` and `archive_formats`
unfoldable platform_args : Kind → Str → List Str
unfolding text
platform_args podman architecture = text "--arch" ∷ architecture ∷ []
platform_args docker architecture = text "--platform" ∷ (text "linux/" ++ architecture) ∷ []

unfoldable pub save_args : Kind → Str → Str → List Str
unfolding text
save_args podman destination archive_format =
    text "--format" ∷ archive_format ∷ text "--output" ∷ destination ∷ []
save_args docker destination archive_format = text "--output" ∷ destination ∷ []

unfoldable pub archive_formats : Kind → List Str
unfolding text
archive_formats podman = text "oci-archive" ∷ text "docker-archive" ∷ []
archive_formats docker = text "docker-archive" ∷ []

unfoldable pub own_format : Kind → Str
unfolding text
own_format podman = text "oci-archive"
own_format docker = text "docker-archive"

-- `a or b` of texts
abbrev or_filled : Str → Str → Str
or_filled a b = if a == [] then b else a

-- The last 15 lines of an output
abbrev tail_lines : Str → Str
tail_lines output = let lines = split 10 output in join (10 ∷ []) (drop (length lines - 15) lines)

-- `_digest_of(data)`
abbrev after_at : Option (Str × Str) → Option Str
after_at none = none
after_at (some (name, digest)) = some digest

abbrev repo_digest : List Str → Option Str
repo_digest [] = none
repo_digest (d ∷ ds) = after_at (cut_first 64 d)

abbrev digest_or : Option Str → Option Str → Option Str
digest_or none other = other
digest_or (some d) other = if d == [] then other else some d

abbrev pub image_digest : Inspected → Option Str
image_digest data_of = digest_or data_of.digest (repo_digest data_of.repo_digests)

-- `last.split(":", 1)[0]`
abbrev until_colon : Str → Option (Str × Str) → Str
until_colon s none = s
until_colon s (some (a, b)) = a

abbrev drop_tag : Str → Option (Str × Str) → Str
drop_tag name none = until_colon name (cut_first 58 name)
drop_tag name (some (head, last)) =
    let bare = until_colon last (cut_first 58 last) in
    if contains last 58 then (if head == [] then bare else head ++ (47 ∷ bare)) else name

abbrev by_digest_cut : Str → Option (Str × Str) → Str
by_digest_cut reference none = reference
by_digest_cut reference (some (name, digest)) = drop_tag name (cut_last 47 name) ++ (64 ∷ digest)

-- `_by_digest(reference)`
unfoldable pub by_digest : Str → Str
unfolding cut_first cut_last
by_digest reference = by_digest_cut reference (cut_first 64 reference)

module _ (process : List Str → Disk → Disk × Ended) (parse_json : Str → Option (List Inspected))
    (b : Runtime) where
  -- `_run(args)` without a log
  abbrev pub answer : Ended → Result BackendError Str
  answer timed_out = err timeout_expired
  answer (exited code output error) =
      if code == 0
      then ok output
      else err (
          failed
            (or_filled (take 2000 (strip (or_filled error output))) (b.binary ++ text " failed")))

  -- `_run(args, on_log, timeout)`, where the error output is part of the output
  abbrev pub logged_answer : List Str → ℕ → Ended → Result BackendError Str
  logged_answer args timeout timed_out = err (timed_out_after (timeout / 60))
  logged_answer args timeout (exited code output error) =
      if code == 0
      then ok output
      else err (exited_with (take 2 (b.binary ∷ args)) code (tail_lines output))

  unfoldable run_quietly : List Str → Disk → Disk × Result BackendError Str
  unfolding strip text
  run_quietly args disk =
      let (after, ended) = process (b.binary ∷ args) disk in (after, answer ended)

  unfoldable pub run_logged : List Str → ℕ → Disk → Disk × Result BackendError Str
  unfolding split join
  run_logged args timeout disk =
      let (after, ended) = process (b.binary ∷ args) disk in
      (after, logged_answer args timeout ended)

  abbrev first_image : Str → Option (List Inspected) → Result BackendError Inspected
  first_image reference none = err (no_metadata reference)
  first_image reference (some []) = err (not_found reference)
  first_image reference (some (i ∷ is)) = ok i

  abbrev read_answer : Str → Disk × Result BackendError Str → Disk × Result BackendError Inspected
  read_answer reference (disk, err e) = (disk, err e)
  read_answer reference (disk, ok output) = (disk, first_image reference (parse_json output))

  -- `_inspect_json(reference)`
  unfoldable inspect_json : Str → Disk → Disk × Result BackendError Inspected
  unfolding run_quietly text
  inspect_json reference disk =
      read_answer reference (run_quietly (text "image" ∷ text "inspect" ∷ reference ∷ []) disk)

  abbrev digest_found : Str → Option Str → Result BackendError Str
  digest_found reference none = err (no_digest reference)
  digest_found reference (some d) = if d == [] then err (no_digest reference) else ok d

  abbrev pub base_digest :
      Str → Disk × Result BackendError Inspected → Disk × Result BackendError Str
  base_digest reference (disk, err e) = (disk, err e)
  base_digest reference (disk, ok i) = (disk, digest_found reference (image_digest i))

  abbrev inspect_pulled : Str → Disk × Result BackendError Str → Disk × Result BackendError Str
  inspect_pulled reference (disk, err e) = (disk, err e)
  inspect_pulled reference (disk, ok output) = base_digest reference (inspect_json reference disk)

  -- `resolve_base(reference, architecture)`
  unfoldable pub resolve_base : Str → Str → Disk → Disk × Result BackendError Str
  unfolding by_digest platform_args run_logged inspect_json text
  resolve_base reference architecture disk =
      let pinned = by_digest reference in
      inspect_pulled pinned
        (run_logged (text "pull" ∷ (platform_args b.kind architecture ++ (pinned ∷ []))) 2700 disk)

  -- The file at the destination, which must not be empty
  abbrev pub size_of : Option ℕ → Result BackendError ℕ
  size_of none = err no_archive
  size_of (some n) = if n == 0 then err no_archive else ok n

  abbrev pub saved : Str → Disk × Result BackendError Str → Disk × Result BackendError ℕ
  saved destination (disk, err e) = (disk, err e)
  saved destination (disk, ok output) = (disk, size_of (disk destination))

  abbrev pub format_or_own : Option Str → Str
  format_or_own none = own_format b.kind
  format_or_own (some f) = or_filled f (own_format b.kind)

  -- `export(image_ref, destination, archive_format)`
  unfoldable pub export : Str → Str → Option Str → Disk → Disk × Result BackendError ℕ
  unfolding archive_formats own_format save_args run_logged text
  export image_ref destination archive_format disk =
      let format = format_or_own archive_format in
      if not (contains (archive_formats b.kind) format)
      then (disk, err (wrong_format format))
      else saved destination (
          run_logged (text "save" ∷ (save_args b.kind destination format ++ (image_ref ∷ []))) 3600
            disk)
