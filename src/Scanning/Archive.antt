-- ===== src/Scanning/Archive.antt =====
-- `_reusable_export`, `_export_format`, `_verify_reference` and `archive_for` of ScanService in
-- services/scanning.py. A context manager takes the block that uses it as an argument.
-- The disk is a table of files. The block does not write to it (the reports that a scan writes are not modelled),
-- and removing the temporary file succeeds. The container runtime is the record `Backend`: what its commands give.
pub mod Checks
pub mod Verified
use layersmith.Prelude.{
  ℕ, Bool, true, false, Option, none, some, List, [], ◌∷◌, ◌++◌, ◌&&◌, ◌||◌, not, ◌==◌, nat_eq,
  list_eq, option_eq, contains, if◌then◌else◌,
}
use layersmith.Prelude.Result.{Result, ok, err}
use layersmith.Prelude.Text.{Str, text}
use layersmith.Prelude.Map.{Map, put, erase}
use layersmith.Split.Stream.{Bytes}

pub data ScanError : Type 0 where
  build_gone not_finished : ScanError
  -- no format that the scanner reads and the runtime writes
  no_format : ScanError
  -- "is no longer available to scan", "now points at a different image"
  not_available : Str → ScanError
  different_image : Str → Str → ScanError
  -- BuildError of the export
  export_failed : Str → ScanError
  -- an error of the block that uses the archive
  scanner_failed : Str → ScanError

-- The columns of a build that are read here
pub record Build : Type 0 where
  pub status : Str
  pub image_ref : Option Str
  pub image_digest : Option Str
  pub export_path : Option Str
  pub export_sha256 : Option Str

-- What `export` does: what it has written when it ends, and its error, if it has one
pub record Exported : Type 0 where
  pub written : Option Bytes
  pub failure : Option Str

-- `inspect` gives the digest of an image, if the runtime knows one.
pub record Backend : Type 0 where
  pub archive_format : Str
  pub archive_formats : List Str
  pub inspect : Str → Result Str (Option Str)
  pub export : Str → Str → Exported

pub data Source : Type 0 where
  existing_export temporary_export : Source

pub record ImageArchive : Type 0 where
  pub path : Str
  pub source : Source
  pub archive_format : Str

-- `x and ...` for a text that may be missing
abbrev pub filled : Option Str → Option Str
filled none = none
filled (some s) = if s == [] then none else some s

-- `_verify_reference`, from what `inspect` gives: none is no objection.
abbrev pub compare_digest : Str → Option Str → Option ScanError
compare_digest digest none = none
compare_digest digest (some current) =
    if current == digest then none else some (different_image current digest)

abbrev pub compare_image : Str → Result Str (Option Str) → Option ScanError
compare_image digest (err e) = some (not_available e)
compare_image digest (ok current) = compare_digest digest (filled current)

abbrev pub verify_digest : Backend → Str → Option Str → Option ScanError
verify_digest backend reference none = none
verify_digest backend reference (some digest) = compare_image digest (backend.inspect reference)

abbrev pub verify_reference : Backend → Str → Option Str → Option ScanError
verify_reference backend reference digest = verify_digest backend reference (filled digest)

-- `_export_format`, over the scanner's formats
unfoldable pub export_format : List Str → List Str → Option Str
export_format [] backend = none
export_format (wanted ∷ more) backend =
    let rest = export_format more backend in if contains backend wanted then some wanted else rest

module _ (sha256 : Bytes → Str) (formats : List Str) (backend : Backend)
    (disk : Map Str Bytes) where
  -- The tests of `_reusable_export` on the file, with what is recorded
  abbrev pub check_export : Str → Str → Option Bytes → Option Str
  check_export path sum none = none
  check_export path sum (some b) =
      if not (contains formats backend.archive_format)
      then none
      else if sha256 b == sum
      then some path
      else none

  abbrev pub reusable : Option Str → Option Str → Option Str
  reusable none sum = none
  reusable (some path) none = none
  reusable (some path) (some sum) = check_export path sum (disk path)

  -- `_reusable_export(build)`
  abbrev pub reusable_export : Build → Option Str
  reusable_export b = reusable (filled b.export_path) (filled b.export_sha256)

  module _ {A : Type 0} (temporary : Str) (body : ImageArchive → Bytes → Result ScanError A) where
    abbrev pub Ended : Type 0
    Ended = Result ScanError A × Map Str Bytes

    -- The block on the archive at a path; a file that is gone is an error of the scanner.
    abbrev pub use_archive : ImageArchive → Option Bytes → Result ScanError A
    use_archive archive none = err (scanner_failed (text "No such file"))
    use_archive archive (some b) = body archive b

    -- `temporary.unlink(missing_ok=True)` in `finally`
    abbrev pub unlink : Map Str Bytes → Result ScanError A → Ended
    unlink d r = (r, erase d temporary)

    abbrev pub write : Option Bytes → Map Str Bytes
    write none = disk
    write (some b) = put disk temporary b

    abbrev pub after_export : Str → Exported → Option Str → Ended
    after_export format x (some e) = unlink (write x.written) (err (export_failed e))
    after_export format x none =
        let d = write x.written in
        unlink d (
          use_archive
            (record { path = temporary; source = temporary_export; archive_format = format })
            (d temporary))

    abbrev pub after_verify : Str → Str → Option ScanError → Ended
    after_verify reference format (some e) = unlink disk (err e)
    after_verify reference format none =
        let x = backend.export reference format in after_export format x x.failure

    abbrev pub temporary_archive : Str → Option Str → Option Str → Ended
    temporary_archive reference digest none = (err no_format, disk)
    temporary_archive reference digest (some format) =
        after_verify reference format (verify_reference backend reference digest)

    abbrev pub choose : Str → Option Str → Option Str → Ended
    choose reference digest (some path) = (
      use_archive
          (record {
            path = path;
            source = existing_export;
            archive_format = backend.archive_format;
          })
          (disk path),
      disk,
    )
    choose reference digest none =
        temporary_archive reference digest (export_format formats backend.archive_formats)

    abbrev pub finished : Build → Option Str → Ended
    finished b none = (err not_finished, disk)
    finished b (some reference) =
        if b.status == text "ready"
        then choose reference b.image_digest (reusable_export b)
        else (err not_finished, disk)

    abbrev pub found : Option Build → Ended
    found none = (err build_gone, disk)
    found (some b) = finished b (filled b.image_ref)

    -- `with self.archive_for(build_id) as archive:`, for the build's row; `temporary` is the new name.
    unfoldable pub archive_for : Option Build → Ended
    unfolding export_format text
    archive_for b = found b
