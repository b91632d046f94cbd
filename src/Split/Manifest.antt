-- ===== src/Split/Manifest.antt =====
-- The manifest of a split download in services/splitting.py: `archive_name`, `current_manifest`,
-- `_host_install`, `archive_checksum`, `parts_checksums`, `downloads`, and `SplitService.compute`.
pub mod Compute
use layersmith.Prelude.{
  ℕ, ◌+◌, Bool, true, false, Option, none, some, List, [], ◌∷◌, ◌++◌, ◌&&◌, ◌||◌, not, map, ltb,
  ◌==◌, nat_eq, list_eq, option_eq, if◌then◌else◌, length, concat,
}
use layersmith.Prelude.Result.{Result, ok, err, require, ◌>>=◌, ◌>>◌}
use layersmith.Prelude.Text.{Str, text}
use layersmith.Prelude.Map.{Map}
use layersmith.Prelude.Pattern.{is_alnum, one_of, headed, anchored}
use layersmith.Split.Plan.{checksum_file_names}
use layersmith.Split.Stream.{Bytes, file_chunks}
use layersmith.Split.Hash.{Part, HashError, Hashed, hash_parts}

-- A file on disk: its bytes and its modification time. `stat` of a missing file is an OSError.
pub record File : Type 0 where
  pub bytes : Bytes
  pub mtime_ns : ℕ

abbrev pub Disk : Type 0
Disk = Map Str File

-- `_file_identity`
pub record Identity : Type 0 where
  pub size : ℕ
  pub mtime_ns : ℕ

abbrev pub file_identity : File → Identity
file_identity f = record { size = length f.bytes; mtime_ns = f.mtime_ns }

abbrev pub same_identity : Identity → Identity → Bool
same_identity a b = a.size == b.size && a.mtime_ns == b.mtime_ns

pub record Manifest : Type 0 where
  pub archive : Str
  pub archive_size : ℕ
  pub archive_mtime_ns : ℕ
  pub archive_sha256 : Str
  pub part_size : ℕ
  pub parts : List Part
  pub created_at : Str
  pub image_ref : Option Str
  pub host_install : Option Str

-- The columns of a build that a split reads and writes. `openshift` says that `openshift_recipe`
-- of the row's specification gives a recipe.
pub record Build : Type 0 where
  pub status : Str
  pub export_path : Option Str
  pub export_size : Option ℕ
  pub export_sha256 : Option Str
  pub export_parts : Option Manifest
  pub image_ref : Option Str
  pub openshift : Bool

-- `Path(p).name` of a path that `str(Path)` wrote: what follows its last slash.
unfoldable name_onto : Str → Str → Str
name_onto name [] = name
name_onto name (c ∷ s) = name_onto (if c == 47 then [] else name ++ (c ∷ [])) s

unfoldable pub base_name : Str → Str
unfolding name_onto
base_name path = name_onto [] path

-- `x or ""`, and the truth of an optional text
abbrev pub or_empty : Option Str → Str
or_empty none = []
or_empty (some s) = s

abbrev pub is_set : Option Str → Bool
is_set none = false
is_set (some s) = not (s == [])

pub data SplitError : Type 0 where
  build_not_found nothing_to_split not_on_disk : SplitError
  unexpected_name : Str → SplitError
  -- `FileNotFoundError` from `stat` or `open`
  os_error : SplitError
  -- "The archive is shorter than it was a moment ago"
  shorter : SplitError
  hash_error : HashError → SplitError
  -- "The archive changed while it was being split"
  changed : SplitError
  -- recorded and found checksum
  wrong_checksum : Str → Str → SplitError

-- SAFE_NAME
unfoldable is_safe_name : Str → Bool
unfolding is_alnum one_of headed anchored text
is_safe_name = anchored (headed is_alnum (λ c. is_alnum c || one_of (text "._+-") c) 200)

unfoldable pub archive_name : Build → Result SplitError Str
unfolding is_safe_name base_name
archive_name b =
    let name = base_name (or_empty b.export_path) in
    if is_safe_name name then ok name else err (unexpected_name name)

-- `_host_install`
unfoldable pub host_install_of : Build → Option Str
unfolding text
host_install_of b = if b.openshift then some (text "openshift-admin") else none

-- The test that a stored manifest still describes the archive on disk
abbrev pub is_current : Build → Manifest → File → Bool
is_current b m f =
    (m.archive == base_name (or_empty b.export_path) && some m.archive_sha256 == b.export_sha256)
    && (m.archive_size == length f.bytes && m.archive_mtime_ns == f.mtime_ns)

abbrev pub check_manifest : Build → Manifest → Option File → Option Manifest
check_manifest b m none = none
check_manifest b m (some f) =
    if is_current b m f then some (record m { host_install = host_install_of b }) else none

abbrev pub stored_manifest : Disk → Build → Option Manifest → Option Manifest
stored_manifest disk b none = none
stored_manifest disk b (some m) =
    if is_set b.export_path then check_manifest b m (disk (or_empty b.export_path)) else none

unfoldable pub current_manifest : Disk → Build → Option Manifest
unfolding base_name host_install_of
current_manifest disk b = stored_manifest disk b b.export_parts

-- `f"{sha256}  {name}\n"`
abbrev sum_line : Str → Str → Str
sum_line sum name = sum ++ (32 ∷ 32 ∷ (name ++ (10 ∷ [])))

unfoldable archive_checksum : Manifest → Str
archive_checksum m = sum_line m.archive_sha256 m.archive

unfoldable parts_checksums : Manifest → Str
parts_checksums m = concat (map (λ (p : Part). sum_line p.sha256 p.name) m.parts)

pub data Kind : Type 0 where
  part script checksum : Kind

pub record Download : Type 0 where
  pub name : Str
  pub kind : Kind
  pub size : ℕ
  pub sha256 : Option Str

-- `downloads(manifest)`. The sizes count bytes; names and checksums are ASCII. The length of the
-- assemble script is the parameter `script_size`.
unfoldable pub downloads : (Manifest → ℕ) → Manifest → List Download
unfolding text archive_checksum parts_checksums checksum_file_names
downloads script_size m =
    let (tar_sums, part_sums) = checksum_file_names m.archive in
    map (λ (p : Part). record { name = p.name; kind = part; size = p.size; sha256 = some p.sha256 })
      m.parts
    ++ (record {
      name = text "assemble-image.sh";
      kind = script;
      size = script_size m;
      sha256 = none;
    }
        ∷ record {
          name = tar_sums;
          kind = checksum;
          size = length (archive_checksum m);
          sha256 = none;
        }
        ∷ record {
          name = part_sums;
          kind = checksum;
          size = length (parts_checksums m);
          sha256 = none;
        }
        ∷ [])

-- What `compute` looks at: the `stat` before, the bytes that the open file gives, and the `stat`
-- after. Another program may write to the file between them.
pub record Observed : Type 0 where
  pub before : Option File
  pub opened : Option File
  pub after : Option File

module _ (sha256 : Bytes → Str) where
  abbrev pub conclude :
      Str → Option Str → ℕ → Str → Identity → Hashed → Option File → Result SplitError Manifest
  conclude archive expected size now before h none = err os_error
  conclude archive expected size now before h (some f) =
      if same_identity (file_identity f) before
      then (if is_set expected && not (h.checksum == or_empty expected)
          then err (wrong_checksum (or_empty expected) h.checksum)
          else ok (record {
            archive = archive;
            archive_size = before.size;
            archive_mtime_ns = before.mtime_ns;
            archive_sha256 = h.checksum;
            part_size = size;
            parts = h.parts;
            created_at = now;
            image_ref = none;
            host_install = none;
          }))
      else err changed

  abbrev pub after_hash :
      Str
      → Option Str
      → ℕ
      → Str
      → Identity
      → Option File
      → Option (Result HashError Hashed)
      → Option (Result SplitError Manifest)
  after_hash archive expected size now before after none = none
  after_hash archive expected size now before after (some (err e)) = some (err (hash_error e))
  after_hash archive expected size now before after (some (ok h)) =
      some (conclude archive expected size now before h after)

  -- `SplitService.compute`. `none` says that the hashing loop did not end; each chunk has as many
  -- rounds as bytes. A generator that raises ends the loop over the chunks.
  abbrev pub compute_on :
      Str
      → Option Str
      → ℕ
      → Str
      → Option File
      → Option File
      → Option File
      → Option (Result SplitError Manifest)
  compute_on archive expected size now none opened after = some (err os_error)
  compute_on archive expected size now (some b) none after = some (err os_error)
  compute_on archive expected size now (some b) (some o) after =
      let total = length b.bytes in
      let read = file_chunks o.bytes total in
      if read.raised
      then some (err shorter)
      else after_hash archive expected size now (file_identity b) after
          (hash_parts sha256 archive (λ c. length c) read.chunks total size)

  unfoldable pub compute :
      Str → Option Str → ℕ → Str → Observed → Option (Result SplitError Manifest)
  compute archive expected size now o =
      compute_on archive expected size now o.before o.opened o.after
