-- ===== src/Models/Service.antt =====
-- The state of ModelService in services/llm_models.py, `_set`, `_verify`, `compute_parts` and `delete`. A folder
-- holds plain files, a folder in it is not modelled, and its path is a text. Times and the progress numbers are
-- not modelled.
pub mod Rows
pub mod Parts
pub mod Serving
pub mod Run
pub mod Request
use layersmith.Prelude.{
  ℕ, ◌+◌, Bool, true, false, not, ◌&&◌, ◌||◌, Option, none, some, List, [], ◌∷◌, ◌++◌, map, ◌==◌,
  nat_eq, list_eq, contains, length, drop, if◌then◌else◌,
}
use layersmith.Prelude.Result.{Result, ok, err, map_ok, ◌>>=◌}
use layersmith.Prelude.Text.{Str, text, show, starts_with}
use layersmith.Prelude.Map.{Map, put, erase}
use layersmith.Split.Plan.{part_size}
use layersmith.Split.Stream.{Bytes}
use layersmith.Split.Hash.{Part, Hashed, HashError, hash_parts}
use layersmith.Split.Manifest.{File, Disk, is_set, or_empty}
use layersmith.Vtar.{Info, Layout, Entry, layout, read}
use layersmith.Builds.Removal.{is_relative_to}
use layersmith.Models.Files.{ModelFile}
use layersmith.Models.Download.{
  Stop, model_error, os_error, split_error, wrong_sha256, wrong_blob_id,
}

-- The split that is stored with a model
pub record ModelParts : Type 0 where
  pub archive : Str
  pub archive_size : ℕ
  pub archive_sha256 : Str
  pub part_size : ℕ
  pub parts : List Part
  pub identity : List (Str × ℕ)

-- Why a model is failed: the exception that ended its run
pub record LlmModel : Type 0 where
  pub id : Str
  pub name : Str
  pub repo_id : Str
  pub revision : Option Str
  pub requested_revision : Str
  pub catalog_key : Option Str
  pub status : Str
  pub error : Option Stop
  pub path : Option Str
  pub files : List ModelFile
  pub parts : Option ModelParts
  pub total_bytes : ℕ
  pub done_bytes : ℕ
  pub license : Option Str

-- The rows, the folders by their paths, `_queue` and `_cancel`
pub record Models : Type 0 where
  pub rows : List LlmModel
  pub dirs : Map Str Disk
  pub queue : List Str
  pub cancel : List Str

-- `session.get(LlmModel, model_id)`
unfoldable pub get : Str → List LlmModel → Option LlmModel
get id [] = none
get id (m ∷ ms) = let rest = get id ms in if m.id == id then some m else rest

abbrev pub change_rows : Str → (LlmModel → LlmModel) → List LlmModel → List LlmModel
change_rows id f [] = []
change_rows id f (m ∷ ms) =
    let rest = change_rows id f ms in if m.id == id then f m ∷ rest else m ∷ rest

-- `_set(model_id, …)`: a row that is gone is passed over.
abbrev pub set : Str → (LlmModel → LlmModel) → Models → Models
set id f s = record s { rows = change_rows id f s.rows }

abbrev pub sum_of : List ModelFile → ℕ
sum_of [] = 0
sum_of (f ∷ fs) = f.size + sum_of fs

-- `"queued", "downloading", "verifying"`
unfoldable pub active : List Str
unfolding text
active = text "queued" ∷ text "downloading" ∷ text "verifying" ∷ []

-- `f"{model_dir}/{name}"` of two parts of a path
abbrev pub in_dir : Str → Str → Str
in_dir dir name = dir ++ (47 ∷ name)

-- `staging_dir(model_id)`
unfoldable pub staging_dir : Str → Str → Str
unfolding text
staging_dir model_dir id = in_dir model_dir (text ".download-" ++ id)

-- `archive_name(model_name)`
unfoldable pub archive_name : Str → Str
unfolding text
archive_name name = name ++ text ".model.tar"

-- `_git_blob_id(path, size)`, for a file of these bytes
unfoldable pub git_blob_id : (Bytes → Str) → Bytes → ℕ → Str
unfolding text show
git_blob_id sha1 bytes size = sha1 (text "blob " ++ (show size ++ (0 ∷ bytes)))

module _ (sha256 sha1 : Bytes → Str) where
  -- Whether the file is what Hugging Face says of it, by its checksum or else its Git object id
  abbrev pub mismatch : ModelFile → Bytes → Bool × Bool
  mismatch f bytes =
      if is_set f.expected_sha256
      then (not (sha256 bytes == or_empty f.expected_sha256), false)
      else (false, is_set f.blob_id && not (git_blob_id sha1 bytes f.size == or_empty f.blob_id))

  abbrev pub verified :
      ModelFile → Option File → Bool × Bool → Bytes → Result Stop Str × Option File
  verified f kept (true, blob) bytes = (err (model_error (wrong_sha256 f.name)), none)
  verified f kept (false, true) bytes = (err (model_error (wrong_blob_id f.name)), none)
  verified f kept (false, false) bytes = (ok (sha256 bytes), kept)

  -- `_verify(path, entry)`, with the file afterwards
  unfoldable pub verify : ModelFile → Option File → Result Stop Str × Option File
  unfolding git_blob_id
  verify f none = (err (os_error f.name), none)
  verify f (some file) = verified f (some file) (mismatch f file.bytes) file.bytes

-- `path.unlink()`, or the file as it is
abbrev pub keep_file : Disk → Str → Option File → Disk
keep_file disk name none = erase disk name
keep_file disk name (some f) = put disk name f

-- The files of a folder by their paths
abbrev pub bytes_of : Option File → Option Bytes
bytes_of none = none
bytes_of (some f) = some f.bytes

unfoldable pub by_path : Str → Disk → Map Str Bytes
unfolding starts_with
by_path folder disk path =
    let start = folder ++ (47 ∷ []) in
    if starts_with path start then bytes_of (disk (drop (length start) path)) else none

-- `{"name", "size", "sha256"}`
abbrev pub clean : ModelFile → ModelFile
clean f = record f { expected_sha256 = none; blob_id = none }

abbrev pub entry_of : ModelFile → Entry
entry_of f = record { name = f.name; size = f.size }

-- `(folder / f["name"]).stat().st_mtime_ns`
abbrev pub mtime_of : ModelFile → Option File → Result Stop (Str × ℕ)
mtime_of f none = err (os_error f.name)
mtime_of f (some file) = ok (f.name, file.mtime_ns)

abbrev pub identity_of : Disk → ModelFile → Result Stop (Str × ℕ)
identity_of disk f = mtime_of f (disk f.name)

-- TAR_MTIME
abbrev pub tar_mtime : ℕ
tar_mtime = 1_704_067_200

module _ (sha256 : Bytes → Str) (header : Info → Bytes) (configured : ℕ) where
  abbrev pub layout_of : Str → Str → List ModelFile → Layout
  layout_of folder name files = layout header folder name tar_mtime (map entry_of files)

  abbrev parts_of : Str → Layout → Hashed → List (Str × ℕ) → ModelParts
  parts_of archive lay h identity = record {
    archive = archive;
    archive_size = lay.size;
    archive_sha256 = h.checksum;
    part_size = part_size configured;
    parts = h.parts;
    identity = identity;
  }

  -- A loop that has not ended gives no parts; it has a round for each byte.
  abbrev pub with_identity :
      Str
      → Layout
      → Option (Result HashError Hashed)
      → Result Stop (List (Str × ℕ))
      → Result Stop ModelParts
  with_identity archive lay none identity = err (model_error split_error)
  with_identity archive lay (some (err e)) identity = err (model_error split_error)
  with_identity archive lay (some (ok h)) (err stop) = err stop
  with_identity archive lay (some (ok h)) (ok identity) = ok (parts_of archive lay h identity)

  -- `compute_parts(folder, name, files)`
  unfoldable pub compute_parts : Str → Disk → Str → List ModelFile → Result Stop ModelParts
  unfolding hash_parts read layout by_path archive_name
  compute_parts folder disk name files =
      let lay = layout_of folder name files in
      let chunks = read (by_path folder disk) lay 0 none in
      let archive = archive_name name in
      if chunks.raised
      then err (os_error folder)
      else with_identity archive lay
          (hash_parts sha256 archive (λ c. length c) chunks.chunks lay.size (part_size configured))
          (map_ok (identity_of disk) files)

pub data NotFound : Type 0 where
  -- "Model not found"
  not_found : NotFound

-- `session.delete(model)`
abbrev pub without_row : Str → List LlmModel → List LlmModel
without_row id [] = []
without_row id (m ∷ ms) = let rest = without_row id ms in if m.id == id then rest else m ∷ rest

-- `_cancel.add(model_id)` and `_cancel.discard(model_id)`
abbrev pub add : Str → List Str → List Str
add x xs = if contains xs x then xs else x ∷ xs

abbrev pub discard : Str → List Str → List Str
discard x [] = []
discard x (y ∷ ys) = let rest = discard x ys in if x == y then rest else y ∷ rest

-- `rmtree` is what `shutil.rmtree(folder, ignore_errors=True)` leaves of a folder.
module _ (rmtree : Str → Disk → Option Disk) (resolve : Str → List Str) (model_dir : Str) where
  -- `folder.resolve().is_relative_to(root) and folder.resolve() != root`
  abbrev pub is_inside : Str → Bool
  is_inside folder =
      is_relative_to (resolve folder) (resolve model_dir)
      && not (resolve folder == resolve model_dir)

  abbrev pub left : Str → Option Disk → Option Disk
  left folder none = none
  left folder (some disk) = rmtree folder disk

  -- `shutil.rmtree(folder, ignore_errors=True)` of a folder inside the model directory
  abbrev pub remove_folder : Option Str → Map Str Disk → Map Str Disk
  remove_folder none dirs = dirs
  remove_folder (some []) dirs = dirs
  remove_folder (some (c ∷ folder)) dirs =
      if is_inside (c ∷ folder)
      then (λ path. if path == c ∷ folder then left (c ∷ folder) (dirs (c ∷ folder)) else dirs path)
      else dirs

  abbrev pub delete_row : Str → Models → Option LlmModel → Result NotFound (ℕ × Models)
  delete_row id s none = err not_found
  delete_row id s (some m) = ok (
    if m.status == text "ready" then sum_of m.files else 0,
    record s {
      rows = without_row id s.rows;
      cancel = if contains active m.status then add id s.cancel else s.cancel;
      dirs = remove_folder (some (staging_dir model_dir id)) (remove_folder m.path s.dirs);
    },
  )

  -- `delete(model_id)`, with the bytes that it says are freed
  unfoldable pub delete : Str → Models → Result NotFound (ℕ × Models)
  unfolding get text active staging_dir
  delete id s = delete_row id s (get id s.rows)
