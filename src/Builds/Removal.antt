-- ===== src/Builds/Removal.antt =====
-- `recover_interrupted` and `delete` of BuildService, with `extra_export_paths`, in services/builds.py.
-- A path is the text that `str(Path)` writes. `resolve` gives the parts of the path behind the links;
-- it is a parameter. The disk is a table by the texts of paths: a file that two texts reach through links is
-- two entries. Removing the context directory succeeds, and the runtime's `remove` raises nothing. A row's
-- times are not modelled.
pub mod Keeps
pub mod Removes
pub mod Recovery
use layersmith.Prelude.{
  ℕ, zero, suc, ◌+◌, Bool, true, false, Option, none, some, List, [], ◌∷◌, ◌++◌, ◌&&◌, ◌||◌, not,
  map, ◌==◌, nat_eq, list_eq, contains, if◌then◌else◌,
}
use layersmith.Prelude.Result.{Result, ok, err}
use layersmith.Prelude.Text.{Str, text}
use layersmith.Prelude.Map.{Map, erase}

-- The columns of a build that are read here. `exports` are the paths in `aiml["exports"]`.
pub record Build : Type 0 where
  pub id : Str
  pub number : ℕ
  pub status : Str
  pub error : Option Str
  pub export_path : Option Str
  pub airgap_path : Option Str
  pub exports : List (Option Str)
  pub image_ref : Option Str

-- A file: its size, and the error that `unlink` raises, if it does
pub record File : Type 0 where
  pub size : ℕ
  pub failure : Option Str

pub record Store : Type 0 where
  pub builds : List Build
  pub disk : Map Str File
  pub logs : Map Str Str
  pub contexts : Map Str Str

-- ACTIVE_STATES of models.py
unfoldable pub active_states : List Str
unfolding text
active_states =
    text "queued"
    ∷ text "preparing"
    ∷ text "pulling"
    ∷ text "building"
    ∷ text "testing"
    ∷ text "exporting"
    ∷ []

abbrev pub is_active : Build → Bool
is_active b = contains active_states b.status

-- The error that `recover_interrupted` records
abbrev pub interrupted : Str
interrupted =
    text "Interrupted: LayerSmith stopped while this build was running. Start the build again."

abbrev pub fail_interrupted : Build → Build
fail_interrupted b =
    if is_active b then record b { status = text "failed"; error = some interrupted } else b

abbrev count_active : List Build → ℕ
count_active [] = 0
count_active (b ∷ bs) = (if is_active b then 1 else 0) + count_active bs

-- `recover_interrupted()`
unfoldable pub recover_interrupted : Store → Store × ℕ
unfolding active_states text
recover_interrupted s = (record s { builds = map fail_interrupted s.builds }, count_active s.builds)

-- `[x for x in xs if x]`
abbrev pub present : List (Option Str) → List Str
present [] = []
present (none ∷ xs) = present xs
present (some x ∷ xs) = let rest = present xs in if x == [] then rest else x ∷ rest

-- The export, the bundle, and `extra_export_paths(build)`
abbrev pub paths_of : Build → List Str
paths_of b = present (b.export_path ∷ b.airgap_path ∷ b.exports)

-- `dict.fromkeys(xs)`, from the entries that were met before
abbrev pub unique_onto : List Str → List Str → List Str
unique_onto seen [] = []
unique_onto seen (x ∷ xs) =
    let old = unique_onto seen xs in
    let new = x ∷ unique_onto (x ∷ seen) xs in if contains seen x then old else new

abbrev pub others_of : Str → List Build → List Build
others_of id [] = []
others_of id (b ∷ bs) = let rest = others_of id bs in if b.id == id then rest else b ∷ rest

abbrev pub shared_paths : List Build → List Str
shared_paths [] = []
shared_paths (b ∷ bs) = paths_of b ++ shared_paths bs

abbrev pub shared_refs : List Build → List Str
shared_refs [] = []
shared_refs (b ∷ bs) = present (b.image_ref ∷ []) ++ shared_refs bs

pub data Note : Type 0 where
  -- "another build uses the same file", "it is outside the image directory", "Could not remove"
  kept_shared kept_outside : Str → Note
  not_removed : Str → Str → Note
  -- "another build has the same name and version"
  kept_image : Str → Note

-- The variables of the loop over the paths
pub record Removal : Type 0 where
  pub disk : Map Str File
  pub freed : ℕ
  pub notes : List Note

-- `path.is_relative_to(root)`, over the parts of the two paths
abbrev pub is_relative_to : List Str → List Str → Bool
is_relative_to path [] = true
is_relative_to [] (r ∷ root) = false
is_relative_to (p ∷ path) (r ∷ root) = p == r && is_relative_to path root

abbrev pub any_root : List Str → List (List Str) → Bool
any_root path [] = false
any_root path (root ∷ roots) = is_relative_to path root || any_root path roots

abbrev note : Removal → Note → Removal
note r n = record r { notes = r.notes ++ (n ∷ []) }

-- `path.unlink()` of a file of this size, with the error that it raises
abbrev pub unlink_file : Str → Removal → ℕ → Option Str → Removal
unlink_file path r size none = record r { disk = erase r.disk path; freed = r.freed + size }
unlink_file path r size (some e) = note r (not_removed path e)

-- `path.stat()` and `path.unlink()`; a missing file is passed over.
abbrev pub unlink : Str → Removal → Option File → Removal
unlink path r none = r
unlink path r (some f) = unlink_file path r f.size f.failure

-- What `delete` returns, with the image that it has told the backend to remove
pub record Deleted : Type 0 where
  pub number : ℕ
  pub freed_bytes : ℕ
  pub image : Option Str
  pub notes : List Note

pub data DeleteError : Type 0 where
  not_found still_running : DeleteError

abbrev pub find : Str → List Build → Option Build
find id [] = none
find id (b ∷ bs) = let rest = find id bs in if b.id == id then some b else rest

-- `if remove_image and build.image_ref:`, for the image's name if it is set
abbrev pub remove_image : List Str → List Str → List Note → Option Str × List Note
remove_image refs [] notes = (none, notes)
remove_image refs (ref ∷ more) notes =
    if contains refs ref then (none, notes ++ (kept_image ref ∷ [])) else (some ref, notes)

module _ (resolve : Str → List Str) where
  -- One path of the build
  abbrev pub remove_path : List (List Str) → List Str → Removal → Str → Removal
  remove_path roots shared r path =
      if contains shared path
      then note r (kept_shared path)
      else if not (any_root (resolve path) roots)
      then note r (kept_outside path)
      else unlink path r (r.disk path)

  unfoldable pub remove_paths : List (List Str) → List Str → Removal → List Str → Removal
  remove_paths roots shared r [] = r
  remove_paths roots shared r (p ∷ ps) = remove_paths roots shared (remove_path roots shared r p) ps

  abbrev pub delete_found : Store → List Str → Bool → Build → Result DeleteError (Store × Deleted)
  delete_found s allowed_dirs with_image b =
      let others = others_of b.id s.builds in
      let r =
        remove_paths (map resolve allowed_dirs) (shared_paths others)
          (record { disk = s.disk; freed = 0; notes = [] }) (unique_onto [] (paths_of b)) in
      let (image, notes) =
        remove_image (shared_refs others) (if with_image then present (b.image_ref ∷ []) else [])
          r.notes in
      if is_active b
      then err still_running
      else ok (
        record {
          builds = others;
          disk = r.disk;
          logs = erase s.logs b.id;
          contexts = erase s.contexts b.id;
        },
        record { number = b.number; freed_bytes = r.freed; image = image; notes = notes },
      )

  abbrev delete_on : Store → List Str → Bool → Option Build → Result DeleteError (Store × Deleted)
  delete_on s allowed_dirs with_image none = err not_found
  delete_on s allowed_dirs with_image (some b) = delete_found s allowed_dirs with_image b

  -- `delete(build_id, allowed_dirs, remove_image)`
  unfoldable pub delete : Store → Str → List Str → Bool → Result DeleteError (Store × Deleted)
  unfolding active_states remove_paths text
  delete s build_id allowed_dirs with_image =
      delete_on s allowed_dirs with_image (find build_id s.builds)
