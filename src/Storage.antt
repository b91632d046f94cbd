-- ===== src/Storage.antt =====
-- backend/layersmith/services/storage.py: `validate` and `save`, which move the data directories at run time.
-- `normalise` is `Path(str(value).strip()).expanduser()`, as a text, and the host says which directories it can
-- make and write to, the same ones throughout a `save`. What `save` does after its commit, `apply_overrides` and
-- `prepare`, is not modelled.
pub mod Remembered
mod Tests
use layersmith.Prelude.{
  ℕ, ◌-◌, Bool, true, false, Option, none, some, List, [], ◌∷◌, ◌++◌, ◌&&◌, ◌||◌, not, ◌==◌, nat_eq,
  list_eq, contains, if◌then◌else◌, length, drop,
}
use layersmith.Prelude.Result.{Result, ok, err}
use layersmith.Prelude.Text.{Str, text, starts_with}
use layersmith.Prelude.Map.{Map, put}

pub data StorageError : Type 0 where
  not_movable not_absolute has_dots system_directory cannot_create not_writable set_by_environment :
      Str → StorageError

pub record Host : Type 0 where
  pub normalise : Str → Str
  pub parts : Str → List Str
  pub can_create : Str → Bool
  pub can_write : Str → Bool

-- MOVABLE_PATHS of config.py
unfoldable movable_paths : List Str
unfolding text
movable_paths =
    text "image_dir"
    ∷ text "build_dir"
    ∷ text "upload_dir"
    ∷ text "log_dir"
    ∷ text "tmp_dir"
    ∷ text "scan_dir"
    ∷ text "model_dir"
    ∷ []

-- REFUSED_PREFIXES
unfoldable refused_prefixes : List Str
unfolding text
refused_prefixes =
    text "/proc"
    ∷ text "/sys"
    ∷ text "/dev"
    ∷ text "/boot"
    ∷ text "/etc"
    ∷ text "/bin"
    ∷ text "/sbin"
    ∷ text "/lib"
    ∷ text "/usr"
    ∷ []

abbrev any_prefix : Str → List Str → Bool
any_prefix s [] = false
any_prefix s (p ∷ ps) = starts_with s p || any_prefix s ps

-- `validate(field, value)`
unfoldable pub validate : Host → Str → Str → Result StorageError Str
unfolding movable_paths refused_prefixes text starts_with
validate host field value =
    let path = host.normalise value in
    if not (contains movable_paths field)
    then err (not_movable field)
    else if not (starts_with path (text "/"))
    then err (not_absolute value)
    else if contains (host.parts path) (text "..")
    then err (has_dots value)
    else if path == text "/" || any_prefix path refused_prefixes
    then err (system_directory path)
    else if not (host.can_create path)
    then err (cannot_create path)
    else if not (host.can_write path)
    then err (not_writable path)
    else ok path

-- The stored overrides, with `previous_image_dirs` apart
pub record Stored : Type 0 where
  pub paths : Map Str Str
  pub previous : List Str

-- "Remember where archives already written can still be found."
abbrev pub remember : Str → Str → Str → List Str → List Str
remember image_dir field path previous =
    if (field == text "image_dir" && not (image_dir == path)) && not (contains previous image_dir)
    then previous ++ (image_dir ∷ [])
    else previous

abbrev pub save_path : Str → Str → Stored → Result StorageError Str → Result StorageError Stored
save_path image_dir field s (err e) = err e
save_path image_dir field s (ok path) =
    ok (record {
      paths = put s.paths field path;
      previous = remember image_dir field path s.previous;
    })

abbrev pub save_then :
    (Stored → Result StorageError Stored) → Result StorageError Stored → Result StorageError Stored
save_then k (err e) = err e
save_then k (ok s) = k s

-- `for field, value in (requested or {}).items():`, with the current `image_dir`
unfoldable pub save_each :
    Host → List Str → Str → List (Str × Str) → Stored → Result StorageError Stored
unfolding validate text
save_each host pinned image_dir [] s = ok s
save_each host pinned image_dir ((field, value) ∷ requested) s =
    if contains pinned field
    then err (set_by_environment field)
    else save_then (save_each host pinned image_dir requested)
        (save_path image_dir field s (validate host field value))

-- `previous[-10:]`
abbrev last_ten : List Str → List Str
last_ten previous = drop (length previous - 10) previous

abbrev pub keep_ten : Result StorageError Stored → Result StorageError Stored
keep_ten (err e) = err e
keep_ten (ok s) = ok (record s { previous = last_ten s.previous })

-- `save(session, settings, requested)`: what is stored in the end
unfoldable pub save : Host → List Str → Str → List (Str × Str) → Stored → Result StorageError Stored
unfolding save_each
save host pinned image_dir requested s = keep_ten (save_each host pinned image_dir requested s)
