-- ===== src/Split/Script.antt =====
-- The script assemble-image.sh that `assemble_script` in services/splitting.py generates, with the
-- manifest's values filled in: it restores the archive from its parts on the receiving host.
-- The directory is a table of files. The partial archive is not in it: the script removes that file
-- whenever it exits. Loading and installing the image is left to the container runtime.
pub mod Safety
pub mod Delivery
mod Tests
use layersmith.Prelude.{
  ℕ, ◌*◌, Bool, true, false, Option, none, some, List, [], ◌∷◌, ◌++◌, ◌&&◌, ◌||◌, not, ltb, ◌==◌,
  nat_eq, list_eq, if◌then◌else◌, length,
}
use layersmith.Prelude.Text.{Str}
use layersmith.Prelude.Map.{Map, put, erase}
use layersmith.Split.Stream.{Bytes}
use layersmith.Split.Hash.{Part}
use layersmith.Split.Manifest.{Manifest}

abbrev pub Directory : Type 0
Directory = Map Str Bytes

-- What the host does: the KiB that `df` reports as free, if it says, and whether the writes of the
-- partial archive and its renaming succeed.
pub record Host : Type 0 where
  pub free : Option ℕ
  pub writes : Bool
  pub renames : Bool

-- A container runtime, and whether its `load` succeeds
pub record Options : Type 0 where
  pub force : Bool
  pub remove_parts : Bool
  pub load : Bool
  pub runtime : Option Bool

-- The exit status and the directory that the script leaves
pub record Outcome : Type 0 where
  pub code : ℕ
  pub dir : Directory

abbrev pub exit : ℕ → Directory → Outcome
exit code dir = record { code = code; dir = dir }

module _ (sha256 : Bytes → Str) where
  -- A part that is missing or has another size
  abbrev is_incomplete : Part → Option Bytes → Bool
  is_incomplete p none = true
  is_incomplete p (some b) = not (length b == p.size)

  -- A part with another checksum; a file that cannot be read has none.
  abbrev is_corrupt : Part → Option Bytes → Bool
  is_corrupt p none = true
  is_corrupt p (some b) = not (sha256 b == p.sha256)

  unfoldable pub any_incomplete : Directory → List Part → Bool
  any_incomplete dir [] = false
  any_incomplete dir (p ∷ ps) = is_incomplete p (dir p.name) || any_incomplete dir ps

  unfoldable pub any_corrupt : Directory → List Part → Bool
  any_corrupt dir [] = false
  any_corrupt dir (p ∷ ps) = is_corrupt p (dir p.name) || any_corrupt dir ps

  abbrev bytes_or_empty : Option Bytes → Bytes
  bytes_or_empty none = []
  bytes_or_empty (some b) = b

  -- `cat -- "${PART_NAMES[@]}"`
  unfoldable pub cat : Directory → List Part → Bytes
  cat dir [] = []
  cat dir (p ∷ ps) = bytes_or_empty (dir p.name) ++ cat dir ps

  -- `[ -n "$free" ] && [ $((free * 1024)) -lt "$ARCHIVE_SIZE" ]`
  abbrev pub too_full : Option ℕ → ℕ → Bool
  too_full none size = false
  too_full (some free) size = ltb (free * 1024) size

  abbrev pub is_original : Manifest → Bytes → Bool
  is_original m b = sha256 b == m.archive_sha256 && length b == m.archive_size

  -- The function `restore` of the script; 0 says that it returned.
  unfoldable pub restore : Manifest → Host → Directory → Outcome
  unfolding any_incomplete any_corrupt cat
  restore m host dir =
      let joined = cat dir m.parts in
      if any_incomplete dir m.parts
      then exit 2 dir
      else if any_corrupt dir m.parts
      then exit 3 dir
      else if too_full host.free m.archive_size
      then exit 4 dir
      else if not host.writes
      then exit 4 dir
      else if not (is_original m joined)
      then exit 3 dir
      else if not host.renames
      then exit 4 dir
      else exit 0 (put dir m.archive joined)

  -- `if [ -e "$ARCHIVE" ]; then … else restore; fi`
  abbrev pub obtain : Manifest → Host → Options → Directory → Option Bytes → Outcome
  obtain m host o dir none = restore m host dir
  obtain m host o dir (some b) =
      if is_original m b then exit 0 dir else if o.force then restore m host dir else exit 5 dir

  unfoldable pub remove_all : Directory → List Part → Directory
  remove_all dir [] = dir
  remove_all dir (p ∷ ps) = remove_all (erase dir p.name) ps

  abbrev pub load_code : Option Bool → ℕ
  load_code none = 6
  load_code (some loads) = if loads then 0 else 6

  -- What follows a restored archive: `--remove-parts`, then `--load`
  abbrev pub after_restore : Manifest → Options → Outcome → Outcome
  after_restore m o r =
      let dir = if o.remove_parts then remove_all r.dir m.parts else r.dir in
      if r.code == 0 then exit (if o.load then load_code o.runtime else 0) dir else r

  unfoldable pub assemble : Manifest → Host → Options → Directory → Outcome
  unfolding restore remove_all
  assemble m host o dir = after_restore m o (obtain m host o dir (dir m.archive))
