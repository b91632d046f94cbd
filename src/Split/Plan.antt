-- ===== src/Split/Plan.antt =====
-- `part_size`, `plan`, `part_name` and the names of the checksum files in services/splitting.py.
-- A size and an offset are non-negative in Python too: they come from `stat` and the settings.
pub mod Tiling
use layersmith.Prelude.{
  ℕ, zero, suc, ◌+◌, ◌-◌, min, max, Bool, List, [], ◌∷◌, ◌++◌, map, Option, none, some, ltb, ◌==◌,
  nat_eq, if◌then◌else◌, length, take, drop,
}
use layersmith.Prelude.Result.{Result, ok, err}
use layersmith.Prelude.Text.{Str, text, show, zero_pad, ends_with}

-- PART_SIZE and MIN_PART_SIZE
abbrev part_size_max : ℕ
part_size_max = 900_000_000

abbrev min_part_size : ℕ
min_part_size = 1_000_000

-- `part_size(settings)`: `configured` is `split_part_bytes`, where 0 means that none is set.
unfoldable pub part_size : ℕ → ℕ
part_size configured =
    max min_part_size (min part_size_max (if configured == 0 then part_size_max else configured))

-- (offset, length) of a part
pub record Range : Type 0 where
  pub offset : ℕ
  pub size : ℕ

-- `range(offset, total, size)`, with the number of rounds bounded by `fuel`.
unfoldable pub offsets : ℕ → ℕ → ℕ → ℕ → List ℕ
offsets zero offset total size = []
offsets (suc fuel) offset total size =
    let rest = offsets fuel (offset + size) total size in
    if ltb offset total then offset ∷ rest else []

-- `(offset, min(size, total - offset))`
abbrev pub range_at : ℕ → ℕ → ℕ → Range
range_at total size offset = record { offset = offset; size = min size (total - offset) }

-- `range` with a step of 0 is a ValueError.
pub data PlanError : Type 0 where
  value_error : PlanError

-- The step is at least 1, so `total` rounds are enough.
unfoldable pub plan : ℕ → ℕ → Result PlanError (List Range)
unfolding offsets
plan total size =
    if total == 0
    then ok (record { offset = 0; size = 0 } ∷ [])
    else if size == 0
    then err value_error
    else ok (map (range_at total size) (offsets total 0 total size))

-- `f"{archive}.part-{index:0{max(3, len(str(count - 1)))}d}"`
unfoldable pub part_name : Str → ℕ → ℕ → Str
unfolding text show zero_pad
part_name archive index count =
    archive ++ (text ".part-" ++ zero_pad (max 3 (length (show (count - 1)))) index)

-- `stem(archive)`: the name without a last `.tar`
unfoldable stem : Str → Str
unfolding text ends_with
stem archive =
    if ends_with archive (text ".tar") then take (length archive - 4) archive else archive

unfoldable pub checksum_file_names : Str → Str × Str
unfolding text stem
checksum_file_names archive = (archive ++ text ".sha256", stem archive ++ text ".parts.sha256")
