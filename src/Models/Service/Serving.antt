-- ===== src/Models/Service/Serving.antt =====
-- `current_parts` and `read_part` of ModelService in services/llm_models.py: the parts of a model that is ready,
-- if its files have the sizes and times that were recorded with the parts.
pub mod Later
use layersmith.Prelude.{
  refl, inl, inr, arith, Bool-cases, ==_iff, ℕ, ◌+◌, ◌≡◌, sym, ap, subst, ◌∙◌, Bool, true, false,
  ◌&&◌, Option, none, some, List, [], ◌∷◌, map, ◌==◌, nat_eq, list_eq, option_eq, length, concat,
  All, if◌then◌else◌,
}
use layersmith.Prelude.Result.{ok, ok-apart}
use layersmith.Prelude.Text.{Str, text}
use layersmith.Prelude.Map.{Map}
use layersmith.Split.Plan.{Range}
use layersmith.Split.Stream.{Bytes, Chunks}
use layersmith.Split.Hash.{Part}
use layersmith.Split.Hash.Whole.{describe}
use layersmith.Split.Manifest.{File, Disk}
use layersmith.Vtar.{Info, read}
use layersmith.Vtar.Blocks.{layout-read}
use layersmith.Models.Files.{ModelFile}
use layersmith.Models.Service.{
  LlmModel, ModelParts, by_path, entry_of, tar_mtime, layout_of, archive_name, compute_parts,
}
use layersmith.Models.Service.Parts.{
  Here, contents_of, entries-InFolder, archive_of, compute_parts-archive_of,
}

-- `parts["identity"].get(name)`
abbrev pub identity_get : Str → List (Str × ℕ) → Option ℕ
identity_get name [] = none
identity_get name ((n, mtime_ns) ∷ rest) =
    let later = identity_get name rest in if n == name then some mtime_ns else later

-- `stat.st_size != entry["size"] or … != stat.st_mtime_ns` does not hold; a missing file is an OSError.
abbrev pub is_same : List (Str × ℕ) → ModelFile → Option File → Bool
is_same identity f none = false
is_same identity f (some file) =
    length file.bytes == f.size && identity_get f.name identity == some file.mtime_ns

unfoldable pub all_same : List (Str × ℕ) → Disk → List ModelFile → Bool
all_same identity disk [] = true
all_same identity disk (f ∷ fs) = is_same identity f (disk f.name) && all_same identity disk fs

abbrev parts_if : ModelParts → List ModelFile → Option Disk → Option ModelParts
parts_if parts [] none = some parts
parts_if parts (f ∷ fs) none = none
parts_if parts files (some disk) = if all_same parts.identity disk files then some parts else none

abbrev parts_at : Map Str Disk → List ModelFile → Option ModelParts → Option Str → Option ModelParts
parts_at dirs files none path = none
parts_at dirs files (some parts) none = none
parts_at dirs files (some parts) (some []) = none
parts_at dirs files (some parts) (some (c ∷ folder)) = parts_if parts files (dirs (c ∷ folder))

-- `current_parts(model)`
unfoldable pub current_parts : Map Str Disk → LlmModel → Option ModelParts
unfolding all_same text
current_parts dirs m =
    let stored = parts_at dirs m.files m.parts m.path in
    if m.status == text "ready" then stored else none

module _ (sha256 : Bytes → Str) (header : Info → Bytes) (configured : ℕ) where
  -- `read_part(model, part)`, for the files of a folder
  unfoldable pub read_part : Str → Disk → Str → List ModelFile → Part → Chunks
  unfolding read by_path
  read_part folder disk name files part =
      read (by_path folder disk) (layout_of sha256 header configured folder name files) part.offset
        (some part.size)

  -- The part is read to its end, and the bytes have its checksum.
  abbrev pub IsServed : Str → Disk → Str → List ModelFile → Part → Type 0
  IsServed folder disk name files part =
      ((read_part folder disk name files part).raised ≡ false)
      × (sha256 (concat (read_part folder disk name files part).chunks) ≡ part.sha256)

  pub describe-IsServed :
      (folder : Str) (disk : Disk) (name : Str) (files : List ModelFile) (count index : ℕ)
      (rs : List Range)
      → All (Here disk) files
      → All (IsServed folder disk name files) (
          describe sha256
            (archive_name name)
            count
            (archive_of sha256 header configured folder disk name files)
            index
            rs)
  unfolding read_part
  describe-IsServed folder disk name files count index [] h = tt
  describe-IsServed folder disk name files count index (r ∷ rs) h =
      let (size, bytes, fine) =
        layout-read header folder name tar_mtime (contents_of disk) (by_path folder disk)
          (map entry_of files) r.offset r.size (entries-InFolder header folder name disk files h) in
      ((fine, ap sha256 bytes), describe-IsServed folder disk name files count (index + 1) rs h)

-- The model is ready, the parts are its own, and its files have the sizes and times that these record.
pub current_parts_ok :
    (dirs : Map Str Disk) (m : LlmModel) (p : ModelParts) (c : ℕ) (folder : Str) (disk : Disk)
    → m.path ≡ some (c ∷ folder)
    → dirs (c ∷ folder) ≡ some disk
    → current_parts dirs m ≡ some p
    → (m.status ≡ text "ready") × (m.parts ≡ some p) × (all_same p.identity disk m.files ≡ true)
unfolding current_parts
current_parts_ok dirs m p c folder disk at there h = elim (Bool-cases (m.status == text "ready")) [
  | inr other ↦ cc (rw other at h)
  | inl ready ↦ go m.parts refl (rw (ready, at) at h)
]
  where
    go :
        (o : Option ModelParts)
        → m.parts ≡ o
        → parts_at dirs m.files o (some (c ∷ folder)) ≡ some p
        → (m.status ≡ text "ready") × (m.parts ≡ some p) × (all_same p.identity disk m.files ≡ true)
    go none e k = cc
    go (some parts) e k =
        let k' : parts_if parts m.files (some disk) ≡ some p = rw there at k in
        elim (Bool-cases (all_same parts.identity disk m.files)) [
          | inr changed ↦ cc (rw changed at k')
          | inl same ↦
              let own : ◌≡◌ {A = Option ModelParts} (some parts) (some p) = rw same at k' in
              let e' : parts ≡ p = cc in
              (
                (==_iff m.status (text "ready")).0 (ground arith),
                e ∙ own,
                subst (λ (x : ModelParts). all_same x.identity disk m.files ≡ true) e' same,
              )
        ]
