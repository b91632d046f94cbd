-- ===== src/Models/Tests/Served.antt =====
-- The model served in parts, and a run that the end of the process breaks off.
use layersmith.Prelude.{
  All, length, ◌≡◌, ◌≢◌, refl, sym, ap, ◌∙◌, Option, none, some, List, [], ◌∷◌, list_beq, nat_eq,
  list_eq, ◌==◌, if◌then◌else◌,
}
use layersmith.Prelude.Result.{ok, map_ok}
use layersmith.Prelude.Text.{Str, text}
use layersmith.Prelude.Strings.{cut_first}
use layersmith.Prelude.Map.{empty}
use layersmith.Split.Stream.{Bytes}
use layersmith.Split.Manifest.{File, Disk}
use layersmith.Split.Plan.{Range, plan, part_size}
use layersmith.Models.Service.{
  LlmModel, Models, get, ModelParts, staging_dir, archive_name, compute_parts,
}
use layersmith.Models.Service.Run.{Surroundings, nothing, killed_late, run, recover}
use layersmith.Models.Service.Parts.{archive_of, compute_parts-archive_of}
use layersmith.Models.Service.Serving.{current_parts, IsServed}
use layersmith.Models.Service.Serving.Later.{read_part-current_parts}
use layersmith.Split.Hash.Whole.{describe}
use layersmith.Models.Service.Run.Retried.{retries, retries-recover}
use layersmith.Models.Service.Request.{request}
use layersmith.Models.Tests.{
  sum, no_header, parts_of_path, row_of, asked, online, downloaded, downloaded_row, all_of,
}

-- The process ends while the parts are computed.
unfoldable broken_off : Models
unfolding run asked
broken_off = run sum sum no_header 0 parts_of_path (text "/m") (text "1") (online killed_late) asked

unfoldable broken_row : LlmModel
unfolding broken_off get text
broken_row = row_of (get (text "1") broken_off.rows)

abbrev some_disk : Option Disk → Disk
some_disk none = empty
some_disk (some disk) = disk

-- `LlmModel.status` after the process was started again and the model was run twice
abbrev tried_again : Models
tried_again =
    retries sum sum no_header 0 parts_of_path (text "/m") (text "1")
      (online nothing ∷ online nothing ∷ []) broken_off

retries-recover_example : (row_of (get (text "1") tried_again.rows)).status ≢ text "ready"
unfolding broken_row broken_off asked request recover run staging_dir text list_beq cut_first plan
    part_size map_ok
retries-recover_example =
    retries-recover sum sum no_header 0 parts_of_path (text "/m") (text "1") broken_row
      (some_disk (broken_off.dirs (text "/m/m"))) (online nothing ∷ online nothing ∷ []) broken_off
      (row_of (get (text "1") tried_again.rows)) refl (λ e. cc) refl refl (λ e. cc) refl

abbrev published : Str → Bytes
published name = if name == text "config.json" then 1 ∷ 2 ∷ 3 ∷ [] else 4 ∷ 5 ∷ []

abbrev whole_answers : Surroundings
whole_answers = record {
  free = 9_000_000_000;
  answer = λ name from. ok (record { status = 200; turns = all_of (published name) });
  mtime_ns = 7;
  meanwhile = nothing;
}

abbrev some_parts : Option ModelParts → ModelParts
some_parts (some p) = p
some_parts none = record {
  archive = [];
  archive_size = 0;
  archive_sha256 = [];
  part_size = 0;
  parts = [];
  identity = [];
}

unfoldable its_disk : Disk
unfolding downloaded text
its_disk = some_disk (downloaded.dirs (text "/m/m"))

unfoldable its_parts : ModelParts
unfolding downloaded_row
its_parts = some_parts downloaded_row.parts

-- The folder of the model
abbrev its_folder : Str
its_folder = text "/m/m"

its_bytes :
    (name : Str) (f g : File) → its_disk name ≡ some f → its_disk name ≡ some g → f.bytes ≡ g.bytes
its_bytes name f g there now = ap (λ (x : File). x.bytes) (apart (sym there ∙ now))
  where
    apart : ◌≡◌ {A = Option File} (some f) (some g) → f ≡ g
    apart e = cc

read_part-current_parts_example :
    (downloaded_row.status ≡ text "ready")
    × All
        (IsServed sum no_header 0 its_folder its_disk downloaded_row.name downloaded_row.files)
        its_parts.parts
unfolding its_disk its_parts current_parts downloaded downloaded_row asked request run text list_beq
    cut_first plan part_size map_ok
read_part-current_parts_example =
    read_part-current_parts sum no_header 0 downloaded.dirs downloaded_row its_parts 47
      (109 ∷ 47 ∷ 109 ∷ []) its_disk its_disk refl refl ((_, refl, refl), ((_, refl, refl), tt))
      refl (λ name f g there now size time. its_bytes name f g there now) refl

compute_parts-archive_of_example :
    (p : ModelParts) × (rs : List Range) × (compute_parts sum no_header 0 its_folder its_disk
        downloaded_row.name downloaded_row.files
      ≡ ok p)
    × (p.archive_size
        ≡ length (
            archive_of sum no_header 0 its_folder its_disk downloaded_row.name
              downloaded_row.files))
    × (p.archive_sha256
        ≡ archive_of sum no_header 0 its_folder its_disk downloaded_row.name downloaded_row.files)
    × (plan p.archive_size (part_size 0) ≡ ok rs)
    × (p.parts
        ≡ describe sum
            (archive_name downloaded_row.name)
            (length rs)
            (archive_of sum no_header 0 its_folder its_disk downloaded_row.name
              downloaded_row.files)
            0
            rs)
unfolding its_disk downloaded downloaded_row asked request run text list_beq cut_first plan
    part_size map_ok
compute_parts-archive_of_example =
    compute_parts-archive_of sum no_header 0 its_folder its_disk downloaded_row.name
      downloaded_row.files ((_, refl, refl), ((_, refl, refl), tt))
