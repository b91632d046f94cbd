-- ===== src/Models/Tests.antt =====
-- A model that is requested, downloaded in two attempts, stored and deleted.
mod Served
use layersmith.Prelude.{
  All, length, ℕ, ◌≡◌, ◌≢◌, refl, ◌⊎◌, inl, inr, arith, false, Option, none, some, List, [], ◌∷◌,
  ◌++◌, drop, append-nil, list_beq, nat_eq, list_eq, contains, ◌==◌, if◌then◌else◌,
}
use layersmith.Prelude.Result.{Result, ok, err, map_ok}
use layersmith.Prelude.Text.{Str, text}
use layersmith.Prelude.Strings.{cut_first}
use layersmith.Prelude.Map.{empty}
use layersmith.Split.Stream.{Bytes}
use layersmith.Split.Manifest.{File, Disk}
use layersmith.Split.Plan.{Range, plan, part_size}
use layersmith.Vtar.{Info}
use layersmith.Models.Files.{Sibling}
use layersmith.Models.Names.{folder_name}
use layersmith.Models.Names.Fresh.{folder_name_ends}
use layersmith.Models.Download.{Turn, received, broken, Answer, fetch}
use layersmith.Models.Download.Resumed.{fetch-after_attempts, GivesAll}
use layersmith.Models.Service.{
  LlmModel, Models, get, ModelParts, staging_dir, archive_name, git_blob_id, compute_parts, delete,
}
use layersmith.Models.Service.Run.{Surroundings, Meanwhile, nothing, killed_late, run, recover}
use layersmith.Models.Service.Run.Stored.{run-IsStored}
use layersmith.Models.Service.Parts.{archive_of, compute_parts-archive_of}
use layersmith.Models.Service.Serving.{current_parts, IsServed}
use layersmith.Split.Hash.Whole.{describe}
use layersmith.Models.Service.Run.Made.{IsReady}
use layersmith.Models.Service.Run.Retried.{retries, retries-recover}
use layersmith.Models.Service.Run.Ready.{IsStored}
use layersmith.Models.Service.Request.{Metadata, metadata, request}
use layersmith.Models.Service.Request.Added.{request_ok, IsKnown, IsAdded}
use layersmith.Models.Service.Request.Removed.{delete-IsRemoved, IsRemoved}

-- A checksum that is the bytes themselves, and a tar header of no bytes
abbrev pub sum : Bytes → Str
sum bytes = bytes

abbrev pub no_header : Info → Bytes
no_header info = []

abbrev pub parts_of_path : Str → List Str
parts_of_path [] = []
parts_of_path (c ∷ path) = (c ∷ []) ∷ parts_of_path path

abbrev listing : List Sibling
listing =
    record {
      rfilename = text "config.json";
      size = some 3;
      lfs = none;
      blob_id = some (text "blob 3" ++ (0 ∷ 1 ∷ 2 ∷ 3 ∷ []));
    }
    ∷ record {
      rfilename = text "model.safetensors";
      size = some 0;
      lfs = some (some 2, some (4 ∷ 5 ∷ []));
      blob_id = none;
    }
    ∷ record { rfilename = text "notes/x.json"; size = some 9; lfs = none; blob_id = none }
    ∷ []

abbrev answered : Metadata
answered = record {
  gated = false;
  private = false;
  sha = some (text "c0");
  siblings = listing;
  license = none;
}

abbrev nobody : Models
nobody = record { rows = []; dirs = empty; queue = []; cancel = [] }

abbrev state_of : {E : Type 0} → Result E (Str × Models) → Models
state_of (ok (id, s)) = s
state_of (err e) = nobody

abbrev pub row_of : Option LlmModel → LlmModel
row_of (some m) = m
row_of none = record {
  id = [];
  name = [];
  repo_id = [];
  revision = none;
  requested_revision = [];
  catalog_key = none;
  status = [];
  error = none;
  path = none;
  files = [];
  parts = none;
  total_bytes = 0;
  done_bytes = 0;
  license = none;
}

unfoldable pub asked : Models
unfolding request
asked =
    state_of (request (text "1") (text "o/m") (text "main") none 9_000_000_000 (ok answered) nobody)

unfoldable pub the_row : LlmModel
unfolding asked get text
the_row = row_of (get (text "1") asked.rows)

request_ok_example :
    (d : Metadata) × (metadata (text "o/m") (text "main") (ok answered) ≡ ok d)
    × (IsKnown (text "o/m") d.sha nobody (text "1") asked
        ⊎ IsAdded (text "1") (text "o/m") d.sha nobody (text "1") asked)
unfolding asked request text list_beq cut_first
request_ok_example =
    request_ok (text "1") (text "o/m") (text "main") none 9_000_000_000 (ok answered) nobody asked
      (text "1") refl

abbrev config_answer : Answer
config_answer from =
    ok (record { status = 200; turns = received (1 ∷ 2 ∷ []) ∷ received (3 ∷ []) ∷ [] })

abbrev weights_answer : Answer
weights_answer from = ok (record { status = 200; turns = received (4 ∷ 5 ∷ []) ∷ [] })

abbrev pub online : Meanwhile → Surroundings
online meanwhile = record {
  free = 9_000_000_000;
  answer = λ name. if name == text "config.json" then config_answer else weights_answer;
  mtime_ns = 7;
  meanwhile = meanwhile;
}

unfoldable pub downloaded : Models
unfolding run asked
downloaded = run sum sum no_header 0 parts_of_path (text "/m") (text "1") (online nothing) asked

unfoldable pub downloaded_row : LlmModel
unfolding downloaded get text
downloaded_row = row_of (get (text "1") downloaded.rows)

downloaded_ready : downloaded_row.status ≡ text "ready"
unfolding downloaded_row asked request run text list_beq cut_first plan part_size map_ok
downloaded_ready = refl

run-IsStored_example :
    IsStored sum sum no_header 0 parts_of_path (text "/m") the_row downloaded.dirs downloaded_row
unfolding downloaded downloaded_row the_row asked request run text list_beq cut_first plan part_size
    map_ok
run-IsStored_example =
    run-IsStored sum sum no_header 0 parts_of_path (text "/m") (text "1") (online nothing) asked
      the_row downloaded_row refl (λ e. cc) (refl, (refl, tt)) refl downloaded_ready

delete-IsRemoved_example :
    (freed : ℕ) × (t : Models) × (delete
        (λ path disk. none)
        parts_of_path
        (text "/m")
        (text "1")
        downloaded
      ≡ ok (freed, t))
    × IsRemoved (λ path disk. none) parts_of_path (text "/m") (text "1") downloaded_row downloaded t
unfolding downloaded downloaded_row asked request run text list_beq cut_first plan part_size map_ok
delete-IsRemoved_example =
    delete-IsRemoved (λ path disk. none) parts_of_path (text "/m") (text "1") downloaded_row
      downloaded refl

folder_name_ends_example :
    (name : Str) × (folder_name (text "o/m") (text "m" ∷ text "o--m" ∷ []) ≡ some name)
    × (contains (text "m" ∷ text "o--m" ∷ []) name ≡ false)
folder_name_ends_example = folder_name_ends (text "o/m") (text "m" ∷ text "o--m" ∷ [])

-- The first attempt is broken off after a byte; the next is answered with the part that is missing.
abbrev broken_answer : Answer
broken_answer from =
    ok (record { status = 200; turns = received (4 ∷ []) ∷ broken (text "reset") ∷ [] })

abbrev pub all_of : Bytes → List Turn
all_of [] = []
all_of (b ∷ bytes) = received (b ∷ bytes) ∷ []

abbrev partial_answer : Answer
partial_answer from = ok (record { status = 206; turns = all_of (drop from (4 ∷ 5 ∷ [])) })

pub all_of-GivesAll : (bytes : Bytes) → GivesAll bytes (all_of bytes)
all_of-GivesAll [] = refl
all_of-GivesAll (b ∷ bytes) = ([], append-nil (b ∷ bytes), refl)

fetch-after_attempts_example :
    (f : File) × (fetch 7 2 (some (record { bytes = 4 ∷ []; mtime_ns = 7 })) partial_answer
      ≡ (ok tt, some f))
    × (f.bytes ≡ 4 ∷ 5 ∷ [])
unfolding fetch
fetch-after_attempts_example =
    fetch-after_attempts (4 ∷ 5 ∷ []) 7 (broken_answer ∷ []) partial_answer (omega arith)
      ((λ from. inr ((λ e. absurd (omega arith)), (5 ∷ [], refl, tt))), tt)
      (λ from. (_, refl, inl (refl, all_of-GivesAll (drop from (4 ∷ 5 ∷ [])))))
