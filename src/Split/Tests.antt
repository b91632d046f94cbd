-- ===== src/Split/Tests.antt =====
-- Runs of the split download on small archives, and its theorems at concrete data. The checksum of
-- some bytes is, in these tests, the bytes themselves.
use layersmith.Prelude.{
  ◌≡◌, ◌≢◌, refl, false, Option, none, some, List, [], ◌∷◌, arith, All, concat, map, length, ==_iff,
  nat_eq, list_eq, list_beq,
}
use layersmith.Prelude.Map.{empty, put}
use layersmith.Prelude.Result.{ok}
use layersmith.Prelude.Text.{Str, text}
use layersmith.Split.Plan.{Range, plan, part_name}
use layersmith.Split.Stream.{Bytes, read_range, file_chunks}
use layersmith.Split.Hash.{hash_parts}
use layersmith.Split.Hash.Feed.{running}
use layersmith.Split.Hash.Whole.{describe, hash_parts-whole}
use layersmith.Split.Assemble.{reassemble}
use layersmith.Split.Manifest.{File, Manifest, Build, Observed, compute, host_install_of}
use layersmith.Split.Manifest.Compute.{still, compute-still, compute_ends, compute_sound, Faithful}
use layersmith.Split.Service.{Service, Run, start, finish, status, ready, State, is_running}
use layersmith.Split.Service.Runs.{Started, start-Started, OnlyItsBuild, finish-OnlyItsBuild}
use layersmith.Split.Service.Status.{status_sound, split_cycle}
use layersmith.Split.Service.Current.{DescribesFile}
use layersmith.Split.Service.Threads.{System, launch, here, next, OneEach, Reach-OneEach}

abbrev own : Bytes → Str
own bytes = bytes

abbrev stream : List Bytes
stream = (1 ∷ 2 ∷ 3 ∷ []) ∷ (4 ∷ []) ∷ (5 ∷ 6 ∷ []) ∷ []

two_parts : plan 6 4 ≡ ok (record { offset = 0; size = 4 } ∷ record { offset = 4; size = 2 } ∷ [])
unfolding plan
two_parts = refl

names : part_name (text "x.tar") 7 12 ≡ text "x.tar.part-007"
unfolding part_name
names = refl

reassemble_example :
    let file : Bytes = 1 ∷ 2 ∷ 3 ∷ 4 ∷ 5 ∷ 6 ∷ [] in
    (rs : List Range) × (plan (length file) 4 ≡ ok rs)
    × (concat (map (λ (r : Range). concat (read_range file r.offset r.size).chunks) rs) ≡ file)
    × All (λ (r : Range). (read_range file r.offset r.size).raised ≡ false) rs
reassemble_example = reassemble (1 ∷ 2 ∷ 3 ∷ 4 ∷ 5 ∷ 6 ∷ []) 4 (omega arith)

hash_parts-whole_example :
    (rs : List Range) × (plan 6 4 ≡ ok rs)
    × (hash_parts own (text "x.tar") (λ c. length c) stream 6 4
        ≡ some (
            ok (record {
              parts = describe own (text "x.tar") (length rs) (concat stream) 0 rs;
              checksum = concat stream;
              reports = running 0 stream;
            })))
hash_parts-whole_example = hash_parts-whole own (text "x.tar") stream 4 (omega arith)

abbrev archive : File
archive = record { bytes = concat stream; mtime_ns = 9 }

abbrev found : Option Str
found = some (concat stream)

compute-still_example :
    (rs : List Range) × (plan 6 4 ≡ ok rs)
    × (compute own (text "x.tar") found 4 (text "now") (still archive)
        ≡ some (
            ok (record {
              archive = text "x.tar";
              archive_size = 6;
              archive_mtime_ns = 9;
              archive_sha256 = concat stream;
              part_size = 4;
              parts = describe own (text "x.tar") (length rs) (concat stream) 0 rs;
              created_at = text "now";
              image_ref = none;
              host_install = none;
            })))
unfolding list_beq
compute-still_example = compute-still own (text "x.tar") found 4 (text "now") archive (omega arith)

abbrev swapped : Observed
swapped = record {
  before = some archive;
  opened = some (record { bytes = []; mtime_ns = 9 });
  after = none;
}

compute_ends_example : compute own (text "x.tar") found 4 (text "now") swapped ≢ none
compute_ends_example = compute_ends own (text "x.tar") found 4 (text "now") swapped (omega arith)

abbrev of_swapped : Observed
of_swapped = record swapped { opened = some archive; after = some archive }

abbrev whole_manifest : Manifest
whole_manifest = record {
  archive = text "x.tar";
  archive_size = 6;
  archive_mtime_ns = 9;
  archive_sha256 = concat stream;
  part_size = 6;
  parts =
      record {
        index = 0;
        name = part_name (text "x.tar") 0 1;
        offset = 0;
        size = 6;
        sha256 = concat stream;
      }
      ∷ [];
  created_at = text "now";
  image_ref = none;
  host_install = none;
}

compute_sound_example : Faithful own (text "x.tar") found of_swapped whole_manifest
unfolding compute list_beq hash_parts plan file_chunks
compute_sound_example =
    compute_sound own (text "x.tar") found 6 (text "now") of_swapped whole_manifest (omega arith)
      refl

abbrev row : Build
row = record {
  status = text "ready";
  export_path = some (text "/i/x.tar");
  export_size = some 6;
  export_sha256 = some (concat stream);
  export_parts = none;
  image_ref = some (text "x:1");
  openshift = false;
}

abbrev before : Service
before = record {
  jobs = empty;
  builds = put empty (text "b") row;
  disk = put empty (text "/i/x.tar") archive;
}

abbrev the_run : Run
the_run = record {
  build_id = text "b";
  path = text "/i/x.tar";
  archive = text "x.tar";
  expected = concat stream;
  image = some (text "x:1");
  size = 900_000_000;
}

abbrev during : Service
during = record before {
  jobs = put empty (text "b") (record { state = State.running; done = 0; total = 6; error = none });
}

started : start 0 before (text "b") ≡ ok (during, some the_run)
unfolding start list_beq
started = refl

start-Started_example : Started before (text "b") during (some the_run)
start-Started_example = start-Started 0 before during (text "b") (some the_run) started

finish-OnlyItsBuild_example :
    OnlyItsBuild during the_run (finish during the_run (ok whole_manifest))
finish-OnlyItsBuild_example = finish-OnlyItsBuild during the_run (ok whole_manifest)

abbrev at_rest : System
at_rest = record { service = before; threads = [] }

abbrev at_work : System
at_work = record { service = during; threads = the_run ∷ [] }

Reach-OneEach_example : OneEach at_work
Reach-OneEach_example =
    Reach-OneEach {s = at_rest} {t = at_work} (λ b. refl)
      (next here (launch 0 (text "b") during the_run started))

split_cycle_example :
    (m : Manifest) × (b : Build) × (compute own
        (text "x.tar")
        found
        900_000_000
        (text "now")
        (still archive)
      ≡ some (ok m))
    × ((finish during the_run (ok m)).builds (text "b") ≡ some b)
    × ((status (λ m. 0) 0 (finish during the_run (ok m)) (text "b") b).answer
        ≡ ready (record m { image_ref = some (text "x:1"); host_install = host_install_of b }))
    × (start 0 (finish during the_run (ok m)) (text "b") ≡ ok (finish during the_run (ok m), none))
split_cycle_example =
    split_cycle (λ m. 0) 0 own (text "now") before during (text "b") the_run archive started on_disk
      refl
  where
    on_disk : during.disk (text "/i/x.tar") ≡ some archive
    on_disk = rw ((==_iff (text "/i/x.tar") (text "/i/x.tar")).1 refl) refl

abbrev split_row : Build
split_row = record row {
  export_parts = some (record whole_manifest { image_ref = some (text "x:1") });
}

abbrev shown : Manifest
shown = record whole_manifest { image_ref = some (text "x:1") }

status_sound_example :
    (is_running (before.jobs (text "b")) ≡ false)
    × (split_row.status ≡ text "ready")
    × DescribesFile before split_row shown
unfolding status list_beq
status_sound_example = status_sound (λ m. 0) 0 before (text "b") split_row shown refl
