-- ===== src/Scanning/Tests.antt =====
-- Scans of a build whose archive was replaced. The checksum of some bytes is, in these tests, the
-- bytes themselves.
use layersmith.Prelude.{◌≡◌, refl, none, some, [], ◌∷◌, nat_eq, list_eq, list_beq, length, ℕ}
use layersmith.Prelude.Result.{Result, ok}
use layersmith.Prelude.Text.{Str, text}
use layersmith.Prelude.Map.{Map, empty, put}
use layersmith.Prelude.{List, [], ◌∷◌}
use layersmith.Scanning.Records.{Finding, Scan, Store}
use layersmith.Scanning.Records.Counts.{tally}
use layersmith.Split.Stream.{Bytes}
use layersmith.Scanning.Archive.{ScanError, Build, Backend, ImageArchive, archive_for}
use layersmith.Scanning.Archive.Verified.{Used, archive_for_lem}

abbrev own : Bytes → Str
own bytes = bytes

abbrev build : Build
build = record {
  status = text "ready";
  image_ref = some (text "x:1");
  image_digest = some (1 ∷ []);
  export_path = some (text "x.tar");
  export_sha256 = some (7 ∷ []);
}

abbrev oci : Str
oci = text "oci-archive"

abbrev backend : Backend
backend = record {
  archive_format = oci;
  archive_formats = oci ∷ [];
  inspect = λ reference. ok (some (1 ∷ []));
  export = λ reference format. record { written = some (7 ∷ 8 ∷ []); failure = none };
}

-- The archive on disk is not the one that was recorded.
abbrev disk : Map Str Bytes
disk = put empty (text "x.tar") (9 ∷ [])

abbrev count : ImageArchive → Bytes → Result ScanError ℕ
count archive bytes = ok (length bytes)

archive_for_lem_example :
    (row : Build) × (some build ≡ some row)
    × (row.status ≡ text "ready")
    × Used own (oci ∷ []) backend disk (text "t") count row 2
unfolding list_beq text archive_for
archive_for_lem_example =
    archive_for_lem own (oci ∷ []) backend disk (text "t") count (some build) 2 refl refl

abbrev findings : List Finding
findings =
    record { kind = text "secret"; severity = text "high" }
    ∷ record { kind = text "secret"; severity = text "low" }
    ∷ record { kind = text "secret"; severity = text "high" }
    ∷ []

two_high : tally (text "secret") (text "high") findings ≡ 2
unfolding list_beq text
two_high = refl

abbrev scan : Scan
scan = record {
  id = 1 ∷ [];
  build_id = text "a";
  state = text "completed";
  error = none;
  report_path = some (text "x.tar");
  sbom_path = none;
}

abbrev store : Store
store = record { scans = scan ∷ []; disk = disk }
