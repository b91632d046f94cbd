-- ===== src/Scanning/Run/Tests.antt =====
-- A scan that is created and run.
use layersmith.Prelude.{◌≡◌, refl, true, none, some, [], ◌∷◌, list_beq}
use layersmith.Prelude.Result.{ok, err}
use layersmith.Prelude.Text.{text}
use layersmith.Builds.Run.{build_error}
use layersmith.Builds.Run.Outcome.{first}
use layersmith.Scanning.Archive.{existing_export}
use layersmith.Scanning.Run.{Scanned, Scan, ScanSteps, create, run}
use layersmith.Scanning.Run.Ended.{IsCreated, IsEnded, scan_failures, run-create}

abbrev created : Scan
created = record {
  build_id = text "b";
  state = text "queued";
  kinds = text "secret" ∷ [];
  error = none;
  archive_source = none;
  recorded = none;
}

abbrev nothing : Scanned
nothing = record {
  findings = [];
  report = record { results = []; metadata = none; others = λ k. none };
}

abbrev steps : ScanSteps
steps = record {
  archive_for = ok existing_export;
  scan_image = λ kinds. ok nothing;
  wants_sbom = true;
  generate_sbom = err (build_error (text "timeout"));
  write = λ r sbom. ok tt;
}

run-create_example :
    IsCreated none (text "secret" ∷ []) (some (text "ready")) created
    × IsEnded steps created (first (scan_failures steps created)) (run steps created)
unfolding create list_beq text
run-create_example =
    run-create none (text "secret" ∷ []) [] (some (text "ready")) (text "b")
      (text "secret" ∷ text "license" ∷ []) created steps refl

failed : (run steps created).error ≡ some (text "timeout")
unfolding run list_beq text
failed = refl
