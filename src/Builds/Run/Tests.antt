-- ===== src/Builds/Run/Tests.antt =====
-- A run whose export fails.
use layersmith.Prelude.{◌≡◌, refl, true, false, none, some, [], ◌∷◌, list_beq}
use layersmith.Prelude.Result.{ok, err}
use layersmith.Prelude.Text.{text}
use layersmith.Builds.Run.{build_error, status, done, World, Steps, run}
use layersmith.Builds.Run.Outcome.{Ends, run-Ends}

abbrev queued : World
queued = record {
  row = record {
    status = text "queued";
    error = none;
    mode = text "gui";
    base_digest = none;
    containerfile = [];
    packages = [];
    checks = [];
    image = none;
    exported = none;
  };
  events = [];
  context = false;
}

abbrev steps : Steps
steps = record {
  preflight = ok tt;
  resolve_base = ok (some (text "sha256:1"));
  generate = λ digest. ok (text "FROM a", text "jq" ∷ []);
  prepare_context = ok tt;
  build = ok (record { id = text "i"; digest = text "d"; size = 5 });
  can_run = true;
  checks = (record { id = text "user"; outcome = err (text "no runtime") } ∷ []) ∷ [];
  parse_output = λ s. none;
  export = err (build_error (text "disk full"));
  checksum = ok (text "00");
  export_path = text "/x.tar";
}

run-Ends_example :
    Ends false steps queued.row
      (some (build_error (text "disk full")))
      (run false true steps queued)
unfolding list_beq text
run-Ends_example = run-Ends false steps queued refl

published :
    (run false true steps queued).events
    ≡ status (text "pulling")
      ∷ status (text "building")
      ∷ status (text "testing")
      ∷ status (text "exporting")
      ∷ status (text "failed")
      ∷ done (text "failed")
      ∷ []
unfolding run list_beq text
published = refl
