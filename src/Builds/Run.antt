-- ===== src/Builds/Run.antt =====
-- `run`, `_set_status`, `_fail` and `run_openshift_checks` of BuildService in services/builds.py. What the backend, the
-- recipes and the file system do in a run is the record Steps. The log's lines are in Builds.Log, and times are
-- not modelled. The last commit, the line 'Image ready', reading the log back and `on_built` raise nothing.
-- Nothing deletes the row of a build while it is active.
mod Tests
pub mod Outcome
use layersmith.Prelude.{
  ℕ, ◌-◌, Bool, true, false, Option, none, some, List, [], ◌∷◌, ◌++◌, ◌&&◌, not, ◌==◌, nat_eq,
  list_eq, if◌then◌else◌, length, take, drop,
}
use layersmith.Prelude.Result.{Result, ok, err}
use layersmith.Prelude.Text.{Str, text}

-- A BuildError, or another exception, with its text
pub data Failure : Type 0 where
  build_error : Str → Failure
  unexpected : Str → Failure

abbrev pub message : Failure → Str
message (build_error m) = m
message (unexpected m) = text "Unexpected error: " ++ m

-- The result line of a check, if `parse_output` found one; else the exit status and the end of the output
pub data CheckResult : Type 0 where
  parsed : Str → CheckResult
  no_result_line : ℕ → Str → CheckResult

-- A check that runs in the image: its id, and the exit status and output, or the text of the exception that
-- the runtime raised
pub record CheckRun : Type 0 where
  pub id : Str
  pub outcome : Result Str (ℕ × Str)

pub record Image : Type 0 where
  pub id : Str
  pub digest : Str
  pub size : ℕ

pub record Export : Type 0 where
  pub path : Str
  pub size : ℕ
  pub sha256 : Str

-- The columns of a build that a run reads or writes
pub record Row : Type 0 where
  pub status : Str
  pub error : Option Str
  pub mode : Str
  pub base_digest : Option Str
  pub containerfile : Str
  pub packages : List Str
  pub checks : List (Str × CheckResult)
  pub image : Option Image
  pub exported : Option Export

-- A message of the kinds "status" and "done"
pub data Event : Type 0 where
  status done : Str → Event

-- The row, the messages published so far, and whether the directory of the context is there
pub record World : Type 0 where
  pub row : Row
  pub events : List Event
  pub context : Bool

-- What the parts that a run calls return or raise. `preflight` are the checks of disk space and of the AI/ML recipe;
-- `checks` has the checks of the recipe of the specification, if it is one for training, OpenShift or opencode, and `can_run` says whether the backend has
-- `run_container`; `checksum` stands for `readable_artifact` and `sha256_file`.
pub record Steps : Type 0 where
  pub preflight : Result Failure (Unit {0})
  pub resolve_base : Result Failure (Option Str)
  pub generate : Option Str → Result Failure (Str × List Str)
  pub prepare_context : Result Failure (Unit {0})
  pub build : Result Failure Image
  pub can_run : Bool
  pub checks : List (List CheckRun)
  pub parse_output : Str → Option Str
  pub export : Result Failure ℕ
  pub checksum : Result Failure Str
  pub export_path : Str

-- `_set_status(build_id, status)`
unfoldable pub set_status : Str → World → World
set_status s w = record w {
  row = record w.row { status = s };
  events = w.events ++ (status s ∷ []);
}

-- `_fail(build_id, message)`
unfoldable pub fail : Str → World → World
unfolding set_status text
fail m w =
    let failed = set_status (text "failed") w in
    record failed {
      row = record failed.row { error = some (take 4000 m) };
      events = failed.events ++ (done (text "failed") ∷ []);
    }

-- The exit status and output, an exception counting as status 1
abbrev code_output : Result Str (ℕ × Str) → ℕ × Str
code_output (ok r) = r
code_output (err e) = (1, e)

abbrev result_of : ℕ → Str → Option Str → CheckResult
result_of code output (some r) = parsed r
result_of code output none = no_result_line code (drop (length output - 300) output)

abbrev pub checked : (Str → Option Str) → CheckRun → CheckResult
checked parse_output run =
    let (code, output) = code_output run.outcome in result_of code output (parse_output output)

-- The loop over the checks; the results so far are committed after each.
unfoldable pub run_each :
    (Str → Option Str) → List CheckRun → List (Str × CheckResult) → World → World
run_each parse_output [] results w = w
run_each parse_output (c ∷ cs) results w =
    let next = results ++ ((c.id, checked parse_output c) ∷ []) in
    run_each parse_output cs next (record w { row = record w.row { checks = next } })

-- `run_openshift_checks`, whose results become the build's
unfoldable pub run_checks : Steps → List CheckRun → World → World
unfolding run_each set_status text
run_checks st cs w =
    if st.can_run then run_each st.parse_output cs [] (set_status (text "testing") w) else w

unfoldable pub run_all_checks : Steps → List (List CheckRun) → World → World
unfolding run_checks
run_all_checks st [] w = w
run_all_checks st (cs ∷ more) w = run_all_checks st more (run_checks st cs w)

-- A step that may raise, and what follows it
abbrev pub after :
    {A : Type 0}
    → World
    → Result Failure A
    → (A → World × Result Failure (Unit {0}))
    → World × Result Failure (Unit {0})
after w (err f) k = (w, err f)
after w (ok a) k = k a

-- `build.base_digest = digest` and, in GUI mode, the generated file, committed together
abbrev pub generated : Steps → Row → Option Str → Result Failure (Str × List Str)
generated st row digest =
    if row.mode == text "gui" then st.generate digest else ok (row.containerfile, row.packages)

abbrev pub with_base : World → Option Str → Str × List Str → World
with_base w digest (file, packages) = record w {
  row = record w.row { base_digest = digest; containerfile = file; packages = packages };
}

-- `build.checks` at the last commit: nothing, where checks were due and the backend cannot run them
abbrev last_checks :
    Steps → List (Str × CheckResult) → List (List CheckRun) → List (Str × CheckResult)
last_checks st checks [] = checks
last_checks st checks (cs ∷ more) = if st.can_run then checks else []

-- The last commit
abbrev pub ready : Steps → World → Image → ℕ → Str → World
ready st w info size sum = record w {
  row = record w.row {
    status = text "ready";
    checks = last_checks st w.row.checks st.checks;
    image = some info;
    exported = some (record { path = st.export_path; size = size; sha256 = sum });
  };
}

-- From the checks of the image on
abbrev pub test_and_export : Steps → World → Image → World × Result Failure (Unit {0})
test_and_export st w info =
    let exporting = set_status (text "exporting") (run_all_checks st st.checks w) in
    after exporting st.export
      (λ size. after exporting st.checksum (λ sum. (ready st exporting info size sum, ok tt)))

-- From the context on
abbrev pub build_image : Steps → World → World × Result Failure (Unit {0})
build_image st w =
    let with_context = record w { context = true } in
    after with_context st.prepare_context (λ _.
      let building = set_status (text "building") with_context in
      after building st.build (test_and_export st building))

-- The body of the `try`
unfoldable pub stages : Steps → World → World × Result Failure (Unit {0})
unfolding set_status run_all_checks text
stages st w = after w st.preflight (λ _.
    let pulling = set_status (text "pulling") w in
    after pulling st.resolve_base (λ digest.
      after pulling (generated st pulling.row digest)
        (λ made. build_image st (with_base pulling digest made))))

-- The `except` clauses, and the message when all went well
abbrev pub finish : World × Result Failure (Unit {0}) → World
finish (w, err f) = fail (message f) w
finish (w, ok _) = record w { events = w.events ++ (done (text "ready") ∷ []) }

-- The `finally` clause
abbrev pub clean : Bool → World → World
clean keep w = record w { context = keep && w.context }

-- `run(build_id)`, for the setting `keep_build_contexts` and whether the project exists
unfoldable pub run : Bool → Bool → Steps → World → World
unfolding stages fail text
run keep project_exists st w =
    if not (w.row.status == text "queued")
    then w
    else if not project_exists
    then fail (text "The project this build belongs to no longer exists") w
    else clean keep
        (finish (stages st (record w { row = record w.row { status = text "preparing" } })))
