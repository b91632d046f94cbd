-- ===== src/Builds/Run/Outcome.antt =====
-- How a run ends.
use layersmith.Prelude.{
  ℕ, ◌≡◌, refl, ◌∙◌, Bool, true, false, Option, none, some, List, [], ◌∷◌, ◌++◌, ◌==◌, ==_iff,
  nat_eq, list_eq, take,
}
use layersmith.Prelude.Result.{Result, ok, err}
use layersmith.Prelude.Text.{Str, text}
use layersmith.Builds.Run.{
  Failure, message, CheckResult, CheckRun, Image, Row, Event, status, done, World, Steps,
  set_status, fail, run_each, run_checks, run_all_checks, after, generated, with_base, ready,
  test_and_export, build_image, stages, finish, clean, run,
}

abbrev pub failure : {A : Type 0} → Result Failure A → Option Failure
failure (ok a) = none
failure (err f) = some f

abbrev pub first : List (Option Failure) → Option Failure
first [] = none
first (none ∷ fs) = first fs
first (some f ∷ fs) = some f

abbrev generate_failure : Steps → Row → Result Failure (Option Str) → Option Failure
generate_failure st row (err f) = none
generate_failure st row (ok digest) = failure (generated st row digest)

-- The steps of a run, in their order, by what each of them raises
abbrev failures : Steps → Row → List (Option Failure)
failures st row =
    failure st.preflight
    ∷ failure st.resolve_base
    ∷ generate_failure st row st.resolve_base
    ∷ failure st.prepare_context
    ∷ failure st.build
    ∷ failure st.export
    ∷ failure st.checksum
    ∷ []

-- What the row says of a run whose first failure is given
abbrev HasOutcome : Steps → Row → Option Failure → Row → Type 0
HasOutcome st before (some f) row =
    (row.status ≡ text "failed")
    × (row.error ≡ some (take 4000 (message f)))
    × (row.exported ≡ before.exported)
    × (row.image ≡ before.image)
HasOutcome st before none row =
    (row.status ≡ text "ready")
    × (row.error ≡ before.error)
    × ((info : Image) × (size : ℕ) × (sum : Str) × (st.build ≡ ok info)
        × (st.export ≡ ok size)
        × (st.checksum ≡ ok sum)
        × (row.image ≡ some info)
        × (row.exported ≡ some (record { path = st.export_path; size = size; sha256 = sum })))

-- What the checks of the image leave alone
abbrev SameColumns : Row → Row → Type 0
SameColumns a b = (b.error ≡ a.error) × (b.exported ≡ a.exported) × (b.image ≡ a.image)

run_each-SameColumns :
    (parse_output : Str → Option Str) (cs : List CheckRun) (results : List (Str × CheckResult))
    (w : World)
    → SameColumns w.row (run_each parse_output cs results w).row
unfolding run_each
run_each-SameColumns p [] results w = (refl, refl, refl)
run_each-SameColumns p (c ∷ cs) results w = run_each-SameColumns p cs _ _

run_all_checks-SameColumns :
    (st : Steps) (more : List (List CheckRun)) (w : World)
    → SameColumns w.row (run_all_checks st more w).row
unfolding run_all_checks run_checks set_status
run_all_checks-SameColumns st [] w = (refl, refl, refl)
run_all_checks-SameColumns st (cs ∷ more) w =
    let (e, x, i) = one (st.can_run) refl in
    let (e2, x2, i2) = run_all_checks-SameColumns st more (run_checks st cs w) in
    (e2 ∙ e, x2 ∙ x, i2 ∙ i)
  where
    one : (b : Bool) → st.can_run ≡ b → SameColumns w.row (run_checks st cs w).row
    one true can =
        rw can (run_each-SameColumns st.parse_output cs [] (set_status (text "testing") w))
    one false can = rw can (refl, refl, refl)

module _ (keep : Bool) (st : Steps) (row : Row) where
  -- How a run ends: the row, the directory of the context, and the last message
  abbrev pub Ends : Option Failure → World → Type 0
  Ends o w =
      HasOutcome st row o w.row
      × (keep ≡ false → w.context ≡ false)
      × ((before : List Event) × (w.events ≡ before ++ (done w.row.status ∷ [])))

  cleaned : (w : World) → keep ≡ false → (clean keep w).context ≡ false
  cleaned w off = rw off refl

  fail-Ends :
      (f : Failure) (w : World)
      → SameColumns row w.row
      → Ends (some f) (clean keep (fail (message f) w))
  unfolding fail
  fail-Ends f w (e, x, i) = (
    (refl, refl, x, i),
    cleaned (fail (message f) w),
    (w.events ++ (status (text "failed") ∷ []), refl),
  )

  ready-Ends :
      (w : World) (info : Image) (size : ℕ) (sum : Str)
      → SameColumns row w.row
      → st.build ≡ ok info
      → st.export ≡ ok size
      → st.checksum ≡ ok sum
      → Ends none (clean keep (finish (ready st w info size sum, ok tt)))
  ready-Ends w info size sum (e, x, i) built exported summed = (
    (refl, e, (info, size, sum, built, exported, summed, refl, refl)),
    cleaned (finish (ready st w info size sum, ok tt)),
    (w.events, refl),
  )

  test_and_export-Ends :
      (w : World) (info : Image)
      → SameColumns row w.row
      → st.build ≡ ok info
      → Ends
          (first (failure st.export ∷ failure st.checksum ∷ []))
          (clean keep (finish (test_and_export st w info)))
  unfolding set_status
  test_and_export-Ends w info (e, x, i) built =
      let (e2, x2, i2) = run_all_checks-SameColumns st st.checks w in
      let exporting = set_status (text "exporting") (run_all_checks st st.checks w) in
      exports exporting (e2 ∙ e, x2 ∙ x, i2 ∙ i) st.export refl
    where
      sums :
          (v : World)
          → SameColumns row v.row
          → (size : ℕ) → st.export ≡ ok size
          → (c : Result Failure Str) → st.checksum ≡ c
          → Ends
              (first (failure c ∷ []))
              (clean keep (finish (after v c (λ sum. (ready st v info size sum, ok tt)))))
      sums v same size exported (err f) h = fail-Ends f v same
      sums v same size exported (ok sum) h = ready-Ends v info size sum same built exported h

      exports :
          (v : World)
          → SameColumns row v.row
          → (o : Result Failure ℕ) → st.export ≡ o
          → Ends (first (failure o ∷ failure st.checksum ∷ [])) (
              clean keep (
                finish (
                  after v o
                    (λ size. after v st.checksum (λ sum. (ready st v info size sum, ok tt))))))
      exports v same (err f) h = fail-Ends f v same
      exports v same (ok size) h = sums v same size h st.checksum refl

  build_image-Ends :
      (w : World)
      → SameColumns row w.row
      → Ends
          (first (
            failure st.prepare_context
            ∷ failure st.build
            ∷ failure st.export
            ∷ failure st.checksum
            ∷ []))
          (clean keep (finish (build_image st w)))
  unfolding set_status
  build_image-Ends w same = prepared st.prepare_context
    where
      with_context : World
      with_context = record w { context = true }

      builds :
          (o : Result Failure Image)
          → st.build ≡ o
          → Ends (first (failure o ∷ failure st.export ∷ failure st.checksum ∷ [])) (
              clean keep (
                finish (
                  after
                    (set_status (text "building") with_context)
                    o
                    (test_and_export st (set_status (text "building") with_context)))))
      builds (err f) h = fail-Ends f (set_status (text "building") with_context) same
      builds (ok info) h =
          test_and_export-Ends (set_status (text "building") with_context) info same h

      prepared :
          (o : Result Failure (Unit {0}))
          → Ends
              (first (failure o ∷ failure st.build ∷ failure st.export ∷ failure st.checksum ∷ []))
              (clean keep (
                finish (
                  after with_context o (λ _.
                    after
                      (set_status (text "building") with_context)
                      st.build
                      (test_and_export st (set_status (text "building") with_context))))))
      prepared (err f) = fail-Ends f with_context same
      prepared (ok u) = builds st.build refl

module _ (keep : Bool) (st : Steps) (w : World) where
  -- A world with the columns that the build had, but for its status
  abbrev preparing : World
  preparing = record w { row = record w.row { status = text "preparing" } }

  abbrev pulling : World
  pulling = set_status (text "pulling") preparing

  stages-Ends :
      Ends keep st w.row (first (failures st w.row)) (clean keep (finish (stages st preparing)))
  unfolding stages set_status
  stages-Ends = flown st.preflight
    where
      rest : List (Option Failure)
      rest =
          failure st.prepare_context
          ∷ failure st.build
          ∷ failure st.export
          ∷ failure st.checksum
          ∷ []

      made :
          (digest : Option Str) (o : Result Failure (Str × List Str))
          → Ends keep st w.row (first (failure o ∷ rest)) (
              clean keep
                (finish (after pulling o (λ made. build_image st (with_base pulling digest made)))))
      made digest (err f) = fail-Ends keep st w.row f pulling (refl, refl, refl)
      made digest (ok (file, packages)) =
          build_image-Ends keep st w.row (with_base pulling digest (file, packages))
            (refl, refl, refl)

      resolved :
          (o : Result Failure (Option Str))
          → Ends keep st w.row (first (failure o ∷ generate_failure st w.row o ∷ rest)) (
              clean keep (
                finish (
                  after pulling o (λ digest.
                    after pulling
                      (generated st pulling.row digest)
                      (λ made. build_image st (with_base pulling digest made))))))
      resolved (err f) = fail-Ends keep st w.row f pulling (refl, refl, refl)
      resolved (ok digest) = made digest (generated st w.row digest)

      flown :
          (o : Result Failure (Unit {0}))
          → Ends keep st w.row
              (first (
                failure o
                ∷ failure st.resolve_base
                ∷ generate_failure st w.row st.resolve_base
                ∷ rest))
              (clean keep (
                finish (
                  after preparing o (λ _. after pulling st.resolve_base (λ digest.
                    after pulling
                      (generated st pulling.row digest)
                      (λ made. build_image st (with_base pulling digest made)))))))
      flown (err f) = fail-Ends keep st w.row f preparing (refl, refl, refl)
      flown (ok u) = resolved st.resolve_base

  -- The run of a queued build whose project exists ends with the status "failed" and the text of the first step
  -- that raises, cut to 4000 characters, and records no image and no export; or, if no step raises, with the
  -- status "ready", the image that was built and the export's path, size and checksum. The last message says
  -- that the run is done and with which status. The context is gone, unless the settings keep it.
  pub run-Ends :
      w.row.status ≡ text "queued"
      → Ends keep st w.row (first (failures st w.row)) (run keep true st w)
  unfolding run text
  run-Ends queued =
      let here : (w.row.status == text "queued") ≡ true =
        (==_iff w.row.status (text "queued")).1 queued in
      rw here stages-Ends
