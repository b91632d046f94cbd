-- ===== src/Scanning/Run/Ended.antt =====
-- How a scan ends.
use layersmith.Prelude.{
  ℕ, ◌≡◌, ◌≢◌, refl, ap, subst, ==_differ, contains, All, Bool-cases, inl, inr, true, Option, none,
  some, List, [], ◌∷◌, ◌==◌, ==_iff, nat_eq, list_eq, take,
}
use layersmith.Prelude.Result.{Result, ok, err, ok-apart}
use layersmith.Prelude.Text.{Str, text}
use layersmith.Builds.Run.{Failure, message}
use layersmith.Builds.Run.Outcome.{failure, first}
use layersmith.Scanning.Archive.{Source}
use layersmith.Scanning.Run.{
  Scanned, Scan, Refused, supported_of, is_finished, wanted_kinds, create, ScanSteps, fail,
  scan_then, sbom_of, completed, set_scanning, scan_stages, end_scan, run,
}

-- The step after a result that was returned, by what it raises
abbrev then_failure : {A B : Type 0} → Result Failure A → (A → Result Failure B) → Option Failure
then_failure (err f) k = none
then_failure (ok a) k = failure (k a)

abbrev write_failure :
    ScanSteps → Result Failure Scanned → Result Failure (Option ℕ) → Option Failure
write_failure st (err f) sbom = none
write_failure st (ok r) sbom = then_failure sbom (st.write r)

-- The steps of a scan, in their order, by what each of them raises
abbrev pub scan_failures : ScanSteps → Scan → List (Option Failure)
scan_failures st scan =
    failure st.archive_for
    ∷ failure (st.scan_image scan.kinds)
    ∷ failure (sbom_of st)
    ∷ write_failure st (st.scan_image scan.kinds) (sbom_of st)
    ∷ []

-- What the row says of a scan whose first failure is given
abbrev pub IsEnded : ScanSteps → Scan → Option Failure → Scan → Type 0
IsEnded st before (some f) scan =
    (scan.state ≡ text "failed")
    × (scan.error ≡ some (take 2000 (message f)))
    × (scan.recorded ≡ before.recorded)
IsEnded st before none scan =
    (scan.state ≡ text "completed")
    × (scan.error ≡ before.error)
    × ((source : Source) × (r : Scanned) × (sbom : Option ℕ) × (st.archive_for ≡ ok source)
        × (st.scan_image before.kinds ≡ ok r)
        × (sbom_of st ≡ ok sbom)
        × (scan.archive_source ≡ some source)
        × (scan.recorded ≡ some (r, sbom)))

module _ (st : ScanSteps) (scan : Scan) where
  abbrev exporting : Scan
  exporting = record scan { state = text "exporting" }

  scan_stages-IsEnded :
      IsEnded st scan (first (scan_failures st scan)) (end_scan (scan_stages st exporting))
  unfolding scan_stages fail
  scan_stages-IsEnded = archived st.archive_for refl
    where
      written :
          (source : Source)
          → st.archive_for ≡ ok source
          → (r : Scanned) → st.scan_image scan.kinds ≡ ok r
          → (sbom : Option ℕ) → sbom_of st ≡ ok sbom
          → (o : Result Failure (Unit {0}))
          → IsEnded st scan (first (failure o ∷ [])) (
              end_scan (
                scan_then
                  (set_scanning exporting source)
                  o
                  (λ _. (completed (set_scanning exporting source) r sbom, ok tt))))
      written source a r b sbom c (err f) = (refl, refl, refl)
      written source a r b sbom c (ok u) = (refl, refl, (source, r, sbom, a, b, c, refl, refl))

      described :
          (source : Source)
          → st.archive_for ≡ ok source
          → (r : Scanned) → st.scan_image scan.kinds ≡ ok r
          → (o : Result Failure (Option ℕ)) → sbom_of st ≡ o
          → IsEnded st scan (first (failure o ∷ then_failure o (st.write r) ∷ [])) (
              end_scan (
                scan_then (set_scanning exporting source) o (λ sbom.
                  scan_then
                    (set_scanning exporting source)
                    (st.write r sbom)
                    (λ _. (completed (set_scanning exporting source) r sbom, ok tt)))))
      described source a r b (err f) c = (refl, refl, refl)
      described source a r b (ok sbom) c = written source a r b sbom c (st.write r sbom)

      scanned :
          (source : Source)
          → st.archive_for ≡ ok source
          → (o : Result Failure Scanned) → st.scan_image scan.kinds ≡ o
          → IsEnded st scan
              (first (failure o ∷ failure (sbom_of st) ∷ write_failure st o (sbom_of st) ∷ []))
              (end_scan (
                scan_then (set_scanning exporting source) o (λ r.
                  scan_then (set_scanning exporting source) (sbom_of st) (λ sbom.
                    scan_then
                      (set_scanning exporting source)
                      (st.write r sbom)
                      (λ _. (completed (set_scanning exporting source) r sbom, ok tt))))))
      scanned source a (err f) b = (refl, refl, refl)
      scanned source a (ok r) b = described source a r b (sbom_of st) refl

      archived :
          (o : Result Failure Source)
          → st.archive_for ≡ o
          → IsEnded st scan
              (first (
                failure o
                ∷ failure (st.scan_image scan.kinds)
                ∷ failure (sbom_of st)
                ∷ write_failure st (st.scan_image scan.kinds) (sbom_of st)
                ∷ []))
              (end_scan (
                scan_then exporting o (λ source.
                  scan_then (set_scanning exporting source) (st.scan_image scan.kinds) (λ r.
                    scan_then (set_scanning exporting source) (sbom_of st) (λ sbom.
                      scan_then
                        (set_scanning exporting source)
                        (st.write r sbom)
                        (λ _. (completed (set_scanning exporting source) r sbom, ok tt)))))))
      archived (err f) a = (refl, refl, refl)
      archived (ok source) a = scanned source a (st.scan_image scan.kinds) refl

  run-IsEnded :
      scan.state ≡ text "queued" → IsEnded st scan (first (scan_failures st scan)) (run st scan)
  unfolding run text
  run-IsEnded queued =
      let here : (scan.state == text "queued") ≡ true =
        (==_iff scan.state (text "queued")).1 queued in
      rw here scan_stages-IsEnded

supported_of-All :
    (supported_kinds ks : List Str)
    → All (λ k. contains supported_kinds k ≡ true) (supported_of supported_kinds ks)
unfolding supported_of
supported_of-All supported_kinds [] = tt
supported_of-All supported_kinds (k ∷ ks) = elim (Bool-cases (contains supported_kinds k)) [
  | inl known ↦ rw known (known, supported_of-All supported_kinds ks)
  | inr other ↦ rw other (supported_of-All supported_kinds ks)
]

finished_build :
    (build_status : Option Str)
    → is_finished build_status ≡ true
    → build_status ≡ some (text "ready")
finished_build none h = absurd cc
finished_build (some s) h = ap some ((==_iff s (text "ready")).0 h)

-- What a scan that was created says of the scanner and of the build
abbrev pub IsCreated : Option Str → List Str → Option Str → Scan → Type 0
IsCreated unavailable_detail supported_kinds build_status scan =
    (unavailable_detail ≡ none)
    × (build_status ≡ some (text "ready"))
    × (scan.state ≡ text "queued")
    × (scan.recorded ≡ none)
    × (scan.kinds ≢ [])
    × All (λ k. contains supported_kinds k ≡ true) scan.kinds

create-IsCreated :
    (unavailable_detail : Option Str) (supported_kinds scan_kinds : List Str)
    (build_status : Option Str) (build_id : Str) (kinds : List Str) (scan : Scan)
    → create unavailable_detail supported_kinds scan_kinds build_status build_id kinds ≡ ok scan
    → IsCreated unavailable_detail supported_kinds build_status scan
unfolding create
create-IsCreated (some detail) supported_kinds scan_kinds build_status build_id kinds scan h =
    absurd cc
create-IsCreated none supported_kinds scan_kinds build_status build_id kinds scan h =
    let wanted = wanted_kinds kinds scan_kinds in
    elim (Bool-cases (supported_of supported_kinds wanted == [])) [
      | inl nothing ↦ absurd (no_scan (rw nothing at h))
      | inr some_kinds ↦ elim (Bool-cases (is_finished build_status)) [
        | inr unready ↦ absurd (no_scan (rw (some_kinds, unready) at h))
        | inl finished ↦
            subst (IsCreated none supported_kinds build_status)
              (ok-apart (rw (some_kinds, finished) at h))
              (
                refl,
                finished_build build_status finished,
                refl,
                refl,
                ==_differ (supported_of supported_kinds wanted) [] some_kinds,
                supported_of-All supported_kinds wanted,
              )
      ]
    ]
  where
    no_scan : {e : Refused} → ◌≢◌ {A = Result Refused Scan} (err e) (ok scan)
    no_scan e = cc

-- A scan is only created of a build that is ready, with a scanner that is available, and for kinds that it supports,
-- one at least. Its run ends with the state "failed" and the text of the first step that raises, cut to 2000
-- characters, and nothing recorded; or, if no step raises, with the state "completed", the source of the
-- archive, and what the scanner returned.
pub run-create :
    (unavailable_detail : Option Str) (supported_kinds scan_kinds : List Str)
    (build_status : Option Str) (build_id : Str) (kinds : List Str) (scan : Scan) (st : ScanSteps)
    → create unavailable_detail supported_kinds scan_kinds build_status build_id kinds ≡ ok scan
    → IsCreated unavailable_detail supported_kinds build_status scan
      × IsEnded st scan (first (scan_failures st scan)) (run st scan)
run-create unavailable_detail supported_kinds scan_kinds build_status build_id kinds scan st h =
    let (available, finished, queued, nothing, some_kinds, supported) =
      create-IsCreated unavailable_detail supported_kinds scan_kinds build_status build_id kinds
        scan h in
    ((available, finished, queued, nothing, some_kinds, supported), run-IsEnded st scan queued)
