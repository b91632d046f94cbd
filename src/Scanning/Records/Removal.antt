-- ===== src/Scanning/Records/Removal.antt =====
-- Removing the scans of a build, and what a restart does to scans that it interrupted.
use layersmith.Prelude.{
  ◌≡◌, ◌≢◌, refl, ap, subst, ◌∙◌, false, Option, none, some, List, [], ◌∷◌, ◌++◌, ◌||◌, map, ◌==◌,
  nat_eq, list_eq, list_beq, contains, if◌then◌else◌, Bool-cases, inl, inr, arith,
}
use layersmith.Prelude.Result.{Result, ok, err}
use layersmith.Prelude.Text.{Str, text}
use layersmith.Prelude.Map.{Map}
use layersmith.Split.Stream.{Bytes}
use layersmith.Scanning.Archive.{filled}
use layersmith.Scanning.Records.{
  Scan, Store, scan_active_states, is_active, fail_interrupted, recover_interrupted, unlink,
  delete_artifacts, any_active, delete_each, RemovalError, still_running, delete_for_build,
}

abbrev pub one : Option Str → List Str
one none = []
one (some path) = path ∷ []

-- The report and the SBOM of a scan, and those of all scans of a build
abbrev artifacts_of : Scan → List Str
artifacts_of s = one (filled s.sbom_path) ++ one (filled s.report_path)

abbrev artifacts : Str → List Scan → List Str
artifacts build_id [] = []
artifacts build_id (s ∷ ss) =
    let rest = artifacts build_id ss in
    if s.build_id == build_id then rest ++ artifacts_of s else rest

abbrev pub others : Str → List Scan → List Scan
others build_id [] = []
others build_id (s ∷ ss) =
    let rest = others build_id ss in if s.build_id == build_id then rest else s ∷ rest

-- The disk without these paths
abbrev pub without : List Str → Map Str Bytes → Str → Option Bytes
without paths disk path = if contains paths path then none else disk path

contains-append :
    (xs ys : List Str) (a : Str) → contains (xs ++ ys) a ≡ (contains xs a || contains ys a)
contains-append [] ys a = refl
contains-append (x ∷ xs) ys a = ground (arith, contains-append xs ys a)

unlink_lem :
    (disk : Map Str Bytes) (p : Option Str) (path : Str)
    → unlink disk p path ≡ without (one p) disk path
unlink_lem disk none path = refl
unlink_lem disk (some q) path = elim (Bool-cases (path == q)) [
  | inl same ↦ rw same refl
  | inr other ↦ rw other refl
]

without-append :
    (xs ys : List Str) (disk : Map Str Bytes) (path : Str)
    → (if contains xs path then none else without ys disk path) ≡ without (xs ++ ys) disk path
without-append xs ys disk path = elim (Bool-cases (contains xs path)) [
  | inl first ↦ rw (contains-append xs ys path, first) refl
  | inr later ↦ rw (contains-append xs ys path, later) refl
]

delete_artifacts_lem :
    (disk : Map Str Bytes) (s : Scan) (path : Str)
    → delete_artifacts disk s path ≡ without (artifacts_of s) disk path
delete_artifacts_lem disk s path =
    let sbom = filled s.sbom_path in
    let report = filled s.report_path in
    unlink_lem (unlink disk report) sbom path
    ∙ ap (λ f. if contains (one sbom) path then none else f) (unlink_lem disk report path)
    ∙ without-append (one sbom) (one report) disk path

delete_each_lem :
    (build_id : Str) (xs : List Scan) (s : Store)
    → ((delete_each build_id s xs).scans ≡ others build_id xs)
      × ((path : Str)
          → (delete_each build_id s xs).disk path ≡ without (artifacts build_id xs) s.disk path)
delete_each_lem build_id [] s = (refl, λ path. refl)
delete_each_lem build_id (x ∷ xs) s =
    let (gone, gone_disk) =
      delete_each_lem build_id xs (record s { disk = delete_artifacts s.disk x }) in
    let (kept, kept_disk) = delete_each_lem build_id xs s in
    elim (Bool-cases (x.build_id == build_id)) [
      | inr other ↦ rw other (ap (λ l. x ∷ l) kept, λ path. kept_disk path)
      | inl mine ↦ rw mine (
        gone,
        λ path.
            gone_disk path
            ∙ ap (λ f. if contains (artifacts build_id xs) path then none else f)
                (delete_artifacts_lem s.disk x path)
            ∙ without-append (artifacts build_id xs) (artifacts_of x) s.disk path,
      )
    ]

-- When the scans of a build are deleted, the table keeps the scans of other builds, in order, and the
-- disk is as before but for the reports and SBOMs of the build's scans, which are gone.
delete_for_build_lem :
    (s t : Store) (build_id : Str)
    → delete_for_build s build_id ≡ ok t
    → (t.scans ≡ others build_id s.scans)
      × ((path : Str)
          → t.disk path
            ≡ (if contains (artifacts build_id s.scans) path then none else s.disk path))
unfolding delete_for_build
delete_for_build_lem s t build_id h = elim (Bool-cases (any_active build_id s.scans)) [
  | inl active ↦ absurd (err_ok (rw active at h))
  | inr idle ↦
      subst
        (λ (x : Store).
          (x.scans ≡ others build_id s.scans)
          × ((path : Str) → x.disk path ≡ without (artifacts build_id s.scans) s.disk path))
        (injective (rw idle at h)) (delete_each_lem build_id s.scans s)
]
  where
    err_ok : ◌≢◌ {A = Result RemovalError Store} (err still_running) (ok t)
    err_ok e = cc

    injective : {x : Store} → ◌≡◌ {A = Result RemovalError Store} (ok x) (ok t) → x ≡ t
    injective e = cc

fail_interrupted-is_active : (s : Scan) → is_active (fail_interrupted s) ≡ false
unfolding scan_active_states text list_beq
fail_interrupted-is_active s = elim (Bool-cases (is_active s)) [
  | inl active ↦ rw active refl
  | inr idle ↦ rw idle idle
]

recovered :
    (build_id : Str) (ss : List Scan) → any_active build_id (map fail_interrupted ss) ≡ false
recovered build_id [] = refl
recovered build_id (s ∷ ss) =
    rw (fail_interrupted-is_active s) (ground (arith, recovered build_id ss))

-- After a restart no scan keeps a build from being deleted.
recover_interrupted-delete_for_build :
    (s : Store) (build_id : Str)
    → delete_for_build (recover_interrupted s) build_id ≢ err still_running
unfolding delete_for_build recover_interrupted
recover_interrupted-delete_for_build s build_id = rw (recovered build_id s.scans) (λ e. cc)
