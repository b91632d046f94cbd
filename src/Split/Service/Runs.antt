-- ===== src/Split/Service/Runs.antt =====
-- Runs of `SplitService`: at most one per build, and every one leaves its job finished.
use layersmith.Prelude.{
  ℕ, ◌≡◌, ◌≢◌, refl, ap, true, false, Option, none, some, ◌⊎◌, inl, inr, arith, Bool-cases, ◌==◌,
  ==_iff, nat_eq, list_eq, option_eq, ◌&&◌,
}
use layersmith.Prelude.Result.{Result, ok, err}
use layersmith.Prelude.Text.{Str, text}
use layersmith.Split.Manifest.{
  File, Manifest, Build, SplitError, changed, archive_name, current_manifest, is_set, or_empty,
}
use layersmith.Split.Service.{
  Service, Run, is_running, still_expected, start, start_build, start_file, begin, run_for,
  register, fail, commit, finish,
}

-- What `start` can give: nothing to do, with nothing changed, or a run of this build, whose job was
-- not running and is now.
abbrev pub Started : Service → Str → Service → Option Run → Type 0
Started s build_id t none = t ≡ s
Started s build_id t (some run) =
    (run.build_id ≡ build_id)
    × (is_running (s.jobs build_id) ≡ false)
    × (is_running (t.jobs build_id) ≡ true)
    × ((j : Str) → j ≢ build_id → t.jobs j ≡ s.jobs j)
    × (t.builds ≡ s.builds)
    × (t.disk ≡ s.disk)

register_lem :
    (s : Service) (run : Run) (f : File)
    → Started s run.build_id (register s run f).0 (register s run f).1
register_lem s run f = elim (Bool-cases (is_running (s.jobs run.build_id))) [
  | inl busy ↦ rw busy refl
  | inr free ↦ rw free (
    refl,
    free,
    rw ((==_iff run.build_id run.build_id).1 refl) refl,
    λ j n. ground (arith, ==_iff j run.build_id),
    refl,
    refl,
  )
]

-- How `start` came to its result: there was nothing to do, or it registered a run for a row that
-- is ready, with a checksum and a file on disk.
pub record Launch (configured : ℕ) (s : Service) (build_id : Str) (t : Service) (run : Option Run)
    : Type 0 where
  pub row : Build
  pub archive : Str
  pub file : File
  pub has_row : s.builds build_id ≡ some row
  pub is_ready :
      ((row.status == text "ready" && is_set row.export_path) && is_set row.export_sha256) ≡ true
  pub on_disk : s.disk (or_empty row.export_path) ≡ some file
  pub named : archive_name row ≡ ok archive
  pub result : register s (run_for configured build_id row archive) file ≡ (t, run)

pub start_cases :
    (configured : ℕ) (s t : Service) (build_id : Str) (run : Option Run)
    → start configured s build_id ≡ ok (t, run)
    → ((t ≡ s) × (run ≡ none)) ⊎ Launch configured s build_id t run
unfolding start
start_cases configured s t build_id run h = found (s.builds build_id) refl h
  where
    Cases : Type 0
    Cases = ((t ≡ s) × (run ≡ none)) ⊎ Launch configured s build_id t run

    stored :
        (b : Build) (f : File)
        → s.builds build_id ≡ some b
        → ((b.status == text "ready" && is_set b.export_path) && is_set b.export_sha256) ≡ true
        → s.disk (or_empty b.export_path) ≡ some f
        → (a : Result SplitError Str) (m : Option Manifest) → archive_name b ≡ a
        → begin configured s build_id b f a m ≡ ok (t, run)
        → Cases
    stored b f row good disk (err e) m named h = cc
    stored b f row good disk (ok archive) (some m) named h = inl (cc, cc)
    stored b f row good disk (ok archive) none named h = inr (record {
      row = b;
      archive = archive;
      file = f;
      has_row = row;
      is_ready = good;
      on_disk = disk;
      named = named;
      result = cc;
    })

    file :
        (b : Build)
        → s.builds build_id ≡ some b
        → ((b.status == text "ready" && is_set b.export_path) && is_set b.export_sha256) ≡ true
        → (f : Option File) → s.disk (or_empty b.export_path) ≡ f
        → start_file configured s build_id b f ≡ ok (t, run)
        → Cases
    file b row good none disk h = cc
    file b row good (some f) disk h =
        stored b f row good disk (archive_name b) (current_manifest s.disk b) refl h

    found :
        (b : Option Build)
        → s.builds build_id ≡ b
        → start_build configured s build_id b ≡ ok (t, run)
        → Cases
    found none row h = cc
    found (some b) row h =
        elim (Bool-cases
          ((b.status == text "ready" && is_set b.export_path) && is_set b.export_sha256)) [
            | inl good ↦ file b row good (s.disk (or_empty b.export_path)) refl (rw good at h)
            | inr bad ↦ cc (rw bad at h)
          ]

-- `start` of a build gives no second run while one is going on: either nothing is changed and no
-- thread starts, or the build had no running job and has one now, and nothing else has changed.
pub start-Started :
    (configured : ℕ) (s t : Service) (build_id : Str) (run : Option Run)
    → start configured s build_id ≡ ok (t, run)
    → Started s build_id t run
start-Started configured s t build_id run h = elim (start_cases configured s t build_id run h) [
  | inl nothing ↦ rw (nothing.0, nothing.1) refl
  | inr l ↦
      let r = run_for configured build_id l.row l.archive in
      let p : (register s r l.file).0 ≡ t = ap (λ x. x.0) l.result in
      let q : (register s r l.file).1 ≡ run = ap (λ x. x.1) l.result in
      rw (← p, ← q) (register_lem s r l.file)
]

module _ (s : Service) (run : Run) where
  -- The build's row is as it was, or it still is the row that was split, and only its manifest is new.
  abbrev SameOrStored : Service → Option Build → Type 0
  SameOrStored t none = t.builds run.build_id ≡ none
  SameOrStored t (some b) =
      (t.builds run.build_id ≡ some b)
      ⊎ ((m : Manifest) × (b.export_sha256 ≡ some run.expected)
          × (or_empty b.export_path ≡ run.path)
          × (t.builds run.build_id
              ≡ some (record b { export_parts = some (record m { image_ref = run.image }) })))

  -- What is left alone by the end of a run: the disk, the jobs and rows of other builds, and every
  -- column of the row itself but the manifest.
  pub record OnlyItsBuild (t : Service) : Type 0 where
    pub disk : t.disk ≡ s.disk
    pub jobs : (j : Str) → j ≢ run.build_id → t.jobs j ≡ s.jobs j
    pub rows : (j : Str) → j ≢ run.build_id → t.builds j ≡ s.builds j
    pub ended : is_running (t.jobs run.build_id) ≡ false
    pub row : SameOrStored t (s.builds run.build_id)

  unchanged : (b : Option Build) → s.builds run.build_id ≡ b → SameOrStored (fail s run changed) b
  unchanged none e = e
  unchanged (some b) e = inl e

  fail_lem : (e : SplitError) → OnlyItsBuild (fail s run e)
  fail_lem e = record {
    disk = refl;
    jobs = λ j n. ground (arith, ==_iff j run.build_id);
    rows = λ j n. refl;
    ended = rw ((==_iff run.build_id run.build_id).1 refl) refl;
    row = unchanged (s.builds run.build_id) refl;
  }

  commit_lem :
      (m : Manifest) (b : Option Build)
      → s.builds run.build_id ≡ b
      → OnlyItsBuild (commit s run m b)
  commit_lem m none e = fail_lem changed
  commit_lem m (some b) e = elim (Bool-cases (still_expected run (some b))) [
    | inl same ↦ rw same (record {
      disk = refl;
      jobs = λ j n. ground (arith, ==_iff j run.build_id);
      rows = λ j n. ground (arith, ==_iff j run.build_id);
      ended = rw ((==_iff run.build_id run.build_id).1 refl) refl;
      row = rw e (
          inr (
            m,
            ground (arith, ==_iff b.export_sha256 (some run.expected)),
            ground (arith, ==_iff (or_empty b.export_path) run.path),
            rw ((==_iff run.build_id run.build_id).1 refl) refl,
          ));
    })
    | inr moved ↦ rw moved (fail_lem changed)
  ]

  -- However `compute` ends, the build's job is no longer running after the run, and the jobs and rows of
  -- other builds and the disk are as they were.
  pub finish-OnlyItsBuild : (r : Result SplitError Manifest) → OnlyItsBuild (finish s run r)
  unfolding finish
  finish-OnlyItsBuild (err e) = fail_lem e
  finish-OnlyItsBuild (ok m) = commit_lem m (s.builds run.build_id) refl
