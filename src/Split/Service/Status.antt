-- ===== src/Split/Service/Status.antt =====
-- What `status` says of a build, and the whole course of a split that nothing disturbs.
use layersmith.Prelude.{
  ℕ, ◌≡◌, refl, sym, ap, ◌∙◌, Bool, true, false, Option, none, some, List, inl, inr, arith,
  Bool-cases, ◌==◌, ==_iff, nat_eq, list_eq, option_eq, ◌&&◌, length, if◌then◌else◌,
}
use layersmith.Prelude.Result.{ok}
use layersmith.Prelude.Text.{Str, text}
use layersmith.Prelude.Map.{put, erase}
use layersmith.Split.Hash.Whole.{describe}
use layersmith.Split.Plan.{Range, part_size}
use layersmith.Split.Stream.{Bytes}
use layersmith.Split.Manifest.{
  File, Manifest, Build, archive_name, current_manifest, is_set, or_empty, host_install_of, compute,
}
use layersmith.Split.Manifest.Compute.{still, compute-still}
use layersmith.Split.Service.{
  Service, Job, Run, is_running, start, run_for, finish, answer, Answer, idle, progressing, ready,
  broken, status, report, is_file, or_zero,
}
use layersmith.Split.Service.Runs.{Launch, start_cases}
use layersmith.Split.Service.Current.{
  and_false, is_set-some, part_size-pos, DescribesFile, current_sound, archive_name_ok,
  current_complete, is_current-still,
}

module _ (script_size : Manifest → ℕ) (configured : ℕ) where
  report_answer :
      (size total : ℕ) (b : Build) (available : Bool) (a : Answer)
      → (report script_size size total b available a).answer ≡ a
  report_answer size total b available idle = refl
  report_answer size total b available (progressing i n) = refl
  report_answer size total b available (ready m) = refl
  report_answer size total b available (broken e) = refl

  abbrev is_available : Service → Build → Bool
  is_available s b =
      (b.status == text "ready" && is_set b.export_path)
      && is_file (s.disk (or_empty b.export_path))

  abbrev manifest_of : Service → Build → Option Manifest
  manifest_of s b = if is_available s b then current_manifest s.disk b else none

  status_answer :
      (s : Service) (build_id : Str) (b : Build)
      → (status script_size configured s build_id b).answer
        ≡ answer (s.jobs build_id) (manifest_of s b)
  unfolding status
  status_answer s build_id b =
      report_answer (part_size configured) (or_zero b.export_size) b (is_available s b)
        (answer (s.jobs build_id) (manifest_of s b))

  answer_ready :
      (j : Option Job) (k : Option Manifest) (m : Manifest)
      → answer j k ≡ ready m
      → (k ≡ some m) × (is_running j ≡ false)
  answer_ready none none m h = cc
  answer_ready none (some k) m h = (cc, refl)
  answer_ready (some j) k m h = ground arith

  -- `status` reports a manifest only while no run is going on, for a build that is ready, and
  -- only one that describes the file that is on disk now: the file's size and time are the manifest's, and the
  -- row's checksum and archive name are the manifest's.
  pub status_sound :
      (s : Service) (build_id : Str) (b : Build) (m : Manifest)
      → (status script_size configured s build_id b).answer ≡ ready m
      → (is_running (s.jobs build_id) ≡ false) × (b.status ≡ text "ready") × DescribesFile s b m
  status_sound s build_id b m h =
      let (found, free) =
        answer_ready (s.jobs build_id) (manifest_of s b) m (sym (status_answer s build_id b) ∙ h) in
      elim (Bool-cases (is_available s b)) [
        | inl good ↦ (
          free,
          ground (arith, ==_iff b.status (text "ready")),
          current_sound s b m (rw good at found),
        )
        | inr bad ↦ cc (rw bad at found)
      ]

  module _ (sha256 : Bytes → Str) (now : Str) (t : Service) (build_id : Str) (b : Build)
      (archive : Str) (f : File) (row : t.builds build_id ≡ some b)
      (good : ((b.status == text "ready" && is_set b.export_path) && is_set b.export_sha256) ≡ true)
      (disk : t.disk (or_empty b.export_path) ≡ some f) (named : archive_name b ≡ ok archive)
      (sum : sha256 f.bytes ≡ or_empty b.export_sha256) where
    abbrev the_run : Run
    the_run = run_for configured build_id b archive

    path_set : is_set b.export_path ≡ true
    path_set = ground arith

    sum_set : b.export_sha256 ≡ some (or_empty b.export_sha256)
    sum_set = is_set-some b.export_sha256 (ground arith)

    abbrev the_manifest : List Range → Manifest
    the_manifest rs = record {
      archive = archive;
      archive_size = length f.bytes;
      archive_mtime_ns = f.mtime_ns;
      archive_sha256 = sha256 f.bytes;
      part_size = part_size configured;
      parts = describe sha256 archive (length rs) f.bytes 0 rs;
      created_at = now;
      image_ref = none;
      host_install = none;
    }

    computed :
        (rs : List Range) × (compute sha256 archive
            (some (or_empty b.export_sha256))
            (part_size configured)
            now
            (still f)
          ≡ some (ok (the_manifest rs)))
    computed =
        let (rs, planned, e) =
          compute-still sha256 archive (some (or_empty b.export_sha256)) (part_size configured) now
            f (part_size-pos configured) in
        let same : (sha256 f.bytes == or_empty b.export_sha256) ≡ true =
          (==_iff (sha256 f.bytes) (or_empty b.export_sha256)).1 sum in
        (rs, rw (same, and_false) at e)

    module _ (rs : List Range) where
      abbrev the_row : Build
      the_row = record b {
        export_parts = some (record (the_manifest rs) { image_ref = b.image_ref });
      }

      abbrev the_end : Service
      the_end = finish t the_run (ok (the_manifest rs))

      finish-the_run :
          the_end
          ≡ record t { jobs = erase t.jobs build_id; builds = put t.builds build_id the_row }
      unfolding finish
      finish-the_run =
          let p = (==_iff b.export_sha256 (some (or_empty b.export_sha256))).1 sum_set in
          let q = (==_iff (or_empty b.export_path) (or_empty b.export_path)).1 refl in
          rw (row, p, q) refl

      stored_row : the_end.builds build_id ≡ some the_row
      stored_row = rw finish-the_run (rw ((==_iff build_id build_id).1 refl) refl)

      current :
          current_manifest t.disk the_row
          ≡ some (record (the_manifest rs) {
            image_ref = b.image_ref;
            host_install = host_install_of the_row;
          })
      current =
          let k : Manifest = record (the_manifest rs) { image_ref = b.image_ref } in
          current_complete t.disk the_row k f refl path_set disk (
            is_current-still the_row k f (archive_name_ok b archive named)
              (sum_set ∙ ap some (sym sum)) refl refl)

      abbrev after : Service
      after = record t { jobs = erase t.jobs build_id; builds = put t.builds build_id the_row }

      available : is_available after the_row ≡ true
      available = rw disk (ground arith)

      reported :
          (status script_size configured after build_id the_row).answer
          ≡ ready (record (the_manifest rs) {
            image_ref = b.image_ref;
            host_install = host_install_of the_row;
          })
      reported =
          status_answer after build_id the_row
          ∙ rw ((==_iff build_id build_id).1 refl) (rw (available, current) refl)

      again : start configured after build_id ≡ ok (after, none)
      unfolding start
      again = rw ((==_iff build_id build_id).1 refl) (rw good (rw disk (rw (named, current) refl)))

      cycle :
          (the_end.builds build_id ≡ some the_row)
          × ((status script_size configured the_end build_id the_row).answer
              ≡ ready (record (the_manifest rs) {
                image_ref = b.image_ref;
                host_install = host_install_of the_row;
              }))
          × (start configured the_end build_id ≡ ok (the_end, none))
      cycle = (stored_row, rw finish-the_run reported, rw finish-the_run again)

  -- A run that `start` gives is the one for the row, and it left rows and disk as they were.
  launched_run :
      (s t : Service) (build_id : Str) (run : Run) (l : Launch configured s build_id t (some run))
      → (run_for configured build_id l.row l.archive ≡ run)
        × (t.builds ≡ s.builds)
        × (t.disk ≡ s.disk)
  launched_run s t build_id run l = elim (Bool-cases (is_running (s.jobs build_id))) [
    | inl busy ↦ cc (rw busy at l.result)
    | inr free ↦
        let r = run_for configured build_id l.row l.archive in
        let e = rw free at l.result in
        (ground arith, sym (ap (λ x. x.0.builds) e), sym (ap (λ x. x.0.disk) e))
  ]

  -- After `start` has given a run, and if nobody touches the build or its archive, and the archive
  -- has the recorded checksum: `compute` returns a manifest, and once the run has ended `status`
  -- reports that manifest as ready, and another `start` finds nothing to do.
  pub split_cycle :
      (sha256 : Bytes → Str) (now : Str) (s t : Service) (build_id : Str) (run : Run) (f : File)
      → start configured s build_id ≡ ok (t, some run)
      → t.disk run.path ≡ some f
      → sha256 f.bytes ≡ run.expected
      → (m : Manifest) × (b : Build) × (compute sha256 run.archive
            (some run.expected)
            run.size
            now
            (still f)
          ≡ some (ok m))
        × ((finish t run (ok m)).builds build_id ≡ some b)
        × ((status script_size configured (finish t run (ok m)) build_id b).answer
            ≡ ready (record m { image_ref = run.image; host_install = host_install_of b }))
        × (start configured (finish t run (ok m)) build_id ≡ ok (finish t run (ok m), none))
  split_cycle sha256 now s t build_id run f started disk sum =
      elim (start_cases configured s t build_id (some run) started) [
        | inl nothing ↦ cc (nothing.1)
        | inr l ↦ undisturbed l (launched_run s t build_id run l)
      ]
    where
      undisturbed :
          (l : Launch configured s build_id t (some run))
          → (run_for configured build_id l.row l.archive ≡ run)
            × (t.builds ≡ s.builds)
            × (t.disk ≡ s.disk)
          → (m : Manifest) × (b : Build) × (compute sha256 run.archive
                (some run.expected)
                run.size
                now
                (still f)
              ≡ some (ok m))
            × ((finish t run (ok m)).builds build_id ≡ some b)
            × ((status script_size configured (finish t run (ok m)) build_id b).answer
                ≡ ready (record m { image_ref = run.image; host_install = host_install_of b }))
            × (start configured (finish t run (ok m)) build_id ≡ ok (finish t run (ok m), none))
      undisturbed l (same, rows, disks) =
          let row : t.builds build_id ≡ some l.row = rw rows l.has_row in
          let found : t.disk (or_empty l.row.export_path) ≡ some f =
            ap (λ (r : Run). t.disk r.path) same ∙ disk in
          let checked : sha256 f.bytes ≡ or_empty l.row.export_sha256 =
            sum ∙ ap (λ (r : Run). r.expected) (sym same) in
          let (rs, e) =
            computed sha256 now t build_id l.row l.archive f row l.is_ready found l.named checked in
          let (stored, reported, again) =
            cycle sha256 now t build_id l.row l.archive f row l.is_ready found l.named checked rs in
          rw (← same) (
            the_manifest sha256 now t build_id l.row l.archive f row l.is_ready found l.named
                checked rs,
            the_row sha256 now t build_id l.row l.archive f row l.is_ready found l.named checked rs,
            e,
            stored,
            reported,
            again,
          )
