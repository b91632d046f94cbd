-- ===== src/Models/Service/Run/Retried.antt =====
-- Runs of a model whose folder is there already.
use layersmith.Prelude.{
  ℕ, ◌+◌, ◌-◌, ◌≡◌, ◌≢◌, refl, sym, subst, ◌∙◌, inl, inr, false, ◌||◌, Option, none, some, List, [],
  ◌∷◌, Bool-cases, ltb, ◌==◌, ==_apart, nat_eq, list_eq, contains,
}
use layersmith.Prelude.Result.{Result, ok, err}
use layersmith.Prelude.Text.{Str, text}
use layersmith.Split.Stream.{Bytes}
use layersmith.Split.Manifest.{Disk}
use layersmith.Vtar.{Info}
use layersmith.Models.Files.{ModelFile}
use layersmith.Models.Download.{Stop, cancelled, model_error, os_error, cut_short, killed}
use layersmith.Models.Service.{LlmModel, Models, get, set, sum_of, in_dir, staging_dir}
use layersmith.Models.Service.Rows.{some-apart, get-id}
use layersmith.Models.Service.Run.{
  Surroundings, Meanwhile, nothing, deleted, deleted_late, killed_late, headroom, already,
  download_all, verify_all, made, begin, staged, settle, delete_if, unless_cancelled, after_verify,
  after_download, attempt, run_row, run, recover,
}
use layersmith.Models.Service.Run.Stuck.{
  IsStuck, get-requeue, set-IsStuck, staged-IsStuck, delete-IsStuck,
}

module _ (sha256 sha1 : Bytes → Str) (header : Info → Bytes) (configured : ℕ)
    (resolve : Str → List Str) (model_dir : Str) where
  module _ (m : LlmModel)
      (apart : (in_dir model_dir m.name == staging_dir model_dir m.id) ≡ false) where
    abbrev Stuck : Models → Type 0
    Stuck = IsStuck model_dir m.id m.name

    unless_cancelled-IsStuck :
        (disk : Disk) (fs : List ModelFile) (done : ℕ) (meanwhile : Meanwhile) (s : Models)
        → Stuck s
        → Stuck
            (unless_cancelled sha256 sha1 header configured resolve model_dir m disk fs done
              meanwhile s).1
    unless_cancelled-IsStuck disk fs done meanwhile s stuck =
        elim (Bool-cases (contains s.cancel m.id)) [
          | inl stop ↦ rw stop stuck
          | inr on ↦ rw (on, stuck.taken) stuck
        ]

    after_verify-IsStuck :
        (meanwhile : Meanwhile) (s : Models) (r : Result Stop (List ModelFile)) (after : Disk)
        → Stuck s
        → Stuck
            (after_verify sha256 sha1 header configured resolve model_dir m
              (sum_of m.files)
              meanwhile
              s
              (r, after)).1
    after_verify-IsStuck meanwhile s (err stop) after stuck =
        staged-IsStuck model_dir m.id m.name apart after s stuck
    after_verify-IsStuck meanwhile s (ok fs) after stuck =
        let here = staged-IsStuck model_dir m.id m.name apart after s stuck in
        unless_cancelled-IsStuck after fs (sum_of m.files) meanwhile
          (delete_if resolve model_dir meanwhile m.id (staged model_dir m after s))
          (later meanwhile here)
      where
        later :
            (w : Meanwhile)
            → Stuck (staged model_dir m after s)
            → Stuck (delete_if resolve model_dir w m.id (staged model_dir m after s))
        later nothing here = here
        later deleted here =
            delete-IsStuck model_dir m.id m.name apart resolve (staged model_dir m after s) here
        later deleted_late here = here
        later killed_late here = here

    after_download-IsStuck :
        (w : Surroundings) (s : Models) (r : Result Stop (Unit {0})) (disk : Disk)
        → Stuck s
        → Stuck (after_download sha256 sha1 header configured resolve model_dir w m s (r, disk)).1
    unfolding text
    after_download-IsStuck w s (err cancelled) disk stuck =
        delete-IsStuck model_dir m.id m.name apart resolve (staged model_dir m disk s)
          (staged-IsStuck model_dir m.id m.name apart disk s stuck)
    after_download-IsStuck w s (err (model_error e)) disk stuck =
        staged-IsStuck model_dir m.id m.name apart disk s stuck
    after_download-IsStuck w s (err (os_error e)) disk stuck =
        staged-IsStuck model_dir m.id m.name apart disk s stuck
    after_download-IsStuck w s (err (cut_short have size)) disk stuck =
        staged-IsStuck model_dir m.id m.name apart disk s stuck
    after_download-IsStuck w s (err killed) disk stuck =
        staged-IsStuck model_dir m.id m.name apart disk s stuck
    after_download-IsStuck w s (ok done) disk stuck =
        let change =
          λ (r : LlmModel). record r { status = text "verifying"; done_bytes = sum_of m.files } in
        let here = staged-IsStuck model_dir m.id m.name apart disk s stuck in
        after_verify-IsStuck w.meanwhile (set m.id change (staged model_dir m disk s))
          (verify_all sha256 sha1 disk m.files).0 (verify_all sha256 sha1 disk m.files).1
          (set-IsStuck model_dir m.id m.name apart (text "verifying") change
            (staged model_dir m disk s) (λ r. refl) (λ e. cc) here)

    attempt-IsStuck :
        (w : Surroundings) (s : Models) (disk : Disk)
        → Stuck s
        → Stuck (attempt sha256 sha1 header configured resolve model_dir w m s disk).1
    attempt-IsStuck w s disk stuck =
        let here = staged-IsStuck model_dir m.id m.name apart disk s stuck in
        elim (Bool-cases (ltb w.free ((sum_of m.files - already disk m.files) + headroom))) [
          | inl full ↦ rw full here
          | inr room ↦ rw room (
              after_download-IsStuck w (staged model_dir m disk s) (download_all w disk m.files).0
                (download_all w disk m.files).1 here)
        ]

    failed-IsStuck :
        (stop : Stop) (s : Models)
        → Stuck s
        → Stuck (set m.id (λ r. record r { status = text "failed"; error = some stop }) s)
    unfolding text
    failed-IsStuck stop s stuck =
        set-IsStuck model_dir m.id m.name apart (text "failed")
          (λ r. record r { status = text "failed"; error = some stop }) s (λ r. refl) (λ e. cc)
          stuck

    with_queues :
        (queue cancel : List Str) (s : Models)
        → Stuck s
        → Stuck (record s { queue = queue; cancel = cancel })
    with_queues queue cancel s stuck = record {
      disk = stuck.disk;
      taken = stuck.taken;
      row = stuck.row;
    }

    settle-IsStuck :
        (p : Result Stop (Unit {0}) × Models) → Stuck p.1 → Stuck (settle model_dir m p)
    settle-IsStuck (ok done, s) stuck = with_queues s.queue _ s stuck
    settle-IsStuck (err cancelled, s) stuck = record {
      disk = stuck.disk;
      taken = rw apart stuck.taken;
      row = stuck.row;
    }
    settle-IsStuck (err killed, s) stuck = with_queues [] [] s stuck
    settle-IsStuck (err (model_error x), s) stuck =
        with_queues s.queue _ _ (failed-IsStuck (model_error x) s stuck)
    settle-IsStuck (err (os_error x), s) stuck =
        with_queues s.queue _ _ (failed-IsStuck (os_error x) s stuck)
    settle-IsStuck (err (cut_short have size), s) stuck =
        with_queues s.queue _ _ (failed-IsStuck (cut_short have size) s stuck)

    run_row-IsStuck :
        (w : Surroundings) (s : Models)
        → Stuck s
        → Stuck (run_row sha256 sha1 header configured resolve model_dir w s (some m))
    unfolding text
    run_row-IsStuck w s stuck =
        elim (Bool-cases (m.status == text "queued" || m.status == text "downloading")) [
          | inr past ↦ rw past stuck
          | inl go ↦ rw go (
              settle-IsStuck
                (attempt sha256 sha1 header configured resolve model_dir w m (begin m s)
                  (made (s.dirs (staging_dir model_dir m.id))))
                (attempt-IsStuck w (begin m s) (made (s.dirs (staging_dir model_dir m.id))) (
                  set-IsStuck model_dir m.id m.name apart (text "downloading")
                    (λ r. record r { status = text "downloading"; error = none }) s (λ r. refl)
                    (λ e. cc) stuck)))
        ]

  run-IsStuck :
      (id name : Str) (w : Surroundings) (s : Models)
      → (in_dir model_dir name == staging_dir model_dir id) ≡ false
      → IsStuck model_dir id name s
      → IsStuck model_dir id name (run sha256 sha1 header configured resolve model_dir id w s)
  unfolding run
  run-IsStuck id name w s apart stuck = go (get id s.rows) refl
    where
      go :
          (o : Option LlmModel)
          → get id s.rows ≡ o
          → IsStuck model_dir id name
              (run_row sha256 sha1 header configured resolve model_dir w s o)
      go none e = stuck
      go (some m) e =
          let same = get-id id s.rows m e in
          let (_, named, _) = stuck.row m e in
          subst
            (λ i.
              IsStuck model_dir i name
                (run_row sha256 sha1 header configured resolve model_dir w s (some m)))
            same
            (subst
              (λ n.
                IsStuck model_dir m.id n
                  (run_row sha256 sha1 header configured resolve model_dir w s (some m)))
              named (run_row-IsStuck m (rw (same, named) apart) w s (rw (same, named) stuck)))

  recover-IsStuck :
      (id name : Str) (s : Models)
      → IsStuck model_dir id name s
      → IsStuck model_dir id name (recover s)
  unfolding recover
  recover-IsStuck id name s stuck = record {
    disk = stuck.disk;
    taken = stuck.taken;
    row = λ a h.
        let (b, found, names, paths, waits) = get-requeue id s.rows a h in
        let (waiting, named, bare) = stuck.row b found in
        (waits waiting, names ∙ named, paths ∙ bare);
  }

  -- The process is started again and the model is run, any number of times.
  abbrev pub retries : Str → List Surroundings → Models → Models
  retries id [] s = s
  retries id (w ∷ ws) s =
      retries id ws (run sha256 sha1 header configured resolve model_dir id w (recover s))

  retries-IsStuck :
      (id name : Str) (ws : List Surroundings) (s : Models)
      → (in_dir model_dir name == staging_dir model_dir id) ≡ false
      → IsStuck model_dir id name s
      → IsStuck model_dir id name (retries id ws s)
  retries-IsStuck id name [] s apart stuck = stuck
  retries-IsStuck id name (w ∷ ws) s apart stuck =
      retries-IsStuck id name ws
        (run sha256 sha1 header configured resolve model_dir id w (recover s)) apart
        (run-IsStuck id name w (recover s) apart (recover-IsStuck id name s stuck))

  -- Where a model is not ready, has no path, and its folder is there, as after a run that the end of
  -- the process has broken off while the parts were computed: however often the service is started
  -- again and the model is run, whatever the server sends, the model does not become ready.
  pub retries-recover :
      (id : Str) (m : LlmModel) (disk : Disk) (ws : List Surroundings) (s : Models) (a : LlmModel)
      → get id s.rows ≡ some m
      → m.status ≢ text "ready"
      → m.path ≡ none
      → s.dirs (in_dir model_dir m.name) ≡ some disk
      → in_dir model_dir m.name ≢ staging_dir model_dir id
      → get id (retries id ws s).rows ≡ some a
      → a.status ≢ text "ready"
  retries-recover id m disk ws s a found waiting bare taken apart after =
      let other = ==_apart (in_dir model_dir m.name) (staging_dir model_dir id) apart in
      let stuck : IsStuck model_dir id m.name s = record {
        disk = disk;
        taken = taken;
        row = λ b h. only b (sym found ∙ h);
      } in
      ((retries-IsStuck id m.name ws s other stuck).row a after).0
    where
      only :
          (b : LlmModel)
          → ◌≡◌ {A = Option LlmModel} (some m) (some b)
          → (b.status ≢ text "ready") × (b.name ≡ m.name) × (b.path ≡ none)
      only b e =
          let same = some-apart m b e in
          subst (λ r. (r.status ≢ text "ready") × (r.name ≡ m.name) × (r.path ≡ none)) same
            (waiting, refl, bare)
