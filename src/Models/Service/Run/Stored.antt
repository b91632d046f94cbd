-- ===== src/Models/Service/Run/Stored.antt =====
-- A run that makes a model ready stores it.
use layersmith.Prelude.{
  ℕ, ◌+◌, ◌-◌, ◌≡◌, ◌≢◌, refl, sym, subst, ◌∙◌, inl, inr, ◌||◌, Option, none, some, List,
  Bool-cases, ltb, ◌==◌, nat_eq, list_eq, All,
}
use layersmith.Prelude.Result.{Result, ok, err}
use layersmith.Prelude.Text.{Str, text}
use layersmith.Split.Stream.{Bytes}
use layersmith.Split.Manifest.{Disk}
use layersmith.Vtar.{Info}
use layersmith.Models.Files.{ModelFile}
use layersmith.Models.Download.{Stop, cancelled, model_error, os_error, cut_short, killed}
use layersmith.Models.Service.{LlmModel, Models, get, set, sum_of, staging_dir}
use layersmith.Models.Service.Run.Sized.{Sized, Distinct, All-map, download_all-Sized}
use layersmith.Models.Service.Run.Checked.{Matching, Recorded, IsVerified, verify_all-IsVerified}
use layersmith.Models.Service.Run.{
  Surroundings, Meanwhile, headroom, already, nothing, deleted, deleted_late, killed_late,
  verify_all, download_all, delete_if, staged, after_verify, after_download, attempt, settle, made,
  begin, run_row, run,
}
use layersmith.Models.Service.Rows.{get-id}
use layersmith.Models.Service.Run.Ready.{
  IsStored, Fine, Busy, Holds, Checks, status_set, not_verifying, failing, Busy-delete,
  unless_cancelled-Holds,
}

module _ (sha256 sha1 : Bytes → Str) (header : Info → Bytes) (configured : ℕ)
    (resolve : Str → List Str) (model_dir : Str) where
  after_verify-Holds :
      (m : LlmModel) (meanwhile : Meanwhile) (s : Models) (disk : Disk)
      → Busy sha256 sha1 header configured resolve model_dir m s
      → All (λ f. Sized f.size (disk f.name)) m.files
      → (r : Result Stop (List ModelFile)) (after : Disk)
      → verify_all sha256 sha1 disk m.files ≡ (r, after)
      → Holds sha256 sha1 header configured resolve model_dir m (
          after_verify sha256 sha1 header configured resolve model_dir m
            (sum_of m.files)
            meanwhile
            s
            (r, after))
  after_verify-Holds m meanwhile s disk busy sizes (err stop) after e = busy
  after_verify-Holds m meanwhile s disk busy sizes (ok fs) after e =
      unless_cancelled-Holds sha256 sha1 header configured resolve model_dir m after fs
        (sum_of m.files) meanwhile
        (delete_if resolve model_dir meanwhile m.id (staged model_dir m after s)) checks
        (later meanwhile)
    where
      v : IsVerified sha256 sha1 disk m.files fs after
      v = verify_all-IsVerified sha256 sha1 disk m.files fs after e

      moved_back : (f : ModelFile) → after f.name ≡ disk f.name
      moved_back f = v.unchanged f.name

      checks : Checks sha256 sha1 header configured resolve model_dir m after fs
      checks = record {
        sizes =
            All-map (λ f. Sized f.size (disk f.name)) (λ f. Sized f.size (after f.name)) m.files
              (λ f p. subst (Sized f.size) (sym (moved_back f)) p) sizes;
        matching =
            All-map (Matching sha256 sha1 disk) (Matching sha256 sha1 after) m.files
              (λ f (x, at, p). (x, moved_back f ∙ at, p)) v.matching;
        recorded =
            All-map (Recorded sha256 sha1 disk) (Recorded sha256 sha1 after) fs
              (λ f (x, at, p). (x, moved_back f ∙ at, p)) v.recorded;
        names = v.names;
      }

      later :
          (w : Meanwhile)
          → Busy sha256 sha1 header configured resolve model_dir m
              (delete_if resolve model_dir w m.id (staged model_dir m after s))
      later nothing = busy
      later deleted =
          Busy-delete sha256 sha1 header configured resolve model_dir m (staged model_dir m after s)
      later deleted_late = busy
      later killed_late = busy

  after_download-Holds :
      (w : Surroundings) (m : LlmModel) (s : Models)
      → Busy sha256 sha1 header configured resolve model_dir m s
      → (r : Result Stop (Unit {0})) (disk : Disk)
      → (r ≡ ok tt → All (λ f. Sized f.size (disk f.name)) m.files)
      → Holds sha256 sha1 header configured resolve model_dir m
          (after_download sha256 sha1 header configured resolve model_dir w m s (r, disk))
  after_download-Holds w m s busy (err cancelled) disk sizes =
      Busy-delete sha256 sha1 header configured resolve model_dir m (staged model_dir m disk s)
  after_download-Holds w m s busy (err (model_error e)) disk sizes = busy
  after_download-Holds w m s busy (err (os_error e)) disk sizes = busy
  after_download-Holds w m s busy (err (cut_short have size)) disk sizes = busy
  after_download-Holds w m s busy (err killed) disk sizes = busy
  after_download-Holds w m s busy (ok done) disk sizes =
      let change =
        λ (r : LlmModel). record r { status = text "verifying"; done_bytes = sum_of m.files } in
      after_verify-Holds m w.meanwhile (set m.id change (staged model_dir m disk s)) disk
        (status_set sha256 sha1 header configured resolve model_dir m (text "verifying") change
          (staged model_dir m disk s) (λ r. refl) (λ r. refl)
          (not_verifying sha256 sha1 header configured resolve model_dir))
        (sizes refl) (verify_all sha256 sha1 disk m.files).0 (verify_all sha256 sha1 disk m.files).1
        refl

  attempt-Holds :
      (w : Surroundings) (m : LlmModel) (s : Models) (disk : Disk)
      → Distinct m.files
      → Busy sha256 sha1 header configured resolve model_dir m s
      → Holds sha256 sha1 header configured resolve model_dir m
          (attempt sha256 sha1 header configured resolve model_dir w m s disk)
  attempt-Holds w m s disk distinct busy =
      elim (Bool-cases (ltb w.free ((sum_of m.files - already disk m.files) + headroom))) [
        | inl full ↦ rw full busy
        | inr room ↦ rw room (
            after_download-Holds w m (staged model_dir m disk s) busy
              (download_all w disk m.files).0 (download_all w disk m.files).1
              (download_all-Sized w disk m.files distinct))
      ]

  settle-Fine :
      (m : LlmModel) (p : Result Stop (Unit {0}) × Models)
      → Holds sha256 sha1 header configured resolve model_dir m p
      → Fine sha256 sha1 header configured resolve model_dir m (settle model_dir m p)
  settle-Fine m (ok done, s) h = h
  settle-Fine m (err cancelled, s) h = λ a found e. absurd (h a found e)
  settle-Fine m (err killed, s) h = λ a found e. absurd (h a found e)
  settle-Fine m (err (model_error x), s) h =
      failing sha256 sha1 header configured resolve model_dir m (model_error x) s
  settle-Fine m (err (os_error x), s) h =
      failing sha256 sha1 header configured resolve model_dir m (os_error x) s
  settle-Fine m (err (cut_short have size), s) h =
      failing sha256 sha1 header configured resolve model_dir m (cut_short have size) s

  run_row-Fine :
      (w : Surroundings) (s : Models) (m : LlmModel)
      → get m.id s.rows ≡ some m
      → m.status ≢ text "ready"
      → Distinct m.files
      → Fine sha256 sha1 header configured resolve model_dir m
          (run_row sha256 sha1 header configured resolve model_dir w s (some m))
  run_row-Fine w s m row waiting distinct =
      elim (Bool-cases (m.status == text "queued" || m.status == text "downloading")) [
        | inl go ↦ rw go (
            settle-Fine m
              (attempt sha256 sha1 header configured resolve model_dir w m (begin m s)
                (made (s.dirs (staging_dir model_dir m.id))))
              (attempt-Holds w m (begin m s) (made (s.dirs (staging_dir model_dir m.id))) distinct
                begun))
        | inr past ↦ rw past λ a found ready.
            let same : ◌≡◌ {A = Option LlmModel} (some m) (some a) = sym row ∙ found in
            absurd (waiting cc)
      ]
    where
      begun : Busy sha256 sha1 header configured resolve model_dir m (begin m s)
      begun =
          status_set sha256 sha1 header configured resolve model_dir m (text "downloading")
            (λ r. record r { status = text "downloading"; error = none }) s (λ r. refl) (λ r. refl)
            (unfold text in λ e. cc)

  -- Where the row of a model with files of different names is not ready, and is ready after `run`, the
  -- model is stored: its folder is there, every file of the request has the announced size and the
  -- checksum or Git object id that was published for it, and the row has the checksums and the
  -- parts of exactly these files.
  pub run-IsStored :
      (id : Str) (w : Surroundings) (s : Models) (m a : LlmModel)
      → get id s.rows ≡ some m
      → m.status ≢ text "ready"
      → Distinct m.files
      → get id (run sha256 sha1 header configured resolve model_dir id w s).rows ≡ some a
      → a.status ≡ text "ready"
      → IsStored sha256 sha1 header configured resolve model_dir m
          (run sha256 sha1 header configured resolve model_dir id w s).dirs
          a
  unfolding run
  run-IsStored id w s m a row waiting distinct found ready =
      let same = get-id id s.rows m row in
      let row' = subst (λ k. get k s.rows ≡ some m) (sym same) row in
      let found' : get id
            (run_row sha256 sha1 header configured resolve model_dir w s (some m)).rows
          ≡ some a =
        rw row at found in
      rw row (
        run_row-Fine w s m row' waiting distinct a
          (subst
            (λ k.
              get k (run_row sha256 sha1 header configured resolve model_dir w s (some m)).rows
              ≡ some a)
            (sym same) found')
          ready)
