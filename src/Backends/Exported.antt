-- ===== src/Backends/Exported.antt =====
-- What `export` returns.
use layersmith.Prelude.{
  ℕ, ◌≡◌, ◌≢◌, ◌↔◌, refl, ap, subst, ◌∙◌, true, Option, none, some, List, [], ◌∷◌, ◌++◌, ◌==◌,
  ==_iff, ==_differ, ==_apart, nat_eq, list_eq, contains, Bool-cases, inl, inr,
}
use layersmith.Prelude.Result.{Result, ok, err, ok-apart}
use layersmith.Prelude.Text.{Str, text}
use layersmith.Backends.{
  Runtime, Disk, Ended, exited, timed_out, BackendError, Inspected, save_args, archive_formats,
  logged_answer, run_logged, size_of, saved, format_or_own, export,
}

module _ (process : List Str → Disk → Disk × Ended) (parse_json : Str → Option (List Inspected))
    (b : Runtime) where
  -- The command that `export` runs
  abbrev save_command : Str → Str → Str → List Str
  save_command image_ref destination format =
      b.binary ∷ text "save" ∷ (save_args b.kind destination format ++ (image_ref ∷ []))

  -- What is so where a size is returned
  abbrev pub IsExported : Str → Str → Str → Disk → Disk → ℕ → Type 0
  IsExported image_ref destination format before after n =
      (contains (archive_formats b.kind) format ≡ true)
      × ((output error : Str) × (process (save_command image_ref destination format) before
            ≡ (after, exited 0 output error)))
      × (after destination ≡ some n)
      × (n ≢ 0)

  abbrev Answered : Type 0
  Answered = Disk × Result BackendError ℕ

  logged_ok :
      (args : List Str) (timeout : ℕ) (e : Ended) (o : Str)
      → logged_answer process parse_json b args timeout e ≡ ok o
      → (error : Str) × (e ≡ exited 0 o error)
  logged_ok args timeout timed_out o h = absurd cc
  logged_ok args timeout (exited code output error) o h = elim (Bool-cases (code == 0)) [
    | inl fine ↦
        let zero_code : code ≡ 0 = (==_iff code 0).0 fine in
        let same : output ≡ o = ok-apart (rw fine at h) in
        (error, ap (λ c. exited c output error) zero_code ∙ ap (λ x. exited 0 x error) same)
    | inr bad ↦ absurd (no_error (rw bad at h))
  ]
    where
      no_error : {x : BackendError} → ◌≢◌ {A = Result BackendError Str} (err x) (ok o)
      no_error x = cc

  size_ok : (o : Option ℕ) (n : ℕ) → size_of process parse_json b o ≡ ok n → (o ≡ some n) × (n ≢ 0)
  size_ok none n h = absurd cc
  size_ok (some m) n h = elim (Bool-cases (m == 0)) [
    | inl empty ↦ absurd (no_error (rw empty at h))
    | inr filled ↦
        let same : m ≡ n = ok-apart (rw filled at h) in
        (ap some same, subst (λ x. x ≢ 0) same (==_differ m 0 filled))
  ]
    where
      no_error : {x : BackendError} → ◌≢◌ {A = Result BackendError ℕ} (err x) (ok n)
      no_error x = cc

  saved_ok :
      (destination : Str) (r : Disk × Result BackendError Str) (after : Disk) (n : ℕ)
      → saved process parse_json b destination r ≡ (after, ok n)
      → (o : Str) × (r ≡ (after, ok o)) × (after destination ≡ some n) × (n ≢ 0)
  saved_ok destination (disk, err e) after n h = absurd (no_error (ap (λ (x : Answered). x.1) h))
    where
      no_error : ◌≢◌ {A = Result BackendError ℕ} (err e) (ok n)
      no_error x = cc
  saved_ok destination (disk, ok o) after n h =
      let same : disk ≡ after = ap (λ (x : Answered). x.0) h in
      let (there, filled) = size_ok (disk destination) n (ap (λ (x : Answered). x.1) h) in
      (o, ap (λ d. (d, ok o)) same, subst (λ (d : Disk). d destination ≡ some n) same there, filled)

  pair : (r : Disk × Ended) (a : Disk) (e : Ended) → r.0 ≡ a → r.1 ≡ e → r ≡ (a, e)
  pair r a e left right = ap (λ x. (x, r.1)) left ∙ ap (λ y. (a, y)) right

  run_logged_ok :
      (args : List Str) (timeout : ℕ) (before after : Disk) (o : Str)
      → run_logged process parse_json b args timeout before ≡ (after, ok o)
      → (error : Str) × (process (b.binary ∷ args) before ≡ (after, exited 0 o error))
  unfolding run_logged
  run_logged_ok args timeout before after o h =
      let r = process (b.binary ∷ args) before in
      let (error, ended) =
        logged_ok args timeout r.1 o (ap (λ (x : Disk × Result BackendError Str). x.1) h) in
      (
        error,
        pair r after (exited 0 o error) (ap (λ (x : Disk × Result BackendError Str). x.0) h) ended,
      )

  -- The other way round
  run_logged_lem :
      (args : List Str) (timeout : ℕ) (before after : Disk) (o error : Str)
      → process (b.binary ∷ args) before ≡ (after, exited 0 o error)
      → run_logged process parse_json b args timeout before ≡ (after, ok o)
  unfolding run_logged
  run_logged_lem args timeout before after o error h = rw h refl

  -- `export` returns a size exactly when the runtime can write the format, its `save` command for that format and
  -- destination succeeds, and the file that is at the destination then has that size and is not empty.
  pub export-IsExported :
      (image_ref destination : Str) (archive_format : Option Str) (before after : Disk) (n : ℕ)
      → (export process parse_json b image_ref destination archive_format before ≡ (after, ok n))
        ↔ IsExported image_ref destination
            (format_or_own process parse_json b archive_format)
            before
            after
            n
  unfolding export
  export-IsExported image_ref destination archive_format before after n = (sound, complete)
    where
      format : Str
      format = format_or_own process parse_json b archive_format

      args : List Str
      args = text "save" ∷ (save_args b.kind destination format ++ (image_ref ∷ []))

      no_error : {d : Disk} {x : BackendError} → ◌≢◌ {A = Answered} (d, err x) (after, ok n)
      no_error x = cc

      sound :
          export process parse_json b image_ref destination archive_format before ≡ (after, ok n)
          → IsExported image_ref destination format before after n
      sound h = elim (Bool-cases (contains (archive_formats b.kind) format)) [
        | inr other ↦ absurd (no_error (rw other at h))
        | inl known ↦
            let (o, r, there, filled) =
              saved_ok destination (run_logged process parse_json b args 3600 before) after n
                (rw known at h) in
            let (error, ended) = run_logged_ok args 3600 before after o r in
            (known, (o, error, ended), there, filled)
      ]

      complete :
          IsExported image_ref destination format before after n
          → export process parse_json b image_ref destination archive_format before ≡ (after, ok n)
      complete (known, (o, error, ended), there, filled) =
          rw
            (known, run_logged_lem args 3600 before after o error ended, there, ==_apart n 0 filled)
            refl
