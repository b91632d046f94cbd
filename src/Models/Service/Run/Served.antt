-- ===== src/Models/Service/Run/Served.antt =====
-- Downloads that are served in full, and the checks of what they leave.
use layersmith.Prelude.{
  ◌<◌, ◌≡◌, refl, sym, ap, subst, ◌∙◌, inl, inr, true, false, some, List, [], ◌∷◌, map, Bool-cases,
  ◌==◌, ==_iff, nat_eq, list_eq, length, All, append-nil,
}
use layersmith.Prelude.Result.{ok}
use layersmith.Prelude.Text.{Str}
use layersmith.Split.Stream.{Bytes}
use layersmith.Split.Manifest.{File, Disk, is_set, or_empty}
use layersmith.Models.Files.{ModelFile}
use layersmith.Models.Download.{fetch}
use layersmith.Models.Download.Resumed.{IsPart, Serves, fetch-whole}
use layersmith.Models.Service.{git_blob_id, mismatch, verified, verify, keep_file, clean}
use layersmith.Models.Service.Parts.{Here}
use layersmith.Models.Service.Run.Sized.{keep_file_same, Distinct, All-map, download_all_others}
use layersmith.Models.Service.Run.Checked.{Matches, keep_file_fixed}
use layersmith.Models.Service.Run.{Surroundings, download_all, verify_all}

module _ (sha256 sha1 : Bytes → Str) (content : Str → Bytes) where
  -- A file of the request, with what Hugging Face holds under its name
  abbrev pub Published : ModelFile → Type 0
  Published f =
      (0 < f.size) × (length (content f.name) ≡ f.size) × Matches sha256 sha1 f (content f.name)

  abbrev pub Whole : Disk → ModelFile → Type 0
  Whole disk f = (file : File) × (disk f.name ≡ some file) × (file.bytes ≡ content f.name)

  -- What is there of a file is a beginning of it.
  abbrev pub Begun : Disk → Type 0
  Begun disk = (n : Str) → IsPart (content n) (disk n)

  module _ (w : Surroundings) (serves : (n : Str) → Serves (content n) (w.answer n)) where
    fetch_one :
        (f : ModelFile) (disk : Disk)
        → Begun disk
        → Published f
        → (file : File) × (fetch w.mtime_ns f.size (disk f.name) (w.answer f.name)
            ≡ (ok tt, some file))
          × (file.bytes ≡ content f.name)
    fetch_one f disk begun (pos, size, matches) =
        subst
          (λ k.
            (file : File) × (fetch w.mtime_ns k (disk f.name) (w.answer f.name)
              ≡ (ok tt, some file))
            × (file.bytes ≡ content f.name))
          size
          (fetch-whole (content f.name) w.mtime_ns (disk f.name) (w.answer f.name) (rw size pos)
            (begun f.name) (serves f.name))

    Begun-keep_file :
        (disk : Disk) (name : Str) (file : File)
        → Begun disk
        → file.bytes ≡ content name
        → Begun (keep_file disk name (some file))
    Begun-keep_file disk name file begun e n = elim (Bool-cases (n == name)) [
      | inl same ↦
          let here = (==_iff n name).0 same in
          rw same ([], append-nil file.bytes ∙ e ∙ ap content (sym here))
      | inr other ↦ rw other (begun n)
    ]

    pub download_all-Whole :
        (disk : Disk) (fs : List ModelFile)
        → Begun disk
        → Distinct fs
        → All Published fs
        → (after : Disk) × (download_all w disk fs ≡ (ok tt, after)) × All (Whole after) fs
    unfolding download_all
    download_all-Whole disk [] begun d p = (disk, refl, tt)
    download_all-Whole disk (f ∷ fs) begun (alone, d) (one, p) =
        let (file, fetched, bytes) = fetch_one f disk begun one in
        let next = keep_file disk f.name (some file) in
        let (after, rest, whole) =
          download_all-Whole next fs (Begun-keep_file disk f.name file begun bytes) d p in
        let same : after f.name ≡ some file =
          ap (λ r. r.1 f.name) (sym rest)
          ∙ download_all_others w next fs f.name alone
          ∙ keep_file_same disk f.name (some file) in
        rw (fetched, rest) (after, refl, ((file, same, bytes), whole))

  mismatch_none :
      (f : ModelFile) (bytes : Bytes)
      → Matches sha256 sha1 f bytes
      → mismatch sha256 sha1 f bytes ≡ (false, false)
  mismatch_none f bytes (sum, blob) = elim (Bool-cases (is_set f.expected_sha256)) [
    | inl told ↦
        let same : (sha256 bytes == or_empty f.expected_sha256) ≡ true =
          (==_iff _ _).1 (sum told) in
        rw (told, same) refl
    | inr untold ↦ rw untold (elim (Bool-cases (is_set f.blob_id)) [
      | inl told ↦
          let same : (git_blob_id sha1 bytes f.size == or_empty f.blob_id) ≡ true =
            (==_iff _ _).1 (blob untold told) in
          rw (told, same) refl
      | inr silent ↦ rw silent refl
    ])
  ]

  abbrev pub stamped : ModelFile → ModelFile
  stamped f = record f { sha256 = some (sha256 (content f.name)) }

  verify_one :
      (f : ModelFile) (disk : Disk)
      → (whole : Whole disk f) → Published f
      → verify sha256 sha1 f (disk f.name) ≡ (ok (sha256 (content f.name)), some whole.0)
  unfolding verify
  verify_one f disk (file, there, bytes) (pos, size, matches) =
      let none_bad : mismatch sha256 sha1 f file.bytes ≡ (false, false) =
        rw bytes (mismatch_none f (content f.name) matches) in
      rw there (
        ap (λ p. verified sha256 sha1 f (some file) p file.bytes) none_bad
        ∙ ap (λ b. (ok (sha256 b), some file)) bytes)

  pub verify_all-Whole :
      (disk : Disk) (fs : List ModelFile)
      → All (Whole disk) fs
      → All Published fs
      → (after : Disk) × (verify_all sha256 sha1 disk fs ≡ (ok (map stamped fs), after))
        × ((n : Str) → after n ≡ disk n)
  unfolding verify_all
  verify_all-Whole disk [] whole p = (disk, refl, λ n. refl)
  verify_all-Whole disk (f ∷ fs) (one, whole) (known, p) =
      let fixed = λ (n : Str). keep_file_fixed sha256 sha1 disk f.name n (some one.0) (sym one.1) in
      let next = keep_file disk f.name (some one.0) in
      let there =
        All-map (Whole disk) (Whole next) fs (λ g (x, at, b). (x, fixed g.name ∙ at, b)) whole in
      let (after, e, same) = verify_all-Whole next fs there p in
      rw (verify_one f disk one known, e) (after, refl, λ n. same n ∙ fixed n)

  pub stamped-Here :
      (disk after : Disk) (fs : List ModelFile)
      → ((n : Str) → after n ≡ disk n)
      → All (Whole disk) fs
      → All Published fs
      → All (Here after) (map clean (map stamped fs))
  stamped-Here disk after [] same whole p = tt
  stamped-Here disk after (f ∷ fs) same ((file, there, bytes), whole) ((pos, size, matches), p) =
      ((file, same f.name ∙ there, ap length bytes ∙ size), stamped-Here disk after fs same whole p)
