-- ===== src/Models/Service/Run/Checked.antt =====
-- What is on disk after the checks of a run.
use layersmith.Prelude.{
  ◌≡◌, refl, sym, ap, subst, ◌∙◌, inl, inr, Bool, true, false, not, ◌&&◌, Option, none, some, List,
  [], ◌∷◌, arith, Bool-cases, ◌==◌, ==_iff, nat_eq, list_eq, All,
}
use layersmith.Prelude.Result.{Result, ok, err}
use layersmith.Prelude.Text.{Str}
use layersmith.Split.Stream.{Bytes}
use layersmith.Split.Manifest.{File, Disk, is_set, or_empty}
use layersmith.Models.Files.{ModelFile}
use layersmith.Models.Download.{Stop}
use layersmith.Models.Service.{git_blob_id, mismatch, verified, verify, keep_file}
use layersmith.Models.Service.Run.{add_verified, verify_all}
use layersmith.Models.Service.Run.Sized.{keep_file_same, keep_file_other, names_of, All-map}

module _ (sha256 sha1 : Bytes → Str) where
  -- The checksum that Hugging Face publishes, or else the Git object id
  abbrev pub Matches : ModelFile → Bytes → Type 0
  Matches f bytes =
      (is_set f.expected_sha256 ≡ true → sha256 bytes ≡ or_empty f.expected_sha256)
      × (is_set f.expected_sha256 ≡ false
          → is_set f.blob_id ≡ true
          → git_blob_id sha1 bytes f.size ≡ or_empty f.blob_id)

  mismatch_lem :
      (f : ModelFile) (bytes : Bytes)
      → mismatch sha256 sha1 f bytes ≡ (false, false)
      → Matches f bytes
  mismatch_lem f bytes h = elim (Bool-cases (is_set f.expected_sha256)) [
    | inl sum ↦
        let same : not (sha256 bytes == or_empty f.expected_sha256) ≡ false =
          ap (λ p. p.0) (rw sum at h) in
        ((λ s. (==_iff _ _).0 (ground arith)), λ no yes. cc)
    | inr nothing ↦
        let same : (is_set f.blob_id && not (git_blob_id sha1 bytes f.size == or_empty f.blob_id))
            ≡ false =
          ap (λ p. p.1) (rw nothing at h) in
        ((λ s. cc), λ no yes. (==_iff _ _).0 (ground arith))
  ]

  verify_ok :
      (f : ModelFile) (target kept : Option File) (sum : Str)
      → verify sha256 sha1 f target ≡ (ok sum, kept)
      → (file : File) × (target ≡ some file)
        × (kept ≡ target)
        × (sum ≡ sha256 file.bytes)
        × Matches f file.bytes
  unfolding verify
  verify_ok f none kept sum h =
      let bad : ◌≡◌ {A = Result Stop Str} (err _) (ok sum) = ap (λ p. p.0) h in cc
  verify_ok f (some file) kept sum h = go (mismatch sha256 sha1 f file.bytes) refl h
    where
      go :
          (p : Bool × Bool)
          → mismatch sha256 sha1 f file.bytes ≡ p
          → verified sha256 sha1 f (some file) p file.bytes ≡ (ok sum, kept)
          → (g : File) × (some file ≡ some g)
            × (kept ≡ some file)
            × (sum ≡ sha256 g.bytes)
            × Matches f g.bytes
      go (true, blob) e v =
          let bad : ◌≡◌ {A = Result Stop Str} (err _) (ok sum) = ap (λ p. p.0) v in cc
      go (false, true) e v =
          let bad : ◌≡◌ {A = Result Stop Str} (err _) (ok sum) = ap (λ p. p.0) v in cc
      go (false, false) e v =
          let one : ◌≡◌ {A = Result Stop Str} (ok (sha256 file.bytes)) (ok sum) = ap (λ p. p.0) v in
          (file, refl, sym (ap (λ p. p.1) v), cc, mismatch_lem f file.bytes e)

  -- The entry that is stored has the checksum of the bytes on disk.
  abbrev pub Recorded : Disk → ModelFile → Type 0
  Recorded disk f =
      (file : File) × (disk f.name ≡ some file) × (f.sha256 ≡ some (sha256 file.bytes))

  abbrev pub Matching : Disk → ModelFile → Type 0
  Matching disk f = (file : File) × (disk f.name ≡ some file) × Matches f file.bytes

  -- What checks that returned have found, where they leave the files as they are
  pub record IsVerified (disk : Disk) (fs : List ModelFile) (gs : List ModelFile) (after : Disk)
      : Type 0 where
    pub unchanged : (n : Str) → after n ≡ disk n
    pub matching : All (Matching disk) fs
    pub recorded : All (Recorded disk) gs
    pub names : names_of gs ≡ names_of fs

  pub keep_file_fixed :
      (disk : Disk) (name n : Str) (target : Option File)
      → target ≡ disk name
      → keep_file disk name target n ≡ disk n
  keep_file_fixed disk name n target e = elim (Bool-cases (n == name)) [
    | inl same ↦
        let here = (==_iff n name).0 same in
        subst (λ k. keep_file disk name target k ≡ disk k) (sym here)
          (keep_file_same disk name target ∙ e)
    | inr other ↦ keep_file_other disk name n target other
  ]

  pub verify_all-IsVerified :
      (disk : Disk) (fs gs : List ModelFile) (after : Disk)
      → verify_all sha256 sha1 disk fs ≡ (ok gs, after)
      → IsVerified disk fs gs after
  unfolding verify_all
  verify_all-IsVerified disk [] gs after h =
      let none : ◌≡◌ {A = Result Stop (List ModelFile)} (ok []) (ok gs) = ap (λ p. p.0) h in
      let e : [] ≡ gs = cc in
      record {
        unchanged = λ n. ap (λ p. p.1 n) (sym h);
        matching = tt;
        recorded = subst (All (Recorded disk)) e tt;
        names = ap names_of (sym e);
      }
  verify_all-IsVerified disk (f ∷ fs) gs after h =
      go (verify sha256 sha1 f (disk f.name)).0 (verify sha256 sha1 f (disk f.name)).1
        (verify_all sha256 sha1 (keep_file disk f.name (verify sha256 sha1 f (disk f.name)).1) fs).0
        (verify_all sha256 sha1 (keep_file disk f.name (verify sha256 sha1 f (disk f.name)).1) fs).1
        (verify_ok f (disk f.name)) h
        (verify_all-IsVerified (keep_file disk f.name (verify sha256 sha1 f (disk f.name)).1) fs)
    where
      go :
          (r : Result Stop Str) (kept : Option File) (more : Result Stop (List ModelFile))
          (rest : Disk)
          → ((k : Option File) (sum : Str)
              → ◌≡◌ {A = Result Stop Str × Option File} (r, kept) (ok sum, k)
              → (file : File) × (disk f.name ≡ some file)
                × (k ≡ disk f.name)
                × (sum ≡ sha256 file.bytes)
                × Matches f file.bytes)
          → add_verified f r (keep_file disk f.name kept) (more, rest) ≡ (ok gs, after)
          → ((hs : List ModelFile) (d : Disk)
              → ◌≡◌ {A = Result Stop (List ModelFile) × Disk} (more, rest) (ok hs, d)
              → IsVerified (keep_file disk f.name kept) fs hs d)
          → IsVerified disk (f ∷ fs) gs after
      go (err stop) kept more rest one e ih =
          let bad : ◌≡◌ {A = Result Stop (List ModelFile)} (err stop) (ok gs) = ap (λ p. p.0) e in
          cc
      go (ok sum) kept (err stop) rest one e ih =
          let bad : ◌≡◌ {A = Result Stop (List ModelFile)} (err stop) (ok gs) = ap (λ p. p.0) e in
          cc
      go (ok sum) kept (ok hs) rest one e ih =
          let (file, there, same, summed, matches) = one kept sum refl in
          let v = ih hs rest refl in
          let fixed = λ (n : Str). keep_file_fixed disk f.name n kept same in
          let back = λ (g : ModelFile). fixed g.name in
          let all : ◌≡◌ {A = Result Stop (List ModelFile)}
              (ok (record f { sha256 = some sum } ∷ hs)) (ok gs) =
            ap (λ p. p.0) e in
          let list : record f { sha256 = some sum } ∷ hs ≡ gs = cc in
          record {
            unchanged = λ n. ap (λ p. p.1 n) (sym e) ∙ v.unchanged n ∙ fixed n;
            matching = (
              (file, there, matches),
              All-map (Matching (keep_file disk f.name kept)) (Matching disk) fs
                  (λ g (x, at, m). (x, sym (back g) ∙ at, m)) v.matching,
            );
            recorded = subst (All (Recorded disk)) list (
              (file, there, ap (λ s. some s) summed),
              All-map (Recorded (keep_file disk f.name kept)) (Recorded disk) hs
                  (λ g (x, at, m). (x, sym (back g) ∙ at, m)) v.recorded,
            );
            names = ap names_of (sym list) ∙ ap (λ l. f.name ∷ l) v.names;
          }
