-- ===== src/Models/Service/Run/Sized.antt =====
-- What is on disk after the downloads of a run.
use layersmith.Prelude.{
  ℕ, ◌≡◌, refl, ◌∙◌, inl, inr, true, false, Option, none, some, List, [], ◌∷◌, ◌++◌, map, arith,
  Bool-cases, ltb, ◌==◌, ==_iff, nat_eq, list_eq, contains, length, All,
}
use layersmith.Prelude.Result.{Result, ok, err}
use layersmith.Prelude.Text.{Str}
use layersmith.Split.Stream.{Bytes}
use layersmith.Split.Manifest.{File, Disk}
use layersmith.Models.Files.{ModelFile}
use layersmith.Models.Download.{
  Turn, cancel, received, broken, Response, Answer, Stop, ended, write_turns, have_of,
  unless_larger, held_at, respond, fetch,
}
use layersmith.Models.Service.{keep_file}
use layersmith.Models.Service.Run.{Surroundings, then_rest, download_all}

pub keep_file_same :
    (disk : Disk) (name : Str) (target : Option File) → keep_file disk name target name ≡ target
keep_file_same disk name none =
    let same : (name == name) ≡ true = (==_iff name name).1 refl in rw same refl
keep_file_same disk name (some f) =
    let same : (name == name) ≡ true = (==_iff name name).1 refl in rw same refl

pub keep_file_other :
    (disk : Disk) (name n : Str) (target : Option File)
    → (n == name) ≡ false
    → keep_file disk name target n ≡ disk n
keep_file_other disk name n none h = rw h refl
keep_file_other disk name n (some f) h = rw h refl

ended_ok : (size : ℕ) (held : Bytes) → ended size held ≡ ok tt → length held ≡ size
ended_ok size held h = elim (Bool-cases (length held == size)) [
  | inl full ↦ (==_iff _ _).0 full
  | inr short ↦ cc (rw short at h)
]

write_turns_ok :
    (size : ℕ) (held : Bytes) (turns : List Turn)
    → (write_turns size held turns).0 ≡ ok tt
    → length (write_turns size held turns).1 ≡ size
unfolding write_turns
write_turns_ok size held [] h = ended_ok size held h
write_turns_ok size held (cancel ∷ turns) h = cc
write_turns_ok size held (broken reason ∷ turns) h = cc
write_turns_ok size held (received [] ∷ turns) h = ended_ok size held h
write_turns_ok size held (received (b ∷ chunk) ∷ turns) h =
    elim (Bool-cases (ltb size (length (held ++ (b ∷ chunk))))) [
      | inl over ↦ cc (rw over at h)
      | inr fits ↦ rw fits (write_turns_ok size (held ++ (b ∷ chunk)) turns (rw fits at h))
    ]

-- The file, if there is one, has this size.
abbrev pub Sized : ℕ → Option File → Type 0
Sized size none = Unit
Sized size (some f) = length f.bytes ≡ size

fetch-Sized :
    (mtime_ns size : ℕ) (target : Option File) (answer : Answer)
    → (fetch mtime_ns size target answer).0 ≡ ok tt
    → Sized size (fetch mtime_ns size target answer).1
unfolding fetch
fetch-Sized mtime_ns size target answer h =
    elim (Bool-cases (have_of (unless_larger size target) == size)) [
      | inl full ↦ rw full (held (unless_larger size target) ((==_iff _ _).0 full))
      | inr short ↦ rw short (sent (answer (have_of (unless_larger size target))) (rw short at h))
    ]
  where
    held : (kept : Option File) → have_of kept ≡ size → Sized size kept
    held none e = tt
    held (some f) e = e

    sent :
        (r : Result Str Response)
        → (respond mtime_ns size (unless_larger size target) r).0 ≡ ok tt
        → Sized size (respond mtime_ns size (unless_larger size target) r).1
    sent (err reason) e = cc
    sent (ok r) e = write_turns_ok size (held_at (unless_larger size target) r.status) r.turns e

pub All-map :
    (P Q : ModelFile → Type 0) (fs : List ModelFile)
    → ((f : ModelFile) → P f → Q f)
    → All P fs
    → All Q fs
All-map P Q [] k a = tt
All-map P Q (f ∷ fs) k (one, a) = (k f one, All-map P Q fs k a)

abbrev pub names_of : List ModelFile → List Str
names_of fs = map (λ f. f.name) fs

abbrev pub Distinct : List ModelFile → Type 0
Distinct [] = Unit
Distinct (f ∷ fs) = (contains (names_of fs) f.name ≡ false) × Distinct fs

pub download_all_others :
    (w : Surroundings) (disk : Disk) (fs : List ModelFile) (n : Str)
    → contains (names_of fs) n ≡ false
    → (download_all w disk fs).1 n ≡ disk n
unfolding download_all
download_all_others w disk [] n h = refl
download_all_others w disk (f ∷ fs) n h =
    go (fetch w.mtime_ns f.size (disk f.name) (w.answer f.name)).0
      (fetch w.mtime_ns f.size (disk f.name) (w.answer f.name)).1 (ground arith)
      (λ d. download_all_others w d fs n (ground arith))
  where
    go :
        (done : Result Stop (Unit {0})) (target : Option File)
        → (n == f.name) ≡ false
        → ((d : Disk) → (download_all w d fs).1 n ≡ d n)
        → (then_rest done
              (keep_file disk f.name target)
              (download_all w (keep_file disk f.name target) fs)).1
            n
          ≡ disk n
    go (err stop) target other ih = keep_file_other disk f.name n target other
    go (ok done) target other ih =
        ih (keep_file disk f.name target) ∙ keep_file_other disk f.name n target other

-- After downloads that returned, each file that is there has its size.
pub download_all-Sized :
    (w : Surroundings) (disk : Disk) (fs : List ModelFile)
    → Distinct fs
    → (download_all w disk fs).0 ≡ ok tt
    → All (λ f. Sized f.size ((download_all w disk fs).1 f.name)) fs
unfolding download_all
download_all-Sized w disk [] d h = tt
download_all-Sized w disk (f ∷ fs) (alone, d) h =
    go (fetch w.mtime_ns f.size (disk f.name) (w.answer f.name)).0
      (fetch w.mtime_ns f.size (disk f.name) (w.answer f.name)).1 h
      (fetch-Sized w.mtime_ns f.size (disk f.name) (w.answer f.name))
      (λ r. download_all-Sized w r fs d)
  where
    go :
        (done : Result Stop (Unit {0})) (target : Option File)
        → (then_rest done
            (keep_file disk f.name target)
            (download_all w (keep_file disk f.name target) fs)).0
          ≡ ok tt
        → (done ≡ ok tt → Sized f.size target)
        → ((r : Disk)
            → (download_all w r fs).0 ≡ ok tt
            → All (λ g. Sized g.size ((download_all w r fs).1 g.name)) fs)
        → All
            (λ g. Sized g.size (
              (then_rest done
                  (keep_file disk f.name target)
                  (download_all w (keep_file disk f.name target) fs)).1
                g.name))
            (f ∷ fs)
    go (err stop) target e s ih = cc
    go (ok done) target e s ih = (
      rw
          (
            download_all_others w (keep_file disk f.name target) fs f.name alone,
            keep_file_same disk f.name target,
          )
          (s refl),
      ih (keep_file disk f.name target) e,
    )
