-- ===== src/Split/Service/Threads.antt =====
-- The threads of `SplitService` in any order: requests that start runs, the progress of runs, the
-- end of runs, and what the rest of the program does to builds and files meanwhile.
use layersmith.Prelude.{
  ℕ, ◌+◌, ◌≡◌, ◌≢◌, refl, sym, ap, ◌∙◌, Bool, some, List, [], ◌∷◌, ◌++◌, inl, inr, arith,
  Bool-cases, Option-cases, ◌==◌, ==_iff, nat_eq, list_eq, if◌then◌else◌,
}
use layersmith.Prelude.Map.{Map}
use layersmith.Prelude.Result.{Result, ok}
use layersmith.Prelude.Text.{Str}
use layersmith.Split.Manifest.{Disk, Manifest, Build, SplitError}
use layersmith.Split.Service.{Service, Run, is_running, start, progress, finish}
use layersmith.Split.Service.Runs.{start-Started, finish-OnlyItsBuild}

-- The service with the threads that are at work.
pub record System : Type 0 where
  pub service : Service
  pub threads : List Run

pub data Step : System → System → Type 0 where
  -- a request starts a thread
  launch :
      {s : Service} {threads : List Run} (configured : ℕ) (build_id : Str) (t : Service) (run : Run)
      → start configured s build_id ≡ ok (t, some run)
      → Step
          (record { service = s; threads = threads })
          (record { service = t; threads = run ∷ threads })
  -- a thread has hashed another chunk
  report :
      {s : Service} (earlier later : List Run) (run : Run) (done : ℕ)
      → Step
          (record { service = s; threads = earlier ++ (run ∷ later) })
          (record { service = progress s run.build_id done; threads = earlier ++ (run ∷ later) })
  -- a thread comes to its end
  end :
      {s : Service} (earlier later : List Run) (run : Run) (r : Result SplitError Manifest)
      → Step
          (record { service = s; threads = earlier ++ (run ∷ later) })
          (record { service = finish s run r; threads = earlier ++ later })
  -- the rest of the program
  outside :
      {s : Service} {threads : List Run} (builds : Map Str Build) (disk : Disk)
      → Step
          (record { service = s; threads = threads })
          (record { service = record s { builds = builds; disk = disk }; threads = threads })

pub data Reach (s : System) : System → Type 0 where
  here : Reach s s
  next : {t u : System} → Reach s t → Step t u → Reach s u

-- The number of threads for a build
abbrev threads_of : Str → List Run → ℕ
threads_of build_id [] = 0
threads_of build_id (r ∷ rs) = (if build_id == r.build_id then 1 else 0) + threads_of build_id rs

-- A build has one thread if its job is running, and none otherwise.
abbrev pub OneEach : System → Type 0
OneEach s =
    (build_id : Str)
    → threads_of build_id s.threads ≡ (if is_running (s.service.jobs build_id) then 1 else 0)

threads_of-append :
    (b : Str) (xs ys : List Run) → threads_of b (xs ++ ys) ≡ threads_of b xs + threads_of b ys
threads_of-append b [] ys = omega arith
threads_of-append b (x ∷ xs) ys = omega (arith, threads_of-append b xs ys)

progress-is_running :
    (s : Service) (build_id j : Str) (done : ℕ)
    → is_running ((progress s build_id done).jobs j) ≡ is_running (s.jobs j)
unfolding progress
progress-is_running s build_id j done = elim (Option-cases (s.jobs build_id)) [
  | inl gone ↦ rw (gone, progress) refl
  | inr found ↦
      rw (found.1, progress)
        (elim (Bool-cases (j == build_id)) [
          | inl same ↦
              let e : j ≡ build_id = (==_iff j build_id).0 same in rw same (rw e (rw found.1 refl))
          | inr other ↦ rw other refl
        ])
]

-- The sum of one for this thread and the others, when it is one or none in all
count_rest : (a b : ℕ) (running : Bool) → a + (1 + b) ≡ (if running then 1 else 0) → a + b ≡ 0
count_rest a b running h = ground arith

step-OneEach : {s t : System} → Step s t → OneEach s → OneEach t
step-OneEach (launch {s} {threads} configured build_id t run e) h j =
    let (same, free, busy, rest, rows, disk) = start-Started configured s t build_id (some run) e in
    elim (Bool-cases (j == run.build_id)) [
      | inl this ↦
          let e : j ≡ build_id = (==_iff j run.build_id).0 this ∙ same in
          let none_yet : threads_of build_id threads ≡ 0 = rw free at (h build_id) in
          rw this (rw e (rw busy (omega (arith, ap (λ k. threads_of k threads) e, none_yet))))
      | inr other ↦
          let n : j ≢ build_id = λ e. cc (other, (==_iff j run.build_id).1 (e ∙ sym same)) in
          rw (other, rest j n) (omega (arith, h j))
    ]
step-OneEach (report {s} earlier later run done) h j = rw progress-is_running (h j)
step-OneEach (end {s} earlier later run r) h j =
    let o = finish-OnlyItsBuild s run r in
    let count = threads_of-append j earlier (run ∷ later) in
    let total = threads_of-append j earlier later in
    let before = sym count ∙ h j in
    elim (Bool-cases (j == run.build_id)) [
      | inl this ↦
          let e : j ≡ run.build_id = (==_iff j run.build_id).0 this in
          let alone =
            count_rest (threads_of j earlier) (threads_of j later) (is_running (s.jobs j))
              (rw this at before) in
          rw (total, alone) (rw (e, o.ended) refl)
      | inr other ↦
          let n : j ≢ run.build_id = λ e. cc (other, (==_iff j run.build_id).1 e) in
          rw (total, o.jobs j n) (omega (arith, rw other at before))
    ]
step-OneEach (outside builds disk) h j = h j

-- From a state in which each running job has its one thread, every order of steps leads to such a
-- state: no build ever has two threads, and a job is shown as running exactly while a thread works on it.
pub Reach-OneEach : {s t : System} → OneEach s → Reach s t → OneEach t
Reach-OneEach h here = h
Reach-OneEach h (next r st) = step-OneEach st (Reach-OneEach h r)
