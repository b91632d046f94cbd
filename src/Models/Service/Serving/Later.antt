-- ===== src/Models/Service/Serving/Later.antt =====
-- The parts that were computed once and are served later, in services/llm_models.py.
use layersmith.Prelude.{
  arith, refl, ==_iff, ℕ, ◌≡◌, ◌≢◌, sym, ap, subst, ◌∙◌, true, Option, none, some, List, [], ◌∷◌,
  map, ◌==◌, nat_eq, list_eq, option_eq, length, All, Bool-cases, inl, inr,
}
use layersmith.Prelude.Result.{Result, ok, err, ok-apart, >>=-eq-ok, map_ok, if_ok}
use layersmith.Prelude.Text.{Str, text}
use layersmith.Prelude.Map.{Map}
use layersmith.Split.Stream.{Bytes}
use layersmith.Split.Hash.{HashError, Hashed}
use layersmith.Split.Manifest.{File, Disk}
use layersmith.Vtar.{Info, Layout}
use layersmith.Vtar.Blocks.{tar-same}
use layersmith.Models.Files.{ModelFile}
use layersmith.Models.Download.{Stop}
use layersmith.Models.Service.{
  LlmModel, ModelParts, entry_of, identity_of, mtime_of, tar_mtime, layout_of, with_identity,
  compute_parts,
}
use layersmith.Models.Service.Parts.{Here, contents_of, archive_of, compute_parts-archive_of}
use layersmith.Models.Service.Serving.{
  identity_get, is_same, all_same, current_parts, current_parts_ok, IsServed, describe-IsServed,
}

-- A time that `identity` has for a name is that of the file of this name.
identity_get-identity_of :
    (old : Disk) (files : List ModelFile) (ids : List (Str × ℕ)) (name : Str) (v : ℕ)
    → map_ok (identity_of old) files ≡ ok ids
    → identity_get name ids ≡ some v
    → (o : File) × (old name ≡ some o) × (o.mtime_ns ≡ v)
unfolding map_ok
identity_get-identity_of old [] ids name v h g =
    absurd (nothing (subst (λ l. identity_get name l ≡ some v) (sym (ok-apart h)) g))
  where
    nothing : ◌≢◌ {A = Option ℕ} none (some v)
    nothing e = cc
identity_get-identity_of old (f ∷ fs) ids name v h g =
    let (pair, one, more) = >>=-eq-ok (identity_of old f) _ h in
    let (rest, others, same) = >>=-eq-ok (map_ok (identity_of old) fs) _ more in
    go (old f.name) refl pair one rest (identity_get-identity_of old fs rest name v others)
      (subst (λ l. identity_get name l ≡ some v) (sym (ok-apart same)) g)
  where
    go :
        (x : Option File)
        → old f.name ≡ x
        → (pair : Str × ℕ) → (mtime_of f x ≡ ok pair)
        → (rest : List (Str × ℕ))
        → (identity_get name rest ≡ some v → (o : File) × (old name ≡ some o) × (o.mtime_ns ≡ v))
        → identity_get name (pair ∷ rest) ≡ some v
        → (o : File) × (old name ≡ some o) × (o.mtime_ns ≡ v)
    go none at pair one rest later g = absurd cc
    go (some file) at pair one rest later g =
        let g' : identity_get name ((f.name, file.mtime_ns) ∷ rest) ≡ some v =
          subst (λ q. identity_get name (q ∷ rest) ≡ some v) (sym (ok-apart one)) g in
        elim (Bool-cases (f.name == name)) [
          | inr other ↦ later (rw other at g')
          | inl mine ↦
              let e : ◌≡◌ {A = Option ℕ} (some file.mtime_ns) (some v) = rw mine at g' in
              (file, ap old (sym ((==_iff f.name name).0 mine)) ∙ at, cc)
        ]

is_same-file :
    (ids : List (Str × ℕ)) (f : ModelFile) (o : Option File)
    → is_same ids f o ≡ true
    → (g : File) × (o ≡ some g)
      × (length g.bytes ≡ f.size)
      × (identity_get f.name ids ≡ some g.mtime_ns)
is_same-file ids f none h = absurd cc
is_same-file ids f (some g) h = (
  g,
  refl,
  (==_iff (length g.bytes) f.size).0 (ground arith),
  (==_iff (identity_get f.name ids) (some g.mtime_ns)).0 (ground arith),
)

module _ (old disk : Disk)
    (untouched : (name : Str) (f g : File)
      → old name ≡ some f
      → disk name ≡ some g
      → length f.bytes ≡ length g.bytes
      → f.mtime_ns ≡ g.mtime_ns
      → f.bytes ≡ g.bytes) where
  -- Files that have the recorded sizes and times have the bytes that they had.
  all_same-contents :
      (ids : List (Str × ℕ)) (files : List ModelFile)
      → ((name : Str) (v : ℕ)
          → identity_get name ids ≡ some v
          → (o : File) × (old name ≡ some o) × (o.mtime_ns ≡ v))
      → All (Here old) files
      → all_same ids disk files ≡ true
      → All (Here disk) files
        × All (λ e. contents_of disk e ≡ contents_of old e) (map entry_of files)
  unfolding all_same
  all_same-contents ids [] times here h = (tt, tt)
  all_same-contents ids (f ∷ fs) times ((o, there, size), here) h =
      let one : is_same ids f (disk f.name) ≡ true = ground arith in
      let rest : all_same ids disk fs ≡ true = ground arith in
      let (g, now, now_size, time) = is_same-file ids f (disk f.name) one in
      let (o2, there2, time2) = times f.name g.mtime_ns time in
      let e : o2 ≡ o = some-apart (sym there2 ∙ there) in
      let bytes : o.bytes ≡ g.bytes =
        untouched f.name o g there now (size ∙ sym now_size)
          (subst (λ (x : File). x.mtime_ns ≡ g.mtime_ns) e time2) in
      let (all_here, contents) = all_same-contents ids fs times here rest in
      (((g, now, now_size), all_here), (rw (now, there) (sym bytes), contents))
    where
      some-apart : {x y : File} → ◌≡◌ {A = Option File} (some x) (some y) → x ≡ y
      some-apart e = cc

module _ (sha256 : Bytes → Str) (header : Info → Bytes) (configured : ℕ) where
  with_identity_ok :
      (archive : Str) (lay : Layout) (o : Option (Result HashError Hashed))
      (r : Result Stop (List (Str × ℕ))) (p : ModelParts)
      → with_identity sha256 header configured archive lay o r ≡ ok p
      → r ≡ ok p.identity
  with_identity_ok archive lay none r p h = absurd cc
  with_identity_ok archive lay (some (err e)) r p h = absurd cc
  with_identity_ok archive lay (some (ok x)) (err stop) p h = absurd cc
  with_identity_ok archive lay (some (ok x)) (ok ids) p h =
      ap (λ (q : ModelParts). ok q.identity) (ok-apart h)

  compute_parts-identity :
      (folder : Str) (disk : Disk) (name : Str) (files : List ModelFile) (p : ModelParts)
      → compute_parts sha256 header configured folder disk name files ≡ ok p
      → map_ok (identity_of disk) files ≡ ok p.identity
  unfolding compute_parts
  compute_parts-identity folder disk name files p h =
      let (fine, h') = if_ok _ _ _ h in
      with_identity_ok _ (layout_of sha256 header configured folder name files) _ _ p h'

  -- The parts were computed from the files of the model's folder as it was then, each with its size. Where
  -- `current_parts` gives them now, and a file of the folder that has the size and the time of then has
  -- the bytes of then: the model is ready, each part is read from the folder as it is now without an
  -- error, and its bytes have the checksum of the part.
  pub read_part-current_parts :
      (dirs : Map Str Disk) (m : LlmModel) (p : ModelParts) (c : ℕ) (folder : Str) (old disk : Disk)
      → m.path ≡ some (c ∷ folder)
      → dirs (c ∷ folder) ≡ some disk
      → All (Here old) m.files
      → compute_parts sha256 header configured (c ∷ folder) old m.name m.files ≡ ok p
      → ((name : Str) (f g : File)
          → old name ≡ some f
          → disk name ≡ some g
          → length f.bytes ≡ length g.bytes
          → f.mtime_ns ≡ g.mtime_ns
          → f.bytes ≡ g.bytes)
      → current_parts dirs m ≡ some p
      → (m.status ≡ text "ready")
        × All (IsServed sha256 header configured (c ∷ folder) disk m.name m.files) p.parts
  read_part-current_parts dirs m p c folder old disk at there was computed untouched current =
      let (ready, own, same) = current_parts_ok dirs m p c folder disk at there current in
      let times = identity_get-identity_of old m.files p.identity in
      let found = compute_parts-identity (c ∷ folder) old m.name m.files p computed in
      let (here, contents) =
        all_same-contents old disk untouched p.identity m.files (λ name v g. times name v found g)
          was same in
      let (q, rs, made, _, _, _, parts) =
        compute_parts-archive_of sha256 header configured (c ∷ folder) old m.name m.files was in
      let q_p : q ≡ p = ok-apart (sym made ∙ computed) in
      let archive : archive_of sha256 header configured (c ∷ folder) disk m.name m.files
          ≡ archive_of sha256 header configured (c ∷ folder) old m.name m.files =
        tar-same header (c ∷ folder) m.name tar_mtime (contents_of disk) (contents_of old)
          (map entry_of m.files) contents in
      let served =
        describe-IsServed sha256 header configured (c ∷ folder) disk m.name m.files (length rs) 0 rs
          here in
      let served' : All (IsServed sha256 header configured (c ∷ folder) disk m.name m.files)
          q.parts =
        subst (All (IsServed sha256 header configured (c ∷ folder) disk m.name m.files)) (sym parts)
          (rw archive at served) in
      (
        ready,
        subst
            (λ (x : ModelParts).
              All (IsServed sha256 header configured (c ∷ folder) disk m.name m.files) x.parts)
            q_p served',
      )
