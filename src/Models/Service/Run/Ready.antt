-- ===== src/Models/Service/Run/Ready.antt =====
-- What is on disk when a run has made a model ready.
use layersmith.Prelude.{
  ℕ, ◌≡◌, ◌≢◌, refl, sym, ap, subst, ◌∙◌, inl, inr, true, Option, none, some, List, [], ◌∷◌, map,
  Bool-cases, ◌==◌, ==_iff, nat_eq, list_eq, contains, All,
}
use layersmith.Prelude.Result.{Result, ok, err}
use layersmith.Prelude.Text.{Str, text}
use layersmith.Prelude.Map.{Map, put, erase}
use layersmith.Split.Stream.{Bytes}
use layersmith.Split.Manifest.{Disk}
use layersmith.Vtar.{Info}
use layersmith.Models.Files.{ModelFile}
use layersmith.Models.Download.{Stop}
use layersmith.Models.Service.{
  LlmModel, Models, ModelParts, get, set, in_dir, staging_dir, clean, compute_parts, delete,
  delete_row,
}
use layersmith.Models.Service.Rows.{get-change_rows, get-without_row}
use layersmith.Models.Service.Run.Sized.{Sized, names_of}
use layersmith.Models.Service.Run.Checked.{Matching, Recorded}
use layersmith.Models.Service.Run.{
  Meanwhile, after_delete, nothing, deleted, deleted_late, killed_late, delete_meanwhile,
  made_ready, store, split, place, unless_cancelled,
}

get-delete_meanwhile :
    (resolve : Str → List Str) (model_dir id : Str) (s : Models) (a : LlmModel)
    → get id (delete_meanwhile resolve model_dir id s).rows ≡ some a
    → ⊥
unfolding delete_meanwhile delete
get-delete_meanwhile resolve model_dir id s a h = go (get id s.rows) refl h
  where
    go :
        (row : Option LlmModel)
        → get id s.rows ≡ row
        → get id
            (after_delete resolve model_dir s
              (delete_row (λ path disk. none) resolve model_dir id s row)).rows
          ≡ some a
        → ⊥
    go none e h = cc
    go (some m) e h = let gone = get-without_row id s.rows in cc

module _ (sha256 sha1 : Bytes → Str) (header : Info → Bytes) (configured : ℕ)
    (resolve : Str → List Str) (model_dir : Str) where
  -- A model `a` that is stored in the way of the request `m`: its folder is there under the name of
  -- the model, each file that was asked for has its size and matches what Hugging Face publishes,
  -- the stored entries have the checksums of the bytes, and the parts are those of the folder.
  pub record IsStored (m : LlmModel) (dirs : Map Str Disk) (a : LlmModel) : Type 0 where
    pub path : a.path ≡ some (in_dir model_dir m.name)
    pub disk : Disk
    pub there : dirs (in_dir model_dir m.name) ≡ some disk
    pub sized : All (λ f. Sized f.size (disk f.name)) m.files
    pub matching : All (Matching sha256 sha1 disk) m.files
    pub recorded : All (Recorded sha256 sha1 disk) a.files
    pub names : names_of a.files ≡ names_of m.files
    pub parts : ModelParts
    pub split_of : a.parts ≡ some parts
    pub computed :
        compute_parts sha256 header configured (in_dir model_dir m.name) disk m.name a.files
        ≡ ok parts

  -- If the row is there and ready, it is stored.
  abbrev pub Fine : LlmModel → Models → Type 0
  Fine m s =
      (a : LlmModel) → get m.id s.rows ≡ some a → a.status ≡ text "ready" → IsStored m s.dirs a

  abbrev pub Busy : LlmModel → Models → Type 0
  Busy m s = (a : LlmModel) → get m.id s.rows ≡ some a → a.status ≢ text "ready"

  abbrev pub Holds : LlmModel → Result Stop (Unit {0}) × Models → Type 0
  Holds m (ok done, s) = Fine m s
  Holds m (err stop, s) = Busy m s

  pub status_set :
      (m : LlmModel) (word : Str) (f : LlmModel → LlmModel) (s : Models)
      → ((r : LlmModel) → (f r).id ≡ r.id)
      → ((r : LlmModel) → (f r).status ≡ word)
      → word ≢ text "ready"
      → Busy m (set m.id f s)
  status_set m word f s ids words ne a h e =
      let (b, found, same) = get-change_rows m.id f s.rows a ids h in
      absurd (ne (sym (words b) ∙ ap (λ r. r.status) (sym same) ∙ e))

  pub not_verifying : text "verifying" ≢ text "ready"
  unfolding text
  not_verifying e = cc

  pub failing :
      (m : LlmModel) (stop : Stop) (s : Models)
      → Fine m (set m.id (λ r. record r { status = text "failed"; error = some stop }) s)
  unfolding text
  failing m stop s a h e =
      let busy =
        status_set m (text "failed") (λ r. record r { status = text "failed"; error = some stop }) s
          (λ r. refl) (λ r. refl) (λ x. cc) in
      absurd (busy a h e)

  pub Busy-delete : (m : LlmModel) (s : Models) → Busy m (delete_meanwhile resolve model_dir m.id s)
  Busy-delete m s a h e = absurd (get-delete_meanwhile resolve model_dir m.id s a h)

  store-Holds :
      (m : LlmModel) (files : List ModelFile) (done : ℕ) (r : Result Stop ModelParts) (s : Models)
      → Busy m s
      → ((parts : ModelParts) (b : LlmModel)
          → r ≡ ok parts
          → get m.id s.rows ≡ some b
          → IsStored m s.dirs (made_ready (in_dir model_dir m.name) files parts done b))
      → Holds m (store model_dir m files done r s)
  store-Holds m files done (err stop) s busy stored = busy
  store-Holds m files done (ok parts) s busy stored = λ a h e.
      let ready = made_ready (in_dir model_dir m.name) files parts done in
      let (b, found, same) = get-change_rows m.id ready s.rows a (λ r. refl) h in
      subst (IsStored m s.dirs) (sym same) (stored parts b refl found)

  -- What is known of the folder before it gets its name
  pub record Checks (m : LlmModel) (disk : Disk) (files : List ModelFile) : Type 0 where
    pub sizes : All (λ f. Sized f.size (disk f.name)) m.files
    pub matching : All (Matching sha256 sha1 disk) m.files
    pub recorded : All (Recorded sha256 sha1 disk) files
    pub names : names_of files ≡ names_of m.files

  clean-Recorded :
      (disk : Disk) (fs : List ModelFile)
      → All (Recorded sha256 sha1 disk) fs
      → All (Recorded sha256 sha1 disk) (map clean fs)
  clean-Recorded disk [] a = tt
  clean-Recorded disk (f ∷ fs) (one, a) = (one, clean-Recorded disk fs a)

  names_of-clean : (fs : List ModelFile) → names_of (map clean fs) ≡ names_of fs
  names_of-clean [] = refl
  names_of-clean (f ∷ fs) = ap (λ l. f.name ∷ l) (names_of-clean fs)

  place-Holds :
      (m : LlmModel) (disk : Disk) (fs : List ModelFile) (done : ℕ) (meanwhile : Meanwhile)
      (s : Models) (o : Option Disk)
      → Checks m disk fs
      → Busy m s
      → Holds m (place sha256 sha1 header configured resolve model_dir m disk fs done meanwhile s o)
  place-Holds m disk fs done meanwhile s (some taken) c busy = busy
  place-Holds m disk fs done meanwhile s none c busy = go meanwhile
    where
      final : Str
      final = in_dir model_dir m.name

      moved : Models
      moved = record s { dirs = put (erase s.dirs (staging_dir model_dir m.id)) final disk }

      stored :
          (parts : ModelParts) (b : LlmModel)
          → compute_parts sha256 header configured final disk m.name (map clean fs) ≡ ok parts
          → IsStored m moved.dirs (made_ready final (map clean fs) parts done b)
      stored parts b e = record {
        path = refl;
        disk = disk;
        there = let same : (final == final) ≡ true = (==_iff final final).1 refl in rw same refl;
        sized = c.sizes;
        matching = c.matching;
        recorded = clean-Recorded disk fs c.recorded;
        names = names_of-clean fs ∙ c.names;
        parts = parts;
        split_of = refl;
        computed = e;
      }

      plain : Holds m (
          store model_dir m
            (map clean fs)
            done
            (compute_parts sha256 header configured final disk m.name (map clean fs))
            moved)
      plain = store-Holds m (map clean fs) done _ moved busy (λ parts b e found. stored parts b e)

      go :
          (w : Meanwhile)
          → Holds m (
              split sha256 sha1 header configured resolve model_dir m disk
                (map clean fs)
                done
                w
                moved)
      go nothing = plain
      go deleted = plain
      go killed_late = busy
      go deleted_late =
          store-Holds m (map clean fs) done _ (delete_meanwhile resolve model_dir m.id moved)
            (Busy-delete m moved)
            (λ parts b e found. absurd (get-delete_meanwhile resolve model_dir m.id moved b found))

  pub unless_cancelled-Holds :
      (m : LlmModel) (disk : Disk) (fs : List ModelFile) (done : ℕ) (meanwhile : Meanwhile)
      (s : Models)
      → Checks m disk fs
      → Busy m s
      → Holds m (
          unless_cancelled sha256 sha1 header configured resolve model_dir m disk fs done meanwhile
            s)
  unless_cancelled-Holds m disk fs done meanwhile s c busy =
      elim (Bool-cases (contains s.cancel m.id)) [
        | inl stop ↦ rw stop busy
        | inr on ↦
            rw on (place-Holds m disk fs done meanwhile s (s.dirs (in_dir model_dir m.name)) c busy)
      ]
