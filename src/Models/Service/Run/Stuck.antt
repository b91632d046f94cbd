-- ===== src/Models/Service/Run/Stuck.antt =====
-- A folder that stands where a model is to go, after a run that the end of the process has broken off.
use layersmith.Prelude.{
  ◌≡◌, ◌≢◌, refl, sym, ap, subst, ◌∙◌, inl, inr, false, Option, none, some, List, [], ◌∷◌,
  Bool-cases, ◌==◌, nat_eq, list_eq, contains,
}
use layersmith.Prelude.Text.{Str, text}
use layersmith.Prelude.Map.{put}
use layersmith.Split.Manifest.{Disk}
use layersmith.Models.Service.{
  LlmModel, Models, get, set, active, in_dir, staging_dir, remove_folder, is_inside, delete_row,
  delete,
}
use layersmith.Models.Service.Rows.{some-apart, none-apart, get-change_rows, get-without_row}
use layersmith.Models.Service.Run.{after_delete, delete_meanwhile, requeue}

-- The folder of this name is there, and the row, if it is there, has this name, is not ready and has
-- no path.
pub record IsStuck (model_dir id name : Str) (s : Models) : Type 0 where
  pub disk : Disk
  pub taken : s.dirs (in_dir model_dir name) ≡ some disk
  pub row :
      (a : LlmModel)
      → get id s.rows ≡ some a
      → (a.status ≢ text "ready") × (a.name ≡ name) × (a.path ≡ none)

pub get-requeue :
    (id : Str) (rows : List LlmModel) (a : LlmModel)
    → get id (requeue rows) ≡ some a
    → (b : LlmModel) × (get id rows ≡ some b)
      × (a.name ≡ b.name)
      × (a.path ≡ b.path)
      × (b.status ≢ text "ready" → a.status ≢ text "ready")
unfolding get text
get-requeue id [] a h = cc
get-requeue id (m ∷ ms) a h = elim (Bool-cases (contains active m.status)) [
  | inl busy ↦ elim (Bool-cases (m.id == id)) [
    | inl hit ↦
        let same : ◌≡◌ {A = Option LlmModel} (some (record m { status = text "queued" })) (some a) =
          rw (busy, hit) at h in
        let e = some-apart (record m { status = text "queued" }) a same in
        rw hit (
          m,
          refl,
          sym (ap (λ r. r.name) e),
          sym (ap (λ r. r.path) e),
          λ ne r. absurd (not_ready (ap (λ x. x.status) e ∙ r)),
        )
    | inr miss ↦ rw miss (get-requeue id ms a (rw (busy, miss) at h))
  ]
  | inr idle ↦ elim (Bool-cases (m.id == id)) [
    | inl hit ↦
        let same : ◌≡◌ {A = Option LlmModel} (some m) (some a) = rw (idle, hit) at h in
        let e = some-apart m a same in
        rw hit (
          m,
          refl,
          sym (ap (λ r. r.name) e),
          sym (ap (λ r. r.path) e),
          λ ne r. ne (ap (λ x. x.status) e ∙ r),
        )
    | inr miss ↦ rw miss (get-requeue id ms a (rw (idle, miss) at h))
  ]
]
  where
    not_ready : text "queued" ≡ text "ready" → ⊥
    not_ready e = cc

module _ (model_dir id name : Str)
    (apart : (in_dir model_dir name == staging_dir model_dir id) ≡ false) where
  pub set-IsStuck :
      (word : Str) (f : LlmModel → LlmModel) (s : Models)
      → ((r : LlmModel)
          → f r ≡ record (f r) { id = r.id; name = r.name; path = r.path; status = word })
      → word ≢ text "ready"
      → IsStuck model_dir id name s
      → IsStuck model_dir id name (set id f s)
  set-IsStuck word f s keeps ne stuck = record {
    disk = stuck.disk;
    taken = stuck.taken;
    row = λ a h.
        let (b, found, e) = get-change_rows id f s.rows a (λ r. ap (λ x. x.id) (keeps r)) h in
        let (waiting, named, bare) = stuck.row b found in
        let all = e ∙ keeps b in
        (
          (λ r. ne (sym (ap (λ x. x.status) all) ∙ r)),
          ap (λ x. x.name) all ∙ named,
          ap (λ x. x.path) all ∙ bare,
        );
  }

  pub staged-IsStuck :
      (disk : Disk) (s : Models)
      → IsStuck model_dir id name s
      → IsStuck model_dir id name (record s { dirs = put s.dirs (staging_dir model_dir id) disk })
  staged-IsStuck disk s stuck = record {
    disk = stuck.disk;
    taken = rw apart stuck.taken;
    row = stuck.row;
  }

  pub delete-IsStuck :
      (resolve : Str → List Str) (s : Models)
      → IsStuck model_dir id name s
      → IsStuck model_dir id name (delete_meanwhile resolve model_dir id s)
  unfolding delete_meanwhile delete
  delete-IsStuck resolve s stuck = go (get id s.rows) refl
    where
      removed :
          (folder : Str)
          → folder ≡ staging_dir model_dir id
          → remove_folder
              (λ path disk. none)
              resolve
              model_dir
              (some folder)
              s.dirs
              (in_dir model_dir name)
            ≡ some stuck.disk
      removed [] e = stuck.taken
      removed (c ∷ folder) e =
          elim (Bool-cases (is_inside (λ path disk. none) resolve model_dir (c ∷ folder))) [
            | inl inside ↦
                let other = subst (λ x. (in_dir model_dir name == x) ≡ false) (sym e) apart in
                rw (inside, other) stuck.taken
            | inr outside ↦ rw outside stuck.taken
          ]

      go :
          (row : Option LlmModel)
          → get id s.rows ≡ row
          → IsStuck model_dir id name (
              after_delete resolve model_dir s
                (delete_row (λ path disk. none) resolve model_dir id s row))
      go none e = stuck
      go (some m) e = record {
        disk = stuck.disk;
        taken =
            let (_, _, bare) = stuck.row m e in rw bare (removed (staging_dir model_dir id) refl);
        row = λ a h. let gone = get-without_row id s.rows in absurd (none-apart a (sym gone ∙ h));
      }
