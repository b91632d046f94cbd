-- ===== src/Models/Service/Request/Added.antt =====
-- What a request adds.
use mathlib.Core.List.{Memᴰ}
use layersmith.Prelude.{
  ℕ, ◌+◌, ◌≡◌, ◌≢◌, refl, subst, ◌⊎◌, inl, inr, true, false, Option, none, some, List, [], ◌∷◌,
  ◌++◌, Bool-cases, ltb, ◌==◌, ==_iff, nat_eq, list_eq, option_eq, contains, All, ==_differ,
}
use layersmith.Prelude.Result.{Result, ok, >>=-eq-ok, ok-apart}
use layersmith.Prelude.Text.{Str, text}
use layersmith.Models.Files.{ModelFile, select_files, has_weights}
use layersmith.Models.Names.Fresh.{folder_name_ends}
use layersmith.Models.Service.{LlmModel, Models, get, change_rows, sum_of}
use layersmith.Models.Service.Run.{headroom}
use layersmith.Models.Service.Run.Sized.{Distinct}
use layersmith.Models.Service.Request.Listed.{select_files-Distinct}
use layersmith.Models.Service.Request.{
  Refusal, Metadata, keyed_onto, metadata, existing_row, model_names, new_model, added, known,
  find_or_add, request,
}
use layersmith.Models.Service.Request.Existing.{
  existing_row_lem, existing_row-none, get-change_rows_other, names-change_rows,
}

-- What a request does to a row that has failed
abbrev pub tried_again : LlmModel → LlmModel
tried_again m = record m { status = text "queued"; error = none }

-- A row of this repository and commit was there, and its id is returned. If it had failed, it is queued
-- again, without its error; else nothing has changed.
pub record IsKnown (repo_id : Str) (commit : Option Str) (s : Models) (id : Str) (t : Models)
    : Type 0 where
  pub row : LlmModel
  pub there : Memᴰ row s.rows
  pub same_repo : row.repo_id ≡ repo_id
  pub same_commit : row.revision ≡ commit
  pub returned : row.id ≡ id
  pub changed :
      ((row.status ≢ text "failed") × (t ≡ s))
      ⊎ ((row.status ≡ text "failed")
          × (t ≡ record s {
            rows = change_rows id tried_again s.rows;
            queue = s.queue ++ (id ∷ []);
          }))
  pub others : (j : Str) → j ≢ id → get j t.rows ≡ get j s.rows
  pub same_names : model_names t.rows ≡ model_names s.rows

-- No row of this repository and commit was there, and the request has added one that is queued, under a
-- name that no row has, whose files have different names.
pub record IsAdded (new_id repo_id : Str) (commit : Option Str) (s : Models) (id : Str) (t : Models)
    : Type 0 where
  pub new : All (λ (r : LlmModel). r.repo_id ≡ repo_id → r.revision ≢ commit) s.rows
  pub model : LlmModel
  pub rows : t.rows ≡ s.rows ++ (model ∷ [])
  pub of_repo : model.repo_id ≡ repo_id
  pub of_commit : model.revision ≡ commit
  pub waiting : model.status ≡ text "queued"
  pub returned : (model.id ≡ id) × (id ≡ new_id)
  pub fresh : contains (model_names s.rows) model.name ≡ false
  pub distinct : Distinct model.files
  pub weighted : has_weights model.files ≡ true
  pub queued : t.queue ≡ s.queue ++ (id ∷ [])
  pub folders : t.dirs ≡ s.dirs

known-IsKnown :
    (repo_id : Str) (commit : Option Str) (s : Models) (m : LlmModel)
    → Memᴰ m s.rows × (m.repo_id ≡ repo_id) × (m.revision ≡ commit)
    → IsKnown repo_id commit s (known s m).0 (known s m).1
known-IsKnown repo_id commit s m (there, repo, commit_same) =
    elim (Bool-cases (m.status == text "failed")) [
      | inl failed ↦ rw failed (record {
        row = m;
        there = there;
        same_repo = repo;
        same_commit = commit_same;
        returned = refl;
        changed = inr ((==_iff m.status (text "failed")).0 failed, refl);
        others = λ j ne. get-change_rows_other m.id j _ s.rows (λ r. refl) ne;
        same_names = names-change_rows m.id _ s.rows (λ r. refl);
      })
      | inr kept ↦ rw kept (record {
        row = m;
        there = there;
        same_repo = repo;
        same_commit = commit_same;
        returned = refl;
        changed = inl (==_differ m.status (text "failed") kept, refl);
        others = λ j ne. refl;
        same_names = refl;
      })
    ]

module _ (new_id repo_id revision : Str) (catalog_key : Option Str) (free : ℕ) where
  abbrev Outcome : Option Str → Models → Str → Models → Type 0
  Outcome commit s id t = IsKnown repo_id commit s id t ⊎ IsAdded new_id repo_id commit s id t

  added-IsAdded :
      (s : Models) (d : Metadata) (files : List ModelFile) (name : Str)
      → All (λ (r : LlmModel). r.repo_id ≡ repo_id → r.revision ≢ d.sha) s.rows
      → contains (model_names s.rows) name ≡ false
      → Distinct files
      → has_weights files ≡ true
      → let result =
          added new_id repo_id revision catalog_key free s
            (new_model new_id repo_id revision catalog_key free d files name) in
        IsAdded new_id repo_id d.sha s result.0 result.1
  added-IsAdded s d files name apart free_name distinct weights = record {
    new = apart;
    model = new_model new_id repo_id revision catalog_key free d files name;
    rows = refl;
    of_repo = refl;
    of_commit = refl;
    waiting = refl;
    returned = (refl, refl);
    fresh = free_name;
    distinct = distinct;
    weighted = weights;
    queued = refl;
    folders = refl;
  }

  find_or_add_ok :
      (s : Models) (d : Metadata) (files : List ModelFile) (o : Option LlmModel) (id : Str)
      (t : Models)
      → existing_row repo_id d.sha s.rows ≡ o
      → Distinct files
      → has_weights files ≡ true
      → find_or_add new_id repo_id revision catalog_key free s d files o ≡ ok (id, t)
      → Outcome d.sha s id t
  find_or_add_ok s d files (some m) id t e distinct weights h =
      let same = ok-apart h in
      let k = known-IsKnown repo_id d.sha s m (existing_row_lem repo_id d.sha s.rows m e) in
      inl (subst (λ r. IsKnown repo_id d.sha s r.0 r.1) same k)
  find_or_add_ok s d files none id t e distinct weights h =
      elim (Bool-cases (ltb free (sum_of files + headroom))) [
        | inl full ↦ cc (rw full at h)
        | inr room ↦
            let (name, found, fresh) = folder_name_ends repo_id (model_names s.rows) in
            let same = ok-apart (rw (room, found) at h) in
            inr (
              subst (λ r. IsAdded new_id repo_id d.sha s r.0 r.1) same
                (added-IsAdded s d files name (existing_row-none repo_id d.sha s.rows e) fresh
                  distinct weights))
      ]

  -- A request that returns has read the metadata of its repository. If a row of this repository and of the
  -- commit of the metadata was there, it gives the id of such a row; if that row had failed, it queues
  -- it again without its error, and else it changes nothing. If none was there, it has added and
  -- queued one of this repository and commit, whose name no other row has, and whose files have
  -- different names and contain weights.
  pub request_ok :
      (answer : Result Refusal Metadata) (s t : Models) (id : Str)
      → request new_id repo_id revision catalog_key free answer s ≡ ok (id, t)
      → (d : Metadata) × (metadata repo_id revision answer ≡ ok d)
        × (IsKnown repo_id d.sha s id t ⊎ IsAdded new_id repo_id d.sha s id t)
  unfolding request
  request_ok answer s t id h =
      let (d, told, rest) = >>=-eq-ok (metadata repo_id revision answer) _ h in
      elim (Bool-cases (has_weights (select_files (keyed_onto [] d.siblings)))) [
        | inl weights ↦ (
          d,
          told,
          find_or_add_ok s d (select_files (keyed_onto [] d.siblings))
              (existing_row repo_id d.sha s.rows) id t refl (select_files-Distinct d.siblings)
              weights (rw weights at rest),
        )
        | inr without ↦ cc (rw without at rest)
      ]
