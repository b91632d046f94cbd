-- ===== src/Models/Service/Request/Existing.antt =====
-- The row of a repository and a commit, and what a change of one row leaves as it is.
use mathlib.Core.List.{Memᴰ}
use layersmith.Prelude.{
  ap, ◌≡◌, ◌≢◌, refl, sym, ◌∙◌, inl, inr, true, false, ◌&&◌, Option, none, some, List, [], ◌∷◌,
  arith, Bool-cases, ◌==◌, ==_iff, ==_apart, nat_eq, list_eq, option_eq, All,
}
use layersmith.Prelude.Text.{Str}
use layersmith.Models.Service.{LlmModel, get, change_rows}
use layersmith.Models.Service.Request.{existing_row, model_names}

pub existing_row_lem :
    (repo_id : Str) (commit : Option Str) (rows : List LlmModel) (m : LlmModel)
    → existing_row repo_id commit rows ≡ some m
    → Memᴰ m rows × (m.repo_id ≡ repo_id) × (m.revision ≡ commit)
unfolding existing_row
existing_row_lem repo_id commit [] m h = absurd cc
existing_row_lem repo_id commit (r ∷ rs) m h =
    elim (Bool-cases (r.repo_id == repo_id && r.revision == commit)) [
      | inl hit ↦
          let same : ◌≡◌ {A = Option LlmModel} (some r) (some m) = rw hit at h in
          let e : m ≡ r = cc in
          let hits : (r.repo_id ≡ repo_id) × (r.revision ≡ commit) = (
            (==_iff r.repo_id repo_id).0 (ground arith),
            (==_iff r.revision commit).0 (ground arith),
          ) in
          (
            Memᴰ.head e,
            ap (λ (x : LlmModel). x.repo_id) e ∙ hits.0,
            ap (λ (x : LlmModel). x.revision) e ∙ hits.1,
          )
      | inr miss ↦
          let (there, repo, same_commit) = existing_row_lem repo_id commit rs m (rw miss at h) in
          (Memᴰ.tail there, repo, same_commit)
    ]

pub existing_row-none :
    (repo_id : Str) (commit : Option Str) (rows : List LlmModel)
    → existing_row repo_id commit rows ≡ none
    → All (λ (r : LlmModel). r.repo_id ≡ repo_id → r.revision ≢ commit) rows
unfolding existing_row
existing_row-none repo_id commit [] h = tt
existing_row-none repo_id commit (r ∷ rs) h =
    elim (Bool-cases (r.repo_id == repo_id && r.revision == commit)) [
      | inl hit ↦ absurd (found (rw hit at h))
      | inr miss ↦ (other miss, existing_row-none repo_id commit rs (rw miss at h))
    ]
  where
    found : ◌≢◌ {A = Option LlmModel} (some r) none
    found e = cc

    other :
        (r.repo_id == repo_id && r.revision == commit) ≡ false
        → r.repo_id ≡ repo_id
        → r.revision ≢ commit
    other miss same_repo same_commit =
        let one = (==_iff r.repo_id repo_id).1 same_repo in
        let two = (==_iff r.revision commit).1 same_commit in
        true_false (sym (rw (one, two) refl) ∙ miss)
      where
        true_false : true ≢ false
        true_false e = cc

pub get-change_rows_other :
    (id j : Str) (f : LlmModel → LlmModel) (rows : List LlmModel)
    → ((m : LlmModel) → (f m).id ≡ m.id)
    → j ≢ id
    → get j (change_rows id f rows) ≡ get j rows
unfolding get
get-change_rows_other id j f [] ids ne = refl
get-change_rows_other id j f (m ∷ ms) ids ne =
    let rest = get-change_rows_other id j f ms ids ne in
    elim (Bool-cases (m.id == id)) [
      | inl hit ↦
          let e = (==_iff _ _).0 hit in
          let old : (m.id == j) ≡ false = ==_apart m.id j (λ x. ne (sym x ∙ e)) in
          let new : ((f m).id == j) ≡ false = ==_apart (f m).id j (λ x. ne (sym x ∙ ids m ∙ e)) in
          rw (hit, old, new) rest
      | inr miss ↦ rw (miss, rest) refl
    ]

pub names-change_rows :
    (id : Str) (f : LlmModel → LlmModel) (rows : List LlmModel)
    → ((m : LlmModel) → (f m).name ≡ m.name)
    → model_names (change_rows id f rows) ≡ model_names rows
names-change_rows id f [] names = refl
names-change_rows id f (m ∷ ms) names = elim (Bool-cases (m.id == id)) [
  | inl hit ↦ rw (hit, names m, names-change_rows id f ms names) refl
  | inr miss ↦ rw (miss, names-change_rows id f ms names) refl
]
