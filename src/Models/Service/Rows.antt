-- ===== src/Models/Service/Rows.antt =====
-- Rows that are looked up after a change.
use layersmith.Prelude.{
  ◌≡◌, refl, sym, ap, subst, inl, inr, true, Option, none, some, List, [], ◌∷◌, Bool-cases, ◌==◌,
  ==_iff, ◌∙◌, nat_eq, list_eq,
}
use layersmith.Prelude.Text.{Str}
use layersmith.Models.Service.{LlmModel, get, change_rows, without_row}

pub some-apart : (x y : LlmModel) → ◌≡◌ {A = Option LlmModel} (some x) (some y) → x ≡ y
some-apart x y e = cc

pub none-apart : (x : LlmModel) → ◌≡◌ {A = Option LlmModel} none (some x) → ⊥
none-apart x e = cc

-- A row that is found after a change is the change of a row that was there.
pub get-change_rows :
    (id : Str) (f : LlmModel → LlmModel) (rows : List LlmModel) (a : LlmModel)
    → ((m : LlmModel) → (f m).id ≡ m.id)
    → get id (change_rows id f rows) ≡ some a
    → (b : LlmModel) × (get id rows ≡ some b) × (a ≡ f b)
unfolding get
get-change_rows id f [] a keeps h = cc
get-change_rows id f (m ∷ ms) a keeps h = elim (Bool-cases (m.id == id)) [
  | inl hit ↦
      let found : ((f m).id == id) ≡ true = (==_iff _ _).1 (keeps m ∙ (==_iff _ _).0 hit) in
      rw hit (
        m,
        refl,
        let e : ◌≡◌ {A = Option LlmModel} (some (f m)) (some a) = rw (hit, found) at h in
            sym (some-apart (f m) a e),
      )
  | inr miss ↦ rw miss (get-change_rows id f ms a keeps (rw (miss, miss) at h))
]

pub get-without_row : (id : Str) (rows : List LlmModel) → get id (without_row id rows) ≡ none
unfolding get
get-without_row id [] = refl
get-without_row id (m ∷ ms) = elim (Bool-cases (m.id == id)) [
  | inl hit ↦ rw hit (get-without_row id ms)
  | inr miss ↦ rw (miss, miss) (get-without_row id ms)
]

pub get-id : (id : Str) (rows : List LlmModel) (m : LlmModel) → get id rows ≡ some m → m.id ≡ id
unfolding get
get-id id [] m h = cc
get-id id (r ∷ rs) m h = elim (Bool-cases (r.id == id)) [
  | inl hit ↦
      let same : ◌≡◌ {A = Option LlmModel} (some r) (some m) = rw hit at h in
      subst (λ x. x.id ≡ id) (some-apart r m same) ((==_iff _ _).0 hit)
  | inr miss ↦ get-id id rs m (rw miss at h)
]

pub get-change_rows_hit :
    (id : Str) (f : LlmModel → LlmModel) (rows : List LlmModel) (b : LlmModel)
    → ((m : LlmModel) → (f m).id ≡ m.id)
    → get id rows ≡ some b
    → get id (change_rows id f rows) ≡ some (f b)
unfolding get
get-change_rows_hit id f [] b ids h = cc
get-change_rows_hit id f (m ∷ ms) b ids h = elim (Bool-cases (m.id == id)) [
  | inl hit ↦
      let found : ((f m).id == id) ≡ true = (==_iff _ _).1 (ids m ∙ (==_iff _ _).0 hit) in
      let same : ◌≡◌ {A = Option LlmModel} (some m) (some b) = rw hit at h in
      rw (hit, found) (ap (λ r. some (f r)) (some-apart m b same))
  | inr miss ↦ rw (miss, miss) (get-change_rows_hit id f ms b ids (rw miss at h))
]
