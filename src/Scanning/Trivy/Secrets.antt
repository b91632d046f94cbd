-- ===== src/Scanning/Trivy/Secrets.antt =====
-- What a stored scan says of the secrets that were found.
use mathlib.Core.Path.{fun_ext}
use layersmith.Prelude.{
  ◌≡◌, ◌≢◌, refl, length, sym, ap, ◌∙◌, Bool, true, false, Option, none, some, List, [], ◌∷◌, ◌||◌,
  map, ◌==◌, ==_iff, nat_eq, list_eq, list_beq, contains, if◌then◌else◌, Bool-cases, inl, inr,
}
use layersmith.Prelude.Text.{Str, text}
use layersmith.Scanning.Trivy.{
  Value, Row, or_null, mask, ScanTarget, Report, secret_value_fields, redacted, truthy, str,
  overwrite, redact_fields, redact_row, redact_target, redact_metadata, redact, secret,
  findings_all, scan_result,
}

abbrev pub mapped : (Value → Value) → Option Value → Option Value
mapped f none = none
mapped f (some v) = some (f v)

-- A row in which the values of some fields are others
abbrev pub change : List Str → (Str → Value → Value) → Row → Row
change fields f row k = if contains fields k then mapped (f k) (row k) else row k

-- The fields of a row in which Trivy's report shows a secret
abbrev pub carriers : List Str
unfolding text
carriers = text "Match" ∷ text "Code" ∷ text "Lines" ∷ []

-- A report in which the secret values are others: in each row of a secret, and in the image's history
module _ (f : Row → Str → Value → Value) where
  abbrev change_secrets : List Row → List Row
  change_secrets [] = []
  change_secrets (row ∷ rows) = change carriers (f row) row ∷ change_secrets rows

  abbrev change_target : ScanTarget → ScanTarget
  change_target r = record r { secrets = change_secrets r.secrets }

  abbrev change_targets : List ScanTarget → List ScanTarget
  change_targets [] = []
  change_targets (r ∷ rs) = change_target r ∷ change_targets rs

  abbrev change_metadata : Option Row → Option Row
  change_metadata none = none
  change_metadata (some m) = some (change (text "ImageConfig" ∷ []) (f m) m)

  unfoldable pub change_report : Report → Report
  unfolding text
  change_report r = record r {
    results = change_targets r.results;
    metadata = change_metadata r.metadata;
  }

-- What redaction makes of a value
abbrev hide : Bool → Option Value → Option Value
hide false o = o
hide true o = mapped (λ v. redacted) o

redact_fields_lem :
    (fields : List Str) (row : Row) (k : Str)
    → redact_fields fields row k ≡ hide (contains fields k) (row k)
unfolding redact_fields
redact_fields_lem [] row k = refl
redact_fields_lem (field ∷ fields) row k =
    redact_fields_lem fields (overwrite row field (row field)) k ∙ go (row field) refl
  where
    still : (b : Bool) → hide b (some redacted) ≡ some redacted
    still true = refl
    still false = refl

    absent : (b : Bool) → hide b none ≡ none
    absent true = refl
    absent false = refl

    go :
        (o : Option Value)
        → row field ≡ o
        → hide (contains fields k) (overwrite row field o k)
          ≡ hide (k == field || contains fields k) (row k)
    go o e = elim (Bool-cases (k == field)) [
      | inl same ↦ rw same (one o (ap row ((==_iff k field).0 same) ∙ e) same)
      | inr other ↦ rw other (two o other)
    ]
      where
        one :
            (o : Option Value)
            → row k ≡ o
            → (k == field) ≡ true
            → hide (contains fields k) (overwrite row field o k) ≡ mapped (λ v. redacted) (row k)
        one none e same = rw e (absent (contains fields k))
        one (some v) e same = rw (e, same) (still (contains fields k))

        two :
            (o : Option Value)
            → (k == field) ≡ false
            → hide (contains fields k) (overwrite row field o k) ≡ hide (contains fields k) (row k)
        two none other = refl
        two (some v) other = rw other refl

redact_fields-change :
    (changed fields : List Str) (f : Str → Value → Value) (row : Row)
    → ((k : Str) → contains changed k ≡ true → contains fields k ≡ true)
    → redact_fields fields (change changed f row) ≡ redact_fields fields row
redact_fields-change changed fields f row covered = fun_ext (λ k.
    redact_fields_lem fields (change changed f row) k
    ∙ go (contains changed k) (contains fields k) k (row k) (covered k)
    ∙ sym (redact_fields_lem fields row k))
  where
    go :
        (b c : Bool) (k : Str) (o : Option Value)
        → (b ≡ true → c ≡ true)
        → hide c (if b then mapped (f k) o else o) ≡ hide c o
    go false c k o h = refl
    go true c k none h = refl
    go true true k (some v) h = refl
    go true false k (some v) h = absurd (true_false (h refl))
      where
        true_false : false ≢ true
        true_false e = cc

-- The code redacts each field that shows a secret.
carriers_covered : (k : Str) → contains carriers k ≡ true → contains secret_value_fields k ≡ true
unfolding secret_value_fields text
carriers_covered k h = h

-- The mask of a value depends on its length and on whether there is any.
mask-same : (v w : Value) → truthy w ≡ truthy v → length (str w) ≡ length (str v) → mask w ≡ mask v
unfolding mask
mask-same v w t l = rw (t, l) refl

module _ (f : Row → Str → Value → Value) where
  redact-change_secrets :
      (rows : List Row) → map redact_row (change_secrets f rows) ≡ map redact_row rows
  redact-change_secrets [] = refl
  redact-change_secrets (row ∷ rows) =
      rw
        (
          redact_fields-change carriers secret_value_fields (f row) row carriers_covered,
          redact-change_secrets rows,
        )
        refl

  redact-change_targets :
      (rs : List ScanTarget) → map redact_target (change_targets f rs) ≡ map redact_target rs
  redact-change_targets [] = refl
  redact-change_targets (r ∷ rs) =
      rw (redact-change_secrets r.secrets, redact-change_targets rs) refl

  redact-change_metadata :
      (m : Option Row) → redact_metadata (change_metadata f m) ≡ redact_metadata m
  redact-change_metadata none = refl
  redact-change_metadata (some m) =
      rw
        (redact_fields-change (text "ImageConfig" ∷ []) (text "ImageConfig" ∷ []) (f m) m
          (λ k h. h))
        refl

  redact-change_report : (r : Report) → redact (change_report f r) ≡ redact r
  unfolding redact change_report
  redact-change_report r =
      rw (redact-change_targets r.results, redact-change_metadata r.metadata) refl

  module _ (lower : Str → Str)
      (same_size : (row : Row) (v : Value)
        → (truthy (f row (text "Match") v) ≡ truthy v)
          × (length (str (f row (text "Match") v)) ≡ length (str v))) where
    secret-change :
        (target : Str) (row : Row)
        → secret lower target (change carriers (f row) row) ≡ secret lower target row
    unfolding text list_beq
    secret-change target row =
        ap (λ m. record (secret lower target row) { masked_match = m })
          (masked (row (text "Match")))
      where
        masked :
            (o : Option Value) → mask (or_null (mapped (f row (text "Match")) o)) ≡ mask (or_null o)
        masked none = refl
        masked (some v) =
            mask-same v (f row (text "Match") v) (same_size row v).0 (same_size row v).1

    secrets-change :
        (target : Str) (rows : List Row)
        → map (secret lower target) (change_secrets f rows) ≡ map (secret lower target) rows
    secrets-change target [] = refl
    secrets-change target (row ∷ rows) =
        rw (secret-change target row, secrets-change target rows) refl

    findings-change :
        (rs : List ScanTarget) → findings_all lower (change_targets f rs) ≡ findings_all lower rs
    findings-change [] = refl
    findings-change (r ∷ rs) = rw (secrets-change _ r.secrets, findings-change rs) refl

    -- Two reports that differ only in secret values, that is in the fields Match, Code and Lines of the rows of
    -- secrets and in the image's recorded history, give the same findings and the same stored report,
    -- as long as each Match has the same length and is empty in both or in none.
    pub scan_result-change_report :
        (r : Report) → scan_result lower (change_report f r) ≡ scan_result lower r
    unfolding scan_result change_report
    scan_result-change_report r = rw (findings-change r.results, redact-change_report r) refl
