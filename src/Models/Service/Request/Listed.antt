-- ===== src/Models/Service/Request/Listed.antt =====
-- The files that are selected from a listing have different names.
use layersmith.Prelude.{
  ◌≡◌, refl, ap, subst, inl, inr, false, List, [], ◌∷◌, map, arith, Bool-cases, ◌==◌, ==_iff,
  nat_eq, list_eq, option_eq, contains,
}
use layersmith.Prelude.Text.{Str}
use layersmith.Models.Files.{
  Sibling, wanted, wanted_of, is_consolidated, not_consolidated, any_model_part, files_of,
  select_files,
}
use layersmith.Models.Service.Run.Sized.{Distinct, names_of}
use layersmith.Models.Service.Request.{upsert, keyed_onto}

abbrev sibling_names : List Sibling → List Str
sibling_names ss = map (λ s. s.rfilename) ss

abbrev Apart : List Sibling → Type 0
Apart [] = Unit
Apart (s ∷ ss) = (contains (sibling_names ss) s.rfilename ≡ false) × Apart ss

upsert_other :
    (s : Sibling) (ts : List Sibling) (n : Str)
    → (n == s.rfilename) ≡ false
    → contains (sibling_names ts) n ≡ false
    → contains (sibling_names (upsert s ts)) n ≡ false
upsert_other s [] n ne h = rw ne refl
upsert_other s (t ∷ ts) n ne h =
    let first : (n == t.rfilename) ≡ false = ground arith in
    let rest : contains (sibling_names ts) n ≡ false = ground arith in
    elim (Bool-cases (t.rfilename == s.rfilename)) [
      | inl same ↦ rw (same, ne) rest
      | inr other ↦ rw (other, first) (upsert_other s ts n ne rest)
    ]

upsert-Apart : (s : Sibling) (ts : List Sibling) → Apart ts → Apart (upsert s ts)
upsert-Apart s [] a = (refl, tt)
upsert-Apart s (t ∷ ts) (alone, a) = elim (Bool-cases (t.rfilename == s.rfilename)) [
  | inl same ↦
      rw same (subst (λ n. contains (sibling_names ts) n ≡ false) ((==_iff _ _).0 same) alone, a)
  | inr other ↦ rw other (upsert_other s ts t.rfilename other alone, upsert-Apart s ts a)
]

keyed_onto-Apart : (listing ss : List Sibling) → Apart listing → Apart (keyed_onto listing ss)
unfolding keyed_onto
keyed_onto-Apart listing [] a = a
keyed_onto-Apart listing (s ∷ ss) a =
    keyed_onto-Apart (upsert s listing) ss (upsert-Apart s listing a)

wanted_of_other :
    (ss : List Sibling) (n : Str)
    → contains (sibling_names ss) n ≡ false
    → contains (sibling_names (wanted_of ss)) n ≡ false
wanted_of_other [] n h = refl
wanted_of_other (s ∷ ss) n h =
    let first : (n == s.rfilename) ≡ false = ground arith in
    let rest = wanted_of_other ss n (ground arith) in
    elim (Bool-cases (wanted s.rfilename)) [
      | inl hit ↦ rw (hit, first) rest
      | inr miss ↦ rw miss rest
    ]

wanted_of-Apart : (ss : List Sibling) → Apart ss → Apart (wanted_of ss)
wanted_of-Apart [] a = tt
wanted_of-Apart (s ∷ ss) (alone, a) = elim (Bool-cases (wanted s.rfilename)) [
  | inl hit ↦ rw hit (wanted_of_other ss s.rfilename alone, wanted_of-Apart ss a)
  | inr miss ↦ rw miss (wanted_of-Apart ss a)
]

not_consolidated_other :
    (ss : List Sibling) (n : Str)
    → contains (sibling_names ss) n ≡ false
    → contains (sibling_names (not_consolidated ss)) n ≡ false
not_consolidated_other [] n h = refl
not_consolidated_other (s ∷ ss) n h =
    let first : (n == s.rfilename) ≡ false = ground arith in
    let rest = not_consolidated_other ss n (ground arith) in
    elim (Bool-cases (is_consolidated s.rfilename)) [
      | inl hit ↦ rw hit rest
      | inr miss ↦ rw (miss, first) rest
    ]

not_consolidated-Apart : (ss : List Sibling) → Apart ss → Apart (not_consolidated ss)
not_consolidated-Apart [] a = tt
not_consolidated-Apart (s ∷ ss) (alone, a) = elim (Bool-cases (is_consolidated s.rfilename)) [
  | inl hit ↦ rw hit (not_consolidated-Apart ss a)
  | inr miss ↦ rw miss (not_consolidated_other ss s.rfilename alone, not_consolidated-Apart ss a)
]

names_of-files_of : (ss : List Sibling) → names_of (files_of ss) ≡ sibling_names ss
names_of-files_of [] = refl
names_of-files_of (s ∷ ss) = ap (λ l. s.rfilename ∷ l) (names_of-files_of ss)

files_of-Distinct : (ss : List Sibling) → Apart ss → Distinct (files_of ss)
files_of-Distinct [] a = tt
files_of-Distinct (s ∷ ss) (alone, a) = (rw (names_of-files_of ss) alone, files_of-Distinct ss a)

pub select_files-Distinct : (ss : List Sibling) → Distinct (select_files (keyed_onto [] ss))
unfolding select_files
select_files-Distinct ss =
    let all = keyed_onto [] ss in
    let a = wanted_of-Apart all (keyed_onto-Apart [] ss tt) in
    elim (Bool-cases (any_model_part (wanted_of all))) [
      | inl twice ↦ rw twice (
          files_of-Distinct (not_consolidated (wanted_of all))
            (not_consolidated-Apart (wanted_of all) a))
      | inr once ↦ rw once (files_of-Distinct (wanted_of all) a)
    ]
