-- ===== src/Models/Names/Fresh.antt =====
-- `folder_name` ends, with a name that is not taken.
use layersmith.Prelude.{
  ℕ, zero, suc, ◌+◌, ◌-◌, ◌≤◌, ◌<◌, ◌≡◌, ◌≢◌, refl, sym, ap, ◌∙◌, inl, inr, true, false, Option,
  some, List, [], ◌∷◌, ◌++◌, arith, Bool-cases, ◌==◌, ==_iff, ==_apart, nat_eq, list_eq, contains,
  length, if◌then◌else◌,
}
use layersmith.Prelude.Text.{Str, show}
use layersmith.Prelude.Strings.{cut_first}
use layersmith.Core.Version.Patch.{int_of-show}
use layersmith.Core.Version.{int_of}
use layersmith.Models.Names.{
  owner_name, long_name, numbered, is_free, next_numbered, choose, folder_name,
}

abbrev digit_of : ℕ → Option ℕ
digit_of c = some (c - 48)

show-apart : (i j : ℕ) → show i ≡ show j → i ≡ j
show-apart i j e =
    let ascii = λ (n : ℕ) (h : n < 10). ap (λ k. some k) (omega arith) in
    let shown : ◌≡◌ {A = Option ℕ} (some i) (some j) =
      sym (int_of-show digit_of ascii i) ∙ ap (int_of digit_of) e ∙ int_of-show digit_of ascii j in
    cc

append-apart : (s t u : Str) → s ++ t ≡ s ++ u → t ≡ u
append-apart [] t u e = e
append-apart (c ∷ s) t u e = append-apart s t u (cc)

numbered-apart : (long : Str) (i j : ℕ) → i < j → numbered long j ≢ numbered long i
unfolding numbered
numbered-apart long i j h e =
    let same = append-apart long (45 ∷ show j) (45 ∷ show i) e in
    let digits : show j ≡ show i = cc in let equal = show-apart j i digits in absurd (omega arith)

abbrev without : Str → List Str → List Str
without a [] = []
without a (x ∷ xs) = let rest = without a xs in if a == x then rest else x ∷ rest

length-without_le : (a : Str) (xs : List Str) → length (without a xs) ≤ length xs
length-without_le a [] = omega arith
length-without_le a (x ∷ xs) =
    let ih = length-without_le a xs in
    elim (Bool-cases (a == x)) [
      | inl same ↦ rw same (omega arith)
      | inr other ↦ rw other (omega arith)
    ]

length-without :
    (a : Str) (xs : List Str) → contains xs a ≡ true → length (without a xs) < length xs
length-without a [] h = cc
length-without a (x ∷ xs) h = elim (Bool-cases (a == x)) [
  | inl same ↦ rw same (let le = length-without_le a xs in omega arith)
  | inr other ↦ rw other (let ih = length-without a xs (rw other at h) in omega arith)
]

contains-without :
    (a b : Str) (xs : List Str) → b ≢ a → contains xs b ≡ true → contains (without a xs) b ≡ true
contains-without a b [] ne h = cc
contains-without a b (x ∷ xs) ne h = elim (Bool-cases (a == x)) [
  | inl same ↦ rw same (
      let apart : (b == x) ≡ false = ==_apart b x (λ e. ne (e ∙ sym ((==_iff a x).0 same))) in
      contains-without a b xs ne (rw apart at h))
  | inr other ↦ rw other (elim (Bool-cases (b == x)) [
    | inl hit ↦ rw hit refl
    | inr miss ↦ rw miss (contains-without a b xs ne (rw miss at h))
  ])
]

-- The names that are still to come and are taken are all in `left`, which gets shorter.
next_numbered_lem :
    (fuel index : ℕ) (long : Str) (taken left : List Str)
    → length left < fuel
    → ((j : ℕ)
        → index ≤ j
        → contains taken (numbered long j) ≡ true
        → contains left (numbered long j) ≡ true)
    → (name : Str) × (next_numbered fuel index long taken ≡ some name)
      × (contains taken name ≡ false)
unfolding next_numbered
next_numbered_lem zero index long taken left h all = elim h [ ]
next_numbered_lem (suc fuel) index long taken left h all =
    elim (Bool-cases (contains taken (numbered long index))) [
      | inr free ↦ rw free (numbered long index, refl, free)
      | inl used ↦ rw used (
          next_numbered_lem fuel (index + 1) long taken (without (numbered long index) left)
            (let fewer = length-without (numbered long index) left (all index (omega arith) used) in
              omega arith)
            (λ j le c.
              contains-without (numbered long index) (numbered long j) left
                (numbered-apart long index j (omega arith)) (all j (omega arith) c)))
    ]

choose_lem :
    (name long : Str) (taken : List Str)
    → (folder : Str) × (choose name long taken ≡ some folder) × (contains taken folder ≡ false)
choose_lem name long taken = elim (Bool-cases (is_free taken name)) [
  | inl short ↦ rw short (name, refl, ground arith)
  | inr used ↦ rw used (elim (Bool-cases (is_free taken long)) [
    | inl whole ↦ rw whole (long, refl, ground arith)
    | inr both ↦
        rw both
          (next_numbered_lem (length taken + 1) 2 long taken taken (omega arith) (λ j le c. c))
  ])
]

-- Whatever names are taken, the search for a folder name ends, and the name that it finds is not
-- taken.
pub folder_name_ends :
    (repo_id : Str) (taken : List Str)
    → (name : Str) × (folder_name repo_id taken ≡ some name) × (contains taken name ≡ false)
unfolding folder_name
folder_name_ends repo_id taken =
    let (owner, name) = owner_name repo_id (cut_first 47 repo_id) in
    choose_lem name (long_name owner name) taken
