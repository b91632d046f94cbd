-- ===== src/Core/Packages/Tables.antt =====
-- The names in the catalogue's tables are names of packages.
use layersmith.Prelude.{
  ◌≡◌, refl, subst, Bool, true, Option, none, some, List, [], ◌∷◌, ◌++◌, ◌&&◌, ◌==◌, nat_eq,
  list_eq, All, Bool-cases, inl, inr, arith,
}
use layersmith.Prelude.Result.{ok}
use layersmith.Prelude.Text.{Str, text}
use layersmith.Core.Patterns.{package_re}
use layersmith.Core.Catalog.{
  Names, Preset, find_key, defined, package_map, in_family, presets_by_name,
}
use layersmith.Core.Packages.{collect, mapped_to, package_for}

abbrev all_packages : List Str → Bool
all_packages [] = true
all_packages (p ∷ ps) = package_re p && all_packages ps

abbrev maybe_package : Option Str → Bool
maybe_package none = true
maybe_package (some p) = package_re p

abbrev good_names : Names → Bool
good_names n = maybe_package n.rpm && (maybe_package n.deb && maybe_package n.apk)

abbrev good_preset : Preset → Bool
good_preset p = all_packages p.packages

abbrev all_values {ℓ} : {A : Type ℓ} → (A → Bool) → List (Str × A) → Bool
all_values p [] = true
all_values p ((k, v) ∷ table) = p v && all_values p table

find_key_lem {ℓ} :
    {A : Type ℓ} (p : A → Bool) (table : List (Str × A)) (key : Str) (v : A)
    → all_values p table ≡ true
    → find_key table key ≡ some v
    → p v ≡ true
find_key_lem p [] key v good h = absurd cc
find_key_lem {A = A} p ((k, w) ∷ table) key v good h = elim (Bool-cases (k == key)) [
  | inl here ↦
      let same : w ≡ v = some_apart (rw here at h) in
      let first : p w ≡ true = ground arith in subst (λ x. p x ≡ true) same first
  | inr there ↦ find_key_lem p table key v (ground arith) (rw there at h)
]
  where
    some_apart : {x y : A} → ◌≡◌ {A = Option A} (some x) (some y) → x ≡ y
    some_apart e = cc

package_map_good : all_values good_names package_map ≡ true
unfolding package_map package_re text
package_map_good = refl

presets_good : all_values good_preset presets_by_name ≡ true
unfolding presets_by_name package_re text
presets_good = refl

in_family_good :
    (name family m : Str) (n : Names)
    → package_re name ≡ true
    → good_names n ≡ true
    → in_family name n family ≡ some m
    → package_re m ≡ true
unfolding in_family
in_family_good name family m n named good h =
    let good_rpm : maybe_package n.rpm ≡ true = ground arith in
    let good_deb : maybe_package n.deb ≡ true = ground arith in
    let good_apk : maybe_package n.apk ≡ true = ground arith in
    elim (Bool-cases (family == text "rpm")) [
      | inl rpm ↦ of_field n.rpm good_rpm (rw rpm at h)
      | inr not_rpm ↦ elim (Bool-cases (family == text "deb")) [
        | inl deb ↦ of_field n.deb good_deb (rw (not_rpm, deb) at h)
        | inr not_deb ↦ elim (Bool-cases (family == text "apk")) [
          | inl apk ↦ of_field n.apk good_apk (rw (not_rpm, not_deb, apk) at h)
          | inr not_apk ↦ of_field (some name) named (rw (not_rpm, not_deb, not_apk) at h)
        ]
      ]
    ]
  where
    of_field : (o : Option Str) → maybe_package o ≡ true → o ≡ some m → package_re m ≡ true
    of_field o good e = subst (λ x. maybe_package x ≡ true) e good

-- The package of a capability is a package's name.
pub package_for-package_re :
    (family name m : Str)
    → package_re name ≡ true
    → package_for family name ≡ some m
    → package_re m ≡ true
unfolding package_for
package_for-package_re family name m named h = go (find_key package_map name) refl h
  where
    go :
        (o : Option Names)
        → find_key package_map name ≡ o
        → mapped_to family name o ≡ some m
        → package_re m ≡ true
    go none e h = let same : name ≡ m = cc in subst (λ x. package_re x ≡ true) same named
    go (some n) e h =
        in_family_good name family m n named
          (find_key_lem good_names package_map name n package_map_good e) h

all_packages-All : (ps : List Str) → all_packages ps ≡ true → All (λ p. package_re p ≡ true) ps
all_packages-All [] h = tt
all_packages-All (p ∷ ps) h = (ground arith, all_packages-All ps (ground arith))

pub All-append : (P : Str → Type 0) (xs ys : List Str) → All P xs → All P ys → All P (xs ++ ys)
All-append P [] ys a b = b
All-append P (x ∷ xs) ys (one, a) b = (one, All-append P xs ys a b)

-- Presets that are known have packages and tools.
pub collect_lem :
    (names : List Str)
    → All (λ name. defined (find_key presets_by_name name) ≡ true) names
    → (ps : List Str) × (ts : List Str) × (collect names ≡ ok (ps, ts))
      × All (λ p. package_re p ≡ true) ps
unfolding collect
collect_lem [] a = ([], [], refl, tt)
collect_lem (name ∷ names) (known, a) =
    let (ps, ts, e, good) = collect_lem names a in
    go ps ts e good (find_key presets_by_name name) refl known
  where
    go :
        (ps ts : List Str)
        → collect names ≡ ok (ps, ts)
        → All (λ p. package_re p ≡ true) ps
        → (o : Option Preset) → find_key presets_by_name name ≡ o
        → defined o ≡ true
        → (qs : List Str) × (us : List Str) × (collect (name ∷ names) ≡ ok (qs, us))
          × All (λ p. package_re p ≡ true) qs
    go ps ts rest good none e known = absurd cc
    go ps ts rest good (some p) e known = (
      p.packages ++ ps,
      p.tools ++ ts,
      rw (e, rest) refl,
      All-append (λ p. package_re p ≡ true) p.packages ps
          (all_packages-All p.packages
            (find_key_lem good_preset presets_by_name name p presets_good e))
          good,
    )
