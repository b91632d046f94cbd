-- ===== src/Core/Packages/Distinct.antt =====
-- Adding packages to a list in which none stands twice.
use layersmith.Prelude.{
  ℕ, ◌≡◌, refl, sym, Bool, true, false, some, List, [], ◌∷◌, ◌++◌, ◌&&◌, ◌||◌, not, ◌==◌, ==_iff,
  ==_apart, ==_differ, nat_eq, list_eq, contains, All, Bool-cases, inl, inr, arith,
}
use layersmith.Prelude.Result.{ok}
use layersmith.Prelude.Text.{Str, text}
use layersmith.Prelude.Pattern.{all_in, headed, is_alnum, one_of}
use layersmith.Prelude.Strings.{is_space}
use layersmith.Prelude.Strings.Cuts.{is_solid, all_in_mono}
use layersmith.Core.Patterns.Checked.{check_pass_solid}
use layersmith.Core.Reference.Solid.{Solid, letters}
use layersmith.Core.Patterns.{check, package_re}
use layersmith.Core.Packages.{add_name, add_extra}
use layersmith.Core.Packages.Tables.{All-append}
use layersmith.Core.Specification.Items.{IsPackage}

-- A list with no element twice
unfoldable pub distinct : List Str → Bool
distinct [] = true
distinct (x ∷ xs) = not (contains xs x) && distinct xs

contains-append :
    (xs ys : List Str) (x : Str) → contains (xs ++ ys) x ≡ (contains xs x || contains ys x)
contains-append [] ys x = refl
contains-append (z ∷ xs) ys x = ground (arith, contains-append xs ys x)

distinct-append :
    (xs : List Str) (x : Str)
    → distinct xs ≡ true
    → contains xs x ≡ false
    → distinct (xs ++ (x ∷ [])) ≡ true
unfolding distinct
distinct-append [] x h out = refl
distinct-append (z ∷ xs) x h out =
    let rest : distinct xs ≡ true = ground arith in
    let later : contains xs x ≡ false = ground arith in
    let first : contains xs z ≡ false = ground arith in
    let apart : (x == z) ≡ false = ground arith in
    let other_way : (z == x) ≡ false = ==_apart z x (λ e. ==_differ x z apart (sym e)) in
    rw (contains-append xs (x ∷ []) z, first, distinct-append xs x rest later) (rw other_way refl)

package_mark : (c : ℕ) → one_of (text ".+_:~-") c ≡ true → is_solid c ≡ true
unfolding one_of text is_space
package_mark c h = ground arith

package_char : (c : ℕ) → (is_alnum c || one_of (text ".+_:~-") c) ≡ true → is_solid c ≡ true
package_char c h = elim (Bool-cases (is_alnum c)) [
  | inl letter ↦ letters c letter
  | inr other ↦ package_mark c (rw other at h)
]

package_re-Solid : (m : Str) → package_re m ≡ true → Solid m
unfolding package_re headed all_in
package_re-Solid [] h = refl
package_re-Solid (c ∷ s) h =
    let first : is_alnum c ≡ true = ground arith in
    let rest : all_in (λ c. is_alnum c || one_of (text ".+_:~-") c) s ≡ true = ground arith in
    rw (letters c first)
      (all_in_mono (λ c. is_alnum c || one_of (text ".+_:~-") c) is_solid package_char s rest)

pub same_package : (m : Str) → IsPackage m → check package_re (some m) (text "package name") ≡ ok m
same_package m h = check_pass_solid package_re m (text "package name") (package_re-Solid m h) h

pub add_name_lem :
    (m : Str) (names : List Str)
    → IsPackage m
    → All IsPackage names
    → distinct names ≡ true
    → All IsPackage (add_name m names)
      × (distinct (add_name m names) ≡ true)
      × (contains (add_name m names) m ≡ true)
      × ((x : Str) → contains names x ≡ true → contains (add_name m names) x ≡ true)
add_name_lem m names good all apart = elim (Bool-cases (contains names m)) [
  | inl there ↦ rw there (all, apart, there, λ x h. h)
  | inr new ↦ rw new (
    All-append IsPackage names (m ∷ []) all (good, tt),
    distinct-append names m apart new,
    rw (contains-append names (m ∷ []) m, (==_iff m m).1 refl, new) refl,
    λ x h. rw (contains-append names (m ∷ []) x, h) refl,
  )
]

-- Adding the extra packages keeps what is there, and each of them is there afterwards.
pub add_extra_lem :
    (extra names : List Str)
    → All IsPackage extra
    → All IsPackage names
    → distinct names ≡ true
    → All IsPackage (add_extra extra names)
      × (distinct (add_extra extra names) ≡ true)
      × ((x : Str) → contains names x ≡ true → contains (add_extra extra names) x ≡ true)
      × All (λ e. contains (add_extra extra names) e ≡ true) extra
unfolding add_extra
add_extra_lem [] names fine good apart = (good, apart, (λ x h. h), tt)
add_extra_lem (e ∷ extra) names (one, fine) good apart =
    let (good2, apart2, there, more) = add_name_lem e names one good apart in
    let (good3, apart3, later, all) = add_extra_lem extra (add_name e names) fine good2 apart2 in
    (good3, apart3, (λ x h. later x (more x h)), (later e there, all))
