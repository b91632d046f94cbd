-- ===== src/Core/Specification/Again.antt =====
-- Checking an entry that was checked.
use layersmith.Prelude.{
  ℕ, zero, suc, ◌≡◌, ◌≢◌, refl, sym, ap, subst, ◌∙◌, Bool, true, false, some, List, [], ◌∷◌, not,
  ◌==◌, ==_iff, nat_eq, list_eq, list_beq, if◌then◌else◌, map, take, Bool-cases, inl, inr, All,
}
use layersmith.Prelude.Result.{Result, ok, err, >>=-eq-ok, ok-apart, map_ok-map_ok, map_ok-All}
use layersmith.Prelude.Text.{Str, text}
use layersmith.Prelude.Strings.{strip}
use layersmith.Prelude.Strings.Stripped.{strip-strip}
use layersmith.Core.Patterns.{
  InvalidSpec, refused, check, check_path, check_mode, or_text, name_re, sha256_re, package_re,
}
use layersmith.Core.Patterns.Checked.{check_ok, check-check, check-matches, check_mode-check_mode}
use layersmith.Core.Specification.Entries.{
  Tool, FileItem, set_default, filled, keep_filled, check_package, check_packages, tool_path,
  tool_architecture, finish_tool, check_tool, check_file, kept_tests, any_bad, check_tests,
}

-- What follows tests that did not raise
pub tests_ok :
    {A : Type 0} (b c : Bool) (e f : InvalidSpec) (x y : A)
    → ◌≡◌ {A = Result InvalidSpec A} (if b then err e else if c then err f else ok x) (ok y)
    → (b ≡ false) × (c ≡ false) × (x ≡ y)
tests_ok true c e f x y h = absurd (cc)
tests_ok false true e f x y h = absurd (cc)
tests_ok false false e f x y h = (refl, refl, ok-apart h)

keep_filled-All : (ps : List Str) → All (λ p. filled p ≡ true) ps → keep_filled ps ≡ ps
unfolding keep_filled
keep_filled-All [] a = refl
keep_filled-All (p ∷ ps) (one, a) = rw one (ap (λ l. p ∷ l) (keep_filled-All ps a))

package-filled : (p v : Str) → check_package p ≡ ok v → filled v ≡ true
unfolding package_re list_beq
package-filled p v h =
    let (e, good) = check_ok package_re (some p) (text "package name") v h in
    let matched = check-matches package_re (some p) (text "package name") v h in
    let same : strip v ≡ v = subst (λ x. strip x ≡ x) e (strip-strip p) in rw same (go v matched)
  where
    go : (v : Str) → package_re v ≡ true → not (v == []) ≡ true
    go [] bad = cc
    go (c ∷ v) good = refl

pub check_packages-check_packages :
    (ps qs : List Str) → check_packages ps ≡ ok qs → check_packages qs ≡ ok qs
unfolding check_packages
check_packages-check_packages ps qs h =
    let all_filled =
      map_ok-All check_package (λ q. filled q ≡ true) package-filled (keep_filled ps) qs h in
    rw (keep_filled-All qs all_filled) (
      map_ok-map_ok check_package
        (λ p q e. check-check package_re (some p) (text "package name") q e) (keep_filled ps) qs h)

-- The tool that the checks make
abbrev pub made : Tool → Str → Str → Tool
made t mode architecture = record t {
  install_path = some (tool_path t);
  mode = some mode;
  architecture = some architecture;
}

or_text_same : (a : Str) → or_text a (some a) ≡ a
or_text_same a = elim (Bool-cases (a == [])) [ inl e ↦ rw e refl | inr e ↦ rw e refl ]

finish_made : (t : Tool) (mode a : Str) → finish_tool a (made t mode a) mode ≡ ok (made t mode a)
finish_made t mode a =
    let same = or_text_same a in
    let equal : (a == a) ≡ true = (==_iff a a).1 refl in rw (same, equal) refl

tool_again :
    (t : Tool) (x y z mode architecture : Str)
    → check name_re (some t.name) (text "tool name") ≡ ok x
    → check sha256_re (some t.sha256) (text "tool file (upload or fetch it first)") ≡ ok y
    → check_path (some (tool_path t)) (text "tool install path") ≡ ok z
    → check_mode (some mode) ≡ ok mode
    → check_tool architecture (made t mode architecture) ≡ ok (made t mode architecture)
unfolding check_tool
tool_again t x y z mode architecture named summed placed moded =
    rw (named, summed, placed, moded) (finish_made t mode architecture)

pub finish_tool_lem :
    (architecture mode : Str) (t u : Tool)
    → finish_tool architecture t mode ≡ ok u
    → made t mode architecture ≡ u
finish_tool_lem architecture mode t u h =
    elim (Bool-cases (tool_architecture architecture t == architecture)) [
      | inr other ↦ absurd (no_error (rw other at h))
      | inl same ↦
          let e = (==_iff (tool_architecture architecture t) architecture).0 same in
          ap (made t mode) (sym e) ∙ ok-apart (rw same at h)
    ]
  where
    no_error : {e : InvalidSpec} → ◌≢◌ {A = Result InvalidSpec Tool} (err e) (ok u)
    no_error e = cc

pub check_tool-check_tool :
    (architecture : Str) (t u : Tool)
    → check_tool architecture t ≡ ok u
    → check_tool architecture u ≡ ok u
unfolding check_tool
check_tool-check_tool architecture t u h =
    let (x, named, h1) = >>=-eq-ok (check name_re (some t.name) (text "tool name")) _ h in
    let (y, summed, h2) =
      >>=-eq-ok (check sha256_re (some t.sha256) (text "tool file (upload or fetch it first)")) _
        h1 in
    let (z, placed, h3) =
      >>=-eq-ok (check_path (some (tool_path t)) (text "tool install path")) _ h2 in
    let (mode, moded, h4) = >>=-eq-ok (check_mode (some (set_default (text "0755") t.mode))) _ h3 in
    let again = check_mode-check_mode (some (set_default (text "0755") t.mode)) mode moded in
    subst (λ x. check_tool architecture x ≡ ok x) (finish_tool_lem architecture mode t u h4)
      (tool_again t x y z mode architecture named summed placed again)

file_again :
    (f : FileItem) (x y m : Str)
    → check sha256_re (some f.sha256) (text "file (upload it first)") ≡ ok x
    → check_path (some f.destination) (text "file destination") ≡ ok y
    → check_mode (some m) ≡ ok m
    → check_file (record f { mode = some m }) ≡ ok (record f { mode = some m })
unfolding check_file
file_again f x y m summed placed moded = rw (summed, placed, moded) refl

pub check_file-check_file : (f g : FileItem) → check_file f ≡ ok g → check_file g ≡ ok g
unfolding check_file
check_file-check_file f g h =
    let (x, summed, h1) =
      >>=-eq-ok (check sha256_re (some f.sha256) (text "file (upload it first)")) _ h in
    let (y, placed, h2) =
      >>=-eq-ok (check_path (some f.destination) (text "file destination")) _ h1 in
    let (mode, moded, h3) = >>=-eq-ok (check_mode (some (set_default (text "0644") f.mode))) _ h2 in
    let again = check_mode-check_mode (some (set_default (text "0644") f.mode)) mode moded in
    subst (λ x. check_file x ≡ ok x) (ok-apart h3) (file_again f x y mode summed placed again)

take-take : (n : ℕ) (xs : List Str) → take n (take n xs) ≡ take n xs
take-take zero xs = refl
take-take (suc n) [] = refl
take-take (suc n) (x ∷ xs) = ap (λ l. x ∷ l) (take-take n xs)

abbrev Kept : Str → Type 0
Kept t = (strip t ≡ t) × (filled t ≡ true)

take-All : (n : ℕ) (ts : List Str) → All Kept ts → All Kept (take n ts)
take-All zero ts a = tt
take-All (suc n) [] a = tt
take-All (suc n) (t ∷ ts) (one, a) = (one, take-All n ts a)

map-strip : (ts : List Str) → All Kept ts → map strip ts ≡ ts
map-strip [] a = refl
map-strip (t ∷ ts) ((same, full), a) = rw (same, map-strip ts a) refl

Kept-filled : (ts : List Str) → All Kept ts → All (λ t. filled t ≡ true) ts
Kept-filled [] a = tt
Kept-filled (t ∷ ts) ((same, full), a) = (full, Kept-filled ts a)

keep_filled-Kept : (ts : List Str) → All Kept (map strip (keep_filled ts))
unfolding keep_filled
keep_filled-Kept [] = tt
keep_filled-Kept (t ∷ ts) = elim (Bool-cases (strip t == [])) [
  | inl empty ↦ rw empty (keep_filled-Kept ts)
  | inr full ↦ rw full ((strip-strip t, stays t full), keep_filled-Kept ts)
]
  where
    stays : (t : Str) → (strip t == []) ≡ false → filled (strip t) ≡ true
    stays t full = rw (strip-strip t, full) refl

kept_tests-kept_tests : (ts : List Str) → kept_tests (kept_tests ts) ≡ kept_tests ts
unfolding kept_tests
kept_tests-kept_tests ts =
    let kept = take-All 50 (map strip (keep_filled ts)) (keep_filled-Kept ts) in
    let all = take 50 (map strip (keep_filled ts)) in
    ap (λ l. take 50 (map strip l)) (keep_filled-All all (Kept-filled all kept))
    ∙ ap (take 50) (map-strip all kept)
    ∙ take-take 50 (map strip (keep_filled ts))

pub check_tests-check_tests : (ts us : List Str) → check_tests ts ≡ ok us → check_tests us ≡ ok us
unfolding check_tests
check_tests-check_tests ts us h =
    let (fine, fine2, e) =
      tests_ok false (any_bad (kept_tests ts)) (refused []) _ (kept_tests ts) us h in
    subst (λ l. check_tests l ≡ ok l) e (again ts (kept_tests-kept_tests ts) fine2)
  where
    again :
        (ts : List Str)
        → kept_tests (kept_tests ts) ≡ kept_tests ts
        → any_bad (kept_tests ts) ≡ false
        → check_tests (kept_tests ts) ≡ ok (kept_tests ts)
    again ts same fine = rw (same, fine) refl
