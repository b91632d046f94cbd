-- ===== src/Core/Reference/Solid.antt =====
-- Texts without white space, and that a reference is one.
use layersmith.Prelude.{
  ℕ, ◌≡◌, refl, sym, ◌∙◌, Bool, true, some, List, [], ◌∷◌, ◌++◌, ◌==◌, nat_eq, list_eq, Bool-cases,
  inl, inr, arith, All,
}
use layersmith.Prelude.Result.{Result, ok, ◌>>=◌, >>=-eq-ok}
use layersmith.Prelude.Text.{Str, text}
use layersmith.Prelude.Pattern.{all_in, is_alnum, one_of, headed, anchored}
use layersmith.Prelude.Strings.{cons_first, is_space, strip, split}
use layersmith.Prelude.Strings.Cuts.{
  is_solid, all_in-append, strip-solid, all_in_mono, ends_with-strip,
}
use layersmith.Core.Patterns.{InvalidSpec, check, reference_re, reference_char, component}
use layersmith.Core.Patterns.Checked.{check_ok}
use layersmith.Core.Reference.{check_parts}

abbrev pub Solid : Str → Type 0
Solid s = all_in is_solid s ≡ true

-- A part that has no white space is checked as it is.
pub check-Solid :
    (pattern : Str → Bool) (s what v : Str) → Solid s → check pattern (some s) what ≡ ok v → v ≡ s
check-Solid pattern s what v solid h =
    sym ((check_ok pattern (some s) what v h).0) ∙ strip-solid s solid

pub Solid-left : (a b : Str) → Solid (a ++ b) → Solid a
Solid-left a b h = ground (arith, all_in-append is_solid a b)

pub Solid-right : (a b : Str) → Solid (a ++ b) → Solid b
Solid-right a b h = ground (arith, all_in-append is_solid a b)

pub check_parts_lem : (ps qs : List Str) → All Solid ps → check_parts ps ≡ ok qs → qs ≡ ps
unfolding check_parts
check_parts_lem [] qs a h = sym (injective h)
  where
    injective : {x y : List Str} → ◌≡◌ {A = Result InvalidSpec (List Str)} (ok x) (ok y) → x ≡ y
    injective e = cc
check_parts_lem (p ∷ ps) qs (solid, a) h =
    let (q, checked, rest) =
      >>=-eq-ok (check component (some p) (text "repository path"))
        (λ q. check_parts ps >>= λ qs. ok (q ∷ qs)) h in
    let (ts, later, e) = >>=-eq-ok (check_parts ps) (λ qs. ok (q ∷ qs)) rest in
    let same = check-Solid component p (text "repository path") q solid checked in
    let tail = check_parts_lem ps ts a later in sym (injective e) ∙ rw (same, tail) refl
  where
    injective : {x y : List Str} → ◌≡◌ {A = Result InvalidSpec (List Str)} (ok x) (ok y) → x ≡ y
    injective e = cc

-- The characters of a reference are none of white space.
pub letters : (c : ℕ) → is_alnum c ≡ true → is_solid c ≡ true
unfolding is_alnum is_space
letters c h = ground arith

marks : (c : ℕ) → one_of (text "._:/@-") c ≡ true → is_solid c ≡ true
unfolding one_of text is_space
marks c h = ground arith

solid_char : (c : ℕ) → reference_char c ≡ true → is_solid c ≡ true
unfolding reference_char
solid_char c h = elim (Bool-cases (is_alnum c)) [
  | inl letter ↦ letters c letter
  | inr other ↦ marks c (rw other at h)
]

reference_re-Solid : (v : Str) → reference_re v ≡ true → Solid v
unfolding reference_re headed all_in
reference_re-Solid [] h = refl
reference_re-Solid (c ∷ s) h =
    let first : is_alnum c ≡ true = ground arith in
    let rest : all_in reference_char s ≡ true = ground arith in
    rw (letters c first) (all_in_mono reference_char is_solid solid_char s rest)

line_end : is_space 10 ≡ true
unfolding is_space
line_end = refl

-- What passes the first pattern has no white space.
pub stripped-Solid : (s : Str) → anchored reference_re (strip s) ≡ true → Solid (strip s)
unfolding anchored
stripped-Solid s h =
    let no_end = ends_with-strip 10 s line_end in
    let matched : reference_re (strip s) ≡ true = ground (arith, no_end) in
    reference_re-Solid (strip s) matched

pub split-Solid : (sep : ℕ) (s : Str) → Solid s → All Solid (split sep s)
unfolding split all_in
split-Solid sep [] h = (refl, tt)
split-Solid sep (c ∷ s) h =
    let first : is_solid c ≡ true = ground arith in
    let rest : Solid s = ground arith in
    elim (Bool-cases (c == sep)) [
      | inl same ↦ rw same (refl, split-Solid sep s rest)
      | inr other ↦ rw other (cons_first_solid c first (split sep s) (split-Solid sep s rest))
    ]
  where
    cons_first_solid :
        (c : ℕ) → is_solid c ≡ true → (ps : List Str) → All Solid ps → All Solid (cons_first c ps)
    cons_first_solid c first [] a = (rw first refl, tt)
    cons_first_solid c first (p ∷ ps) (solid, a) = (rw first solid, a)

pub Solid-tail : (c : ℕ) (s : Str) → Solid (c ∷ s) → Solid s
unfolding all_in
Solid-tail c s h = ground arith
