-- ===== src/Core/Version/Patch.antt =====
-- The version after a version.
use layersmith.Prelude.{
  ℕ, zero, suc, ◌+◌, ◌*◌, ◌/◌, ◌%◌, ◌<◌, ◌≡◌, refl, ap, subst, ◌∙◌, true, false, Option, none, some,
  List, [], ◌∷◌, ◌++◌, ltb, ltb→lt, ◌==◌, ==_iff, nat_eq, contains, Bool-cases, inl, inr, arith,
}
use layersmith.Prelude.Result.{Result, ok, >>=-eq-ok}
use layersmith.Prelude.Text.{Str, text, show, show_onto}
use layersmith.Prelude.Strings.{split}
use layersmith.Core.Patterns.{InvalidSpec, check, stripped}
use layersmith.Core.Patterns.Checked.{check_ok}
use layersmith.Core.Version.{version_re, int_onto, int_of, ints, version_key, next_text, next_patch}

-- The digits of a number hold no dot.
no_dot : (f n : ℕ) (out : Str) → contains out 46 ≡ false → contains (show_onto f n out) 46 ≡ false
unfolding show_onto
no_dot zero n out h = h
no_dot (suc f) n out h =
    let apart : (m : ℕ) → (46 == (48 + m)) ≡ false = λ m. ground arith in
    elim (Bool-cases (ltb n 10)) [
      | inl small ↦ rw small (rw (apart n) h)
      | inr big ↦ rw big (no_dot f (n / 10) ((48 + n % 10) ∷ out) (rw (apart (n % 10)) h))
    ]

split-dot :
    (sep : ℕ) (a b : Str) → contains a sep ≡ false → split sep (a ++ (sep ∷ b)) ≡ a ∷ split sep b
unfolding split
split-dot sep [] b h = let same : (sep == sep) ≡ true = (==_iff sep sep).1 refl in rw same refl
split-dot sep (c ∷ a) b h =
    let other : (c == sep) ≡ false = ground arith in
    let rest : contains a sep ≡ false = ground arith in rw (other, split-dot sep a b rest) refl

split_whole : (sep : ℕ) (a : Str) → contains a sep ≡ false → split sep a ≡ a ∷ []
unfolding split
split_whole sep [] h = refl
split_whole sep (c ∷ a) h =
    let other : (c == sep) ≡ false = ground arith in
    let rest : contains a sep ≡ false = ground arith in rw (other, split_whole sep a rest) refl

module _ (digit : ℕ → Option ℕ) (ascii : (n : ℕ) → n < 10 → digit (48 + n) ≡ some n) where
  int_onto-show_onto :
      (f n : ℕ) (out : Str) → n < f → int_onto digit 0 (show_onto f n out) ≡ int_onto digit n out
  unfolding int_onto show_onto
  int_onto-show_onto zero n out h = elim h [ ]
  int_onto-show_onto (suc f) n out h = elim (Bool-cases (ltb n 10)) [
    | inl small ↦
        rw small (rw (ascii n (ltb→lt n 10 small)) (ap (λ k. int_onto digit k out) (omega arith)))
    | inr big ↦
        let smaller : n / 10 < f = ground arith in
        let whole : (n / 10) * 10 + n % 10 ≡ n = omega arith in
        rw big (
          int_onto-show_onto f (n / 10) ((48 + n % 10) ∷ out) smaller
          ∙ rw (ascii (n % 10) (omega arith), whole) refl)
  ]

  pub int_of-show : (n : ℕ) → int_of digit (show n) ≡ some n
  unfolding show int_of
  int_of-show n =
      not_empty (suc n) n [] (omega arith) ∙ int_onto-show_onto (suc n) n [] (omega arith)
    where
      cons_case :
          (f n d : ℕ) (out : Str)
          → int_of digit (show_onto f n (d ∷ out)) ≡ int_onto digit 0 (show_onto f n (d ∷ out))
      cons_case zero n d out = refl
      cons_case (suc f) n d out = elim (Bool-cases (ltb n 10)) [
        | inl small ↦ rw (small, show_onto) refl
        | inr big ↦ rw (big, show_onto) (cons_case f (n / 10) (48 + n % 10) (d ∷ out))
      ]

      not_empty :
          (f n : ℕ) (out : Str)
          → 0 < f
          → int_of digit (show_onto f n out) ≡ int_onto digit 0 (show_onto f n out)
      not_empty zero n out h = elim h [ ]
      not_empty (suc f) n out h = elim (Bool-cases (ltb n 10)) [
        | inl small ↦ rw (small, show_onto) refl
        | inr big ↦ rw (big, show_onto) (cons_case f (n / 10) (48 + n % 10) out)
      ]

  -- The key of three numbers that were written with dots
  key-shown :
      (a b c : ℕ)
      → version_key digit (show a ++ (46 ∷ (show b ++ (46 ∷ show c)))) ≡ some (a ∷ b ∷ c ∷ [])
  unfolding version_key show
  key-shown a b c =
      rw
        (
          split-dot 46 (show a) (show b ++ (46 ∷ show c)) (no_dot (suc a) a [] refl),
          split-dot 46 (show b) (show c) (no_dot (suc b) b [] refl),
          split_whole 46 (show c) (no_dot (suc c) c [] refl),
        )
        (rw (int_of-show a, int_of-show b, int_of-show c) refl)

  -- Where `digit` knows ASCII's digits: the next patch of a version has its major and minor numbers and
  -- the patch number after its own, as `version_key` reads them.
  next_patch-version_key :
      (version : Option Str) (w : Str)
      → next_patch digit version ≡ ok w
      → (major : ℕ) × (minor : ℕ) × (patch : ℕ) × (version_key digit (stripped version)
          ≡ some (major ∷ minor ∷ patch ∷ []))
        × (version_key digit w ≡ some (major ∷ minor ∷ (patch + 1) ∷ []))
  unfolding next_patch version_key
  next_patch-version_key version w h =
      let what = text "version" in
      let next = λ (v : Str). next_text digit (ints digit (split 46 v)) in
      let (v, checked, rest) = >>=-eq-ok (check (version_re digit) version what) next h in
      let (e, matched) = check_ok (version_re digit) version what v checked in
      go v e (ints digit (split 46 v)) refl rest
    where
      key : (v : Str) → version_key digit v ≡ ints digit (split 46 v)
      key v = refl

      injective : {x : Str} → ◌≡◌ {A = Result InvalidSpec Str} (ok x) (ok w) → x ≡ w
      injective e = cc

      go :
          (v : Str)
          → stripped version ≡ v
          → (o : Option (List ℕ)) → ints digit (split 46 v) ≡ o
          → next_text digit o ≡ ok w
          → (major : ℕ) × (minor : ℕ) × (patch : ℕ) × (version_key digit (stripped version)
              ≡ some (major ∷ minor ∷ patch ∷ []))
            × (version_key digit w ≡ some (major ∷ minor ∷ (patch + 1) ∷ []))
      go v e none i h = absurd cc
      go v e (some []) i h = absurd cc
      go v e (some (a ∷ [])) i h = absurd cc
      go v e (some (a ∷ b ∷ [])) i h = absurd cc
      go v e (some (a ∷ b ∷ c ∷ d ∷ ns)) i h = absurd cc
      go v e (some (a ∷ b ∷ c ∷ [])) i h = (
        a,
        b,
        c,
        rw e (key v ∙ i),
        subst (λ x. version_key digit x ≡ some (a ∷ b ∷ (c + 1) ∷ [])) (injective h)
            (key-shown a b (c + 1)),
      )
