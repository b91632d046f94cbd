-- ===== src/Prelude/Strings/Cuts.antt =====
-- Putting together what was cut gives the text back.
use Prim.Native.Nat.{ℕ, ◌-◌}
use mathlib.Core.Path.{◌≡◌, refl, sym, ap, subst, ◌∙◌}
use mathlib.Core.Logic.{◌≢◌, inl, inr}
use mathlib.Core.Bool.{Bool, true, false, not, ◌&&◌}
use mathlib.Core.Option.{Option, none, some}
use mathlib.Core.List.{List, [], ◌∷◌, ◌++◌}
use native.Mathlib.Omega.{arith}
use layersmith.Prelude.Tests.{Bool-cases}
use layersmith.Prelude.Equality.{◌==◌, ==_iff, nat_eq, list_eq}
use layersmith.Prelude.Text.{Str, ends_with}
use layersmith.Prelude.Lists.{length, take, drop, take-append-drop}
use layersmith.Prelude.Pattern.{all_in}
use layersmith.Prelude.Strings.{
  is_space, lstrip, rstrip, strip, cons_unless_blank, split, cons_first, join, cons_left, cut_first,
  cut_here, cut_last,
}

abbrev pub is_solid : ℕ → Bool
is_solid c = not (is_space c)

join-cons_first : (c : ℕ) (sep : Str) (ps : List Str) → join sep (cons_first c ps) ≡ c ∷ join sep ps
unfolding join
join-cons_first c sep [] = refl
join-cons_first c sep (p ∷ []) = refl
join-cons_first c sep (p ∷ q ∷ ps) = refl

abbrev pub NotEmpty : List Str → Type 0
NotEmpty [] = ⊥
NotEmpty (p ∷ ps) = Unit

split-NotEmpty : (sep : ℕ) (s : Str) → NotEmpty (split sep s)
unfolding split
split-NotEmpty sep [] = tt
split-NotEmpty sep (c ∷ s) = elim (Bool-cases (c == sep)) [
  | inl same ↦ rw same tt
  | inr other ↦ rw other (go (split sep s))
]
  where
    go : (ps : List Str) → NotEmpty (cons_first c ps)
    go [] = tt
    go (p ∷ ps) = tt

pub join-split : (sep : ℕ) (s : Str) → join (sep ∷ []) (split sep s) ≡ s
unfolding join split
join-split sep [] = refl
join-split sep (c ∷ s) = elim (Bool-cases (c == sep)) [
  | inl same ↦
      rw same (go (split sep s) (split-NotEmpty sep s) (join-split sep s) ((==_iff c sep).0 same))
  | inr other ↦
      rw other (join-cons_first c (sep ∷ []) (split sep s) ∙ ap (λ x. c ∷ x) (join-split sep s))
]
  where
    go :
        (ps : List Str)
        → NotEmpty ps
        → join (sep ∷ []) ps ≡ s
        → c ≡ sep
        → join (sep ∷ []) ([] ∷ ps) ≡ c ∷ s
    go [] n e same = elim n [ ]
    go (p ∷ ps) n e same = rw (e, same) refl

abbrev Pair : Type 0
Pair = Option (Str × Str)

pub cut_first_lem : (sep : ℕ) (s a b : Str) → cut_first sep s ≡ some (a, b) → a ++ (sep ∷ b) ≡ s
unfolding cut_first
cut_first_lem sep [] a b h = absurd cc
cut_first_lem sep (c ∷ s) a b h = elim (Bool-cases (c == sep)) [
  | inl same ↦ here ((==_iff c sep).0 same) (rw same at h)
  | inr other ↦ later (λ x y e. cut_first_lem sep s x y e) (cut_first sep s) refl (rw other at h)
]
  where
    here : c ≡ sep → ◌≡◌ {A = Pair} (some ([], s)) (some (a, b)) → a ++ (sep ∷ b) ≡ c ∷ s
    here same e =
        let left : [] ≡ a = cc in let right : s ≡ b = cc in rw (← left, ← right, same) refl

    later :
        ((x y : Str) → cut_first sep s ≡ some (x, y) → x ++ (sep ∷ y) ≡ s)
        → (o : Pair) → cut_first sep s ≡ o
        → cons_left c o ≡ some (a, b)
        → a ++ (sep ∷ b) ≡ c ∷ s
    later ih none e h = absurd cc
    later ih (some (x, y)) e h =
        let left : c ∷ x ≡ a = cc in
        let right : y ≡ b = cc in rw (← left, ← right) (ap (λ l. c ∷ l) (ih x y e))

pub cut_last_lem : (sep : ℕ) (s a b : Str) → cut_last sep s ≡ some (a, b) → a ++ (sep ∷ b) ≡ s
unfolding cut_last
cut_last_lem sep [] a b h = absurd cc
cut_last_lem sep (c ∷ s) a b h = go (λ x y e. cut_last_lem sep s x y e) (cut_last sep s) refl h
  where
    go :
        ((x y : Str) → cut_last sep s ≡ some (x, y) → x ++ (sep ∷ y) ≡ s)
        → (o : Pair) → cut_last sep s ≡ o
        → cut_here sep c s o ≡ some (a, b)
        → a ++ (sep ∷ b) ≡ c ∷ s
    go ih (some (x, y)) e h =
        let left : c ∷ x ≡ a = cc in
        let right : y ≡ b = cc in rw (← left, ← right) (ap (λ l. c ∷ l) (ih x y e))
    go ih none e h = elim (Bool-cases (c == sep)) [
      | inr other ↦ absurd (none_some (rw other at h))
      | inl same ↦ here ((==_iff c sep).0 same) (rw same at h)
    ]
      where
        none_some : ◌≢◌ {A = Pair} none (some (a, b))
        none_some e = cc

        here : c ≡ sep → ◌≡◌ {A = Pair} (some ([], s)) (some (a, b)) → a ++ (sep ∷ b) ≡ c ∷ s
        here same e =
            let left : [] ≡ a = cc in let right : s ≡ b = cc in rw (← left, ← right, same) refl

pub all_in-append : (p : ℕ → Bool) (s t : Str) → all_in p (s ++ t) ≡ (all_in p s && all_in p t)
unfolding all_in
all_in-append p [] t = refl
all_in-append p (c ∷ s) t = ground (arith, all_in-append p s t)

lstrip-solid : (s : Str) → all_in is_solid s ≡ true → lstrip s ≡ s
unfolding lstrip all_in
lstrip-solid [] h = refl
lstrip-solid (c ∷ s) h = let first : is_space c ≡ false = ground arith in rw first refl

cons_unless_blank-solid : (c : ℕ) → is_space c ≡ false → (s : Str) → cons_unless_blank c s ≡ c ∷ s
cons_unless_blank-solid c first [] = rw first refl
cons_unless_blank-solid c first (d ∷ s) = refl

rstrip-solid : (s : Str) → all_in is_solid s ≡ true → rstrip s ≡ s
unfolding rstrip all_in
rstrip-solid [] h = refl
rstrip-solid (c ∷ s) h =
    let first : is_space c ≡ false = ground arith in
    let rest : all_in is_solid s ≡ true = ground arith in
    rw (rstrip-solid s rest) (cons_unless_blank-solid c first s)

-- A text with no white space is its own `strip()`.
pub strip-solid : (s : Str) → all_in is_solid s ≡ true → strip s ≡ s
unfolding strip
strip-solid s h = ap rstrip (lstrip-solid s h) ∙ rstrip-solid s h

pub all_in_mono :
    (p q : ℕ → Bool)
    → ((c : ℕ) → p c ≡ true → q c ≡ true)
    → (s : Str) → all_in p s ≡ true
    → all_in q s ≡ true
unfolding all_in
all_in_mono p q h [] a = refl
all_in_mono p q h (c ∷ s) a =
    let first : p c ≡ true = ground arith in
    let rest : all_in p s ≡ true = ground arith in rw (h c first) (all_in_mono p q h s rest)

-- A text that was stripped does not end with white space.
not_blank : (c d : ℕ) → is_space c ≡ false → is_space d ≡ true → c ≢ d
not_blank c d solid blank e =
    let h : is_space d ≡ false = subst (λ x. is_space x ≡ false) e solid in truth (sym blank ∙ h)
  where
    truth : true ≢ false
    truth e = cc

rstrip_end : (d : ℕ) → is_space d ≡ true → (s a : Str) → rstrip s ≢ a ++ (d ∷ [])
unfolding rstrip
rstrip_end d blank [] [] e = cc
rstrip_end d blank [] (x ∷ a) e = cc
rstrip_end d blank (c ∷ s) a e = go (rstrip s) (λ b. rstrip_end d blank s b) a e
  where
    go :
        (r : Str)
        → ((b : Str) → r ≢ b ++ (d ∷ []))
        → (a : Str) → cons_unless_blank c r ≢ a ++ (d ∷ [])
    go [] ih a e = elim (Bool-cases (is_space c)) [
      | inl gone ↦ none_left a (rw gone at e)
      | inr kept ↦ one_left kept a (rw kept at e)
    ]
      where
        none_left : (a : Str) → [] ≢ a ++ (d ∷ [])
        none_left [] e = cc
        none_left (x ∷ a) e = cc

        one_left : is_space c ≡ false → (a : Str) → c ∷ [] ≢ a ++ (d ∷ [])
        one_left kept [] e = not_blank c d kept blank (cc)
        one_left kept (x ∷ []) e = cc
        one_left kept (x ∷ y ∷ a) e = cc
    go (x ∷ r) ih [] e = cc
    go (x ∷ r) ih (y ∷ a) e = ih a (cc)

pub ends_with-strip : (d : ℕ) (s : Str) → is_space d ≡ true → ends_with (strip s) (d ∷ []) ≡ false
unfolding strip ends_with
ends_with-strip d s blank =
    let r = rstrip (lstrip s) in
    let n = length r - 1 in
    elim (Bool-cases (drop n r == d ∷ [])) [
      | inr other ↦ rw other refl
      | inl same ↦
          let tail : drop n r ≡ d ∷ [] = (==_iff (drop n r) (d ∷ [])).0 same in
          absurd (
            rstrip_end d blank (lstrip s) (take n r)
              (sym (take-append-drop n r) ∙ ap (λ x. take n r ++ x) tail))
    ]
