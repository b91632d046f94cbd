-- ===== src/Prelude/Strings/Stripped.antt =====
-- Stripping a text that was stripped.
use Prim.Native.Nat.{ℕ}
use mathlib.Core.Path.{◌≡◌, refl, ap, ◌∙◌}
use mathlib.Core.Logic.{inl, inr}
use mathlib.Core.Bool.{false}
use mathlib.Core.List.{[], ◌∷◌}
use layersmith.Prelude.Tests.{Bool-cases}
use layersmith.Prelude.Text.{Str}
use layersmith.Prelude.Strings.{is_space, lstrip, rstrip, strip, cons_unless_blank}

abbrev Starts : Str → Type 0
Starts [] = Unit
Starts (c ∷ s) = is_space c ≡ false

lstrip-Starts : (s : Str) → Starts (lstrip s)
unfolding lstrip
lstrip-Starts [] = tt
lstrip-Starts (c ∷ s) = elim (Bool-cases (is_space c)) [
  | inl blank ↦ rw blank (lstrip-Starts s)
  | inr solid ↦ rw solid solid
]

lstrip_lem : (s : Str) → Starts s → lstrip s ≡ s
unfolding lstrip
lstrip_lem [] h = refl
lstrip_lem (c ∷ s) h = rw h refl

cons_unless_blank-Starts : (c : ℕ) → is_space c ≡ false → (r : Str) → Starts (cons_unless_blank c r)
cons_unless_blank-Starts c h [] = rw h h
cons_unless_blank-Starts c h (d ∷ r) = h

rstrip-Starts : (s : Str) → Starts s → Starts (rstrip s)
unfolding rstrip
rstrip-Starts [] h = tt
rstrip-Starts (c ∷ s) h = cons_unless_blank-Starts c h (rstrip s)

rstrip-cons_unless_blank :
    (c : ℕ) (r : Str) → rstrip r ≡ r → rstrip (cons_unless_blank c r) ≡ cons_unless_blank c r
unfolding rstrip
rstrip-cons_unless_blank c [] h = elim (Bool-cases (is_space c)) [
  | inl blank ↦ rw blank refl
  | inr solid ↦ rw solid (rw solid refl)
]
rstrip-cons_unless_blank c (d ∷ r) h = ap (cons_unless_blank c) h

rstrip-rstrip : (s : Str) → rstrip (rstrip s) ≡ rstrip s
unfolding rstrip
rstrip-rstrip [] = refl
rstrip-rstrip (c ∷ s) = rstrip-cons_unless_blank c (rstrip s) (rstrip-rstrip s)

pub strip-strip : (s : Str) → strip (strip s) ≡ strip s
unfolding strip
strip-strip s =
    ap rstrip (lstrip_lem (rstrip (lstrip s)) (rstrip-Starts (lstrip s) (lstrip-Starts s)))
    ∙ rstrip-rstrip (lstrip s)
