-- ===== src/Prelude/Strings.antt =====
-- Python's methods of `str` that cut a text and put it together.
pub mod Cuts
pub mod Stripped
use Prim.Native.Nat.{ℕ}
use mathlib.Core.Bool.{Bool, true, false, not, ◌&&◌, ◌||◌}
use mathlib.Core.Option.{Option, none, some}
use mathlib.Core.List.{List, [], ◌∷◌, ◌++◌}
use layersmith.Prelude.Tests.{leb, if◌then◌else◌}
use layersmith.Prelude.Equality.{◌==◌, nat_eq}
use layersmith.Prelude.Text.{Str, starts_with}

-- What `str.isspace` holds of
unfoldable pub is_space : ℕ → Bool
is_space c =
    (leb 9 c && leb c 13)
    || (leb 28 c && leb c 32)
    || c == 133
    || c == 160
    || c == 5760
    || (leb 8192 c && leb c 8202)
    || c == 8232
    || c == 8233
    || c == 8239
    || c == 8287
    || c == 12288

unfoldable pub lstrip : Str → Str
lstrip [] = []
lstrip (c ∷ s) = let rest = lstrip s in if is_space c then rest else c ∷ s

abbrev pub cons_unless_blank : ℕ → Str → Str
cons_unless_blank c [] = if is_space c then [] else c ∷ []
cons_unless_blank c (d ∷ s) = c ∷ d ∷ s

unfoldable pub rstrip : Str → Str
rstrip [] = []
rstrip (c ∷ s) = cons_unless_blank c (rstrip s)

-- `s.strip()`
unfoldable pub strip : Str → Str
unfolding lstrip rstrip
strip s = rstrip (lstrip s)

abbrev pub cons_first : ℕ → List Str → List Str
cons_first c [] = (c ∷ []) ∷ []
cons_first c (p ∷ ps) = (c ∷ p) ∷ ps

-- `s.split(sep)` for a separator of one character
unfoldable pub split : ℕ → Str → List Str
split sep [] = [] ∷ []
split sep (c ∷ s) = let rest = split sep s in if c == sep then [] ∷ rest else cons_first c rest

-- `sep.join(parts)`
unfoldable pub join : Str → List Str → Str
join sep [] = []
join sep (p ∷ []) = p
join sep (p ∷ q ∷ ps) = p ++ (sep ++ join sep (q ∷ ps))

abbrev pub cons_left : ℕ → Option (Str × Str) → Option (Str × Str)
cons_left c none = none
cons_left c (some (a, b)) = some (c ∷ a, b)

-- `s.split(sep, 1)`, where the separator occurs
unfoldable pub cut_first : ℕ → Str → Option (Str × Str)
cut_first sep [] = none
cut_first sep (c ∷ s) =
    let rest = cons_left c (cut_first sep s) in if c == sep then some ([], s) else rest

abbrev pub cut_here : ℕ → ℕ → Str → Option (Str × Str) → Option (Str × Str)
cut_here sep c s (some (a, b)) = some (c ∷ a, b)
cut_here sep c s none = if c == sep then some ([], s) else none

-- `s.rpartition(sep)` and `s.rsplit(sep, 1)`, where the separator occurs
unfoldable pub cut_last : ℕ → Str → Option (Str × Str)
cut_last sep [] = none
cut_last sep (c ∷ s) = cut_here sep c s (cut_last sep s)

-- `s.replace(old, new)` for an `old` of one character
unfoldable pub replace : ℕ → Str → Str → Str
replace old new [] = []
replace old new (c ∷ s) = let rest = replace old new s in if c == old then new ++ rest else c ∷ rest

-- `part in s`
unfoldable pub has_part : Str → Str → Bool
unfolding starts_with
has_part part [] = starts_with [] part
has_part part (c ∷ s) = starts_with (c ∷ s) part || has_part part s
