-- ===== src/Prelude/Pattern.antt =====
-- The shapes of the regular expressions that the code matches names against.
use Prim.Native.Nat.{ℕ, ◌-◌}
use mathlib.Core.Bool.{Bool, true, false, ◌&&◌, ◌||◌}
use mathlib.Core.List.{[], ◌∷◌}
use layersmith.Prelude.Tests.{leb}
use layersmith.Prelude.Lists.{length, take}
use layersmith.Prelude.Equality.{nat_eq, list_eq, contains}
use layersmith.Prelude.Text.{Str, ends_with}

abbrev pub Class : Type 0
Class = ℕ → Bool

-- `[a-z]`, `[A-Z]`, `[0-9]`, and a set of single characters
unfoldable pub is_lower : Class
is_lower c = leb 97 c && leb c 122

unfoldable pub is_upper : Class
is_upper c = leb 65 c && leb c 90

unfoldable pub is_ascii_digit : Class
is_ascii_digit c = leb 48 c && leb c 57

unfoldable pub is_alnum : Class
unfolding is_lower is_upper is_ascii_digit
is_alnum c = is_lower c || is_upper c || is_ascii_digit c

unfoldable pub one_of : Str → Class
one_of chars c = contains chars c

unfoldable pub all_in : Class → Str → Bool
all_in p [] = true
all_in p (c ∷ s) = p c && all_in p s

-- `[p]{lo,hi}`
unfoldable pub repeated : Class → ℕ → ℕ → Str → Bool
unfolding all_in
repeated p lo hi s = all_in p s && (leb lo (length s) && leb (length s) hi)

-- `[first][p]{0,hi}`
unfoldable pub headed : Class → Class → ℕ → Str → Bool
unfolding all_in
headed first p hi [] = false
headed first p hi (c ∷ s) = first c && (all_in p s && leb (length s) hi)

-- `^…$` under `match`: `$` also matches before a newline that ends the text.
unfoldable pub anchored : (Str → Bool) → Str → Bool
unfolding ends_with
anchored p s = p s || (ends_with s (10 ∷ []) && p (take (length s - 1) s))
