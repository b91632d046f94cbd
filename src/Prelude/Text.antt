-- ===== src/Prelude/Text.antt =====
-- Python's `str` as a list of code points, and decimal numbers.
use Prim.Native.Char.{code}
use Prim.Native.Nat.{ℕ, zero, suc, ◌+◌, ◌-◌, ◌/◌, ◌%◌}
use Prim.Native.String.{String}
use mathlib.Core.Bool.{Bool, true, false, ◌&&◌}
use mathlib.Core.List.{List, [], ◌∷◌, ◌++◌}
use layersmith.Prelude.Tests.{ltb, leb, if◌then◌else◌}
use layersmith.Prelude.Lists.{length, drop, replicate}
use layersmith.Prelude.Equality.{◌==◌, nat_eq, list_eq}

abbrev pub Str : Type 0
Str = List ℕ

-- A literal of the source.
unfoldable pub text : String → Str
text String.[] = []
text (String.◌∷◌ c s) = code c ∷ text s

-- `str(n)`: the digits of `n`, most significant first. A number has at most `n + 1` digits.
unfoldable pub show_onto : ℕ → ℕ → Str → Str
show_onto zero n out = out
show_onto (suc f) n out =
    let rest = show_onto f (n / 10) ((48 + n % 10) ∷ out) in
    if ltb n 10 then (48 + n) ∷ out else rest

unfoldable pub show : ℕ → Str
unfolding show_onto
show n = show_onto (suc n) n []

-- `f"{n:0{width}d}"`
unfoldable pub zero_pad : ℕ → ℕ → Str
unfolding show
zero_pad width n = let digits = show n in replicate (width - length digits) 48 ++ digits

-- `s.startswith(prefix)`
unfoldable pub starts_with : Str → Str → Bool
starts_with s [] = true
starts_with [] (p ∷ prefix) = false
starts_with (c ∷ s) (p ∷ prefix) = c == p && starts_with s prefix

-- `s.endswith(suffix)`
unfoldable pub ends_with : Str → Str → Bool
ends_with s suffix = drop (length s - length suffix) s == suffix && leb (length suffix) (length s)
