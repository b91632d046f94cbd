-- ===== src/Core/Specification/Items.antt =====
-- What validation guarantees of the items of a specification: tools, files, variables, labels and tests.
use layersmith.Prelude.{
  refl, ◌≤◌, ◌≡◌, ◌≢◌, ◌⊎◌, sym, subst, ◌∙◌, true, false, Option, none, some, List, [], ◌∷◌, ◌||◌,
  ltb, ◌==◌, ==_iff, nat_eq, list_eq, length, length-take, map, contains, Bool-cases, inl, inr,
  arith, All,
}
use layersmith.Prelude.Result.{Result, ok, err, >>=-eq-ok, ok-apart}
use layersmith.Prelude.Text.{Str, text}
use layersmith.Prelude.Strings.{strip}
use layersmith.Core.Patterns.{
  InvalidSpec, refused, check, check_path, check_mode, name_re, sha256_re, package_re, env_name_re,
  label_re, mode_re,
}
use layersmith.Core.Patterns.Checked.{check_mode-matches, IsPlace, check_path-IsPlace}
use layersmith.Core.Catalog.{find_key, defined, presets_by_name}
use layersmith.Core.Specification.Entries.{
  Tool, FileItem, Variable, set_default, keep_filled, tool_path, check_tool, check_file,
  sensitive_re, check_variable, check_label, check_tests, kept_tests, any_bad,
}
use layersmith.Core.Specification.Sound.{Passes, check-Passes}
use layersmith.Core.Specification.Again.{tests_ok, finish_tool_lem}
use layersmith.Core.Specification.{check_preset, check_workdir}
use layersmith.Core.Specification.Idempotent.{check_preset_same}

abbrev pub IsMode : Option Str → Type 0
IsMode none = ⊥
IsMode (some m) = mode_re m ≡ true

-- The path of a tool, once the white space around it is removed
abbrev pub IsToolPath : Option Str → Type 0
IsToolPath none = ⊥
IsToolPath (some s) = IsPlace (strip s)

abbrev pub IsValidTool : Option Str → Tool → Type 0
IsValidTool architecture t =
    Passes name_re t.name
    × Passes sha256_re t.sha256
    × IsToolPath t.install_path
    × IsMode t.mode
    × (t.architecture ≡ architecture)

abbrev pub IsValidFile : FileItem → Type 0
IsValidFile f = Passes sha256_re f.sha256 × IsPlace (strip f.destination) × IsMode f.mode

abbrev pub IsValidVariable : Variable → Type 0
IsValidVariable v =
    Passes env_name_re v.name
    × (sensitive_re v.name ≡ false)
    × (contains v.value 10 ≡ false)
    × (length v.value ≤ 1000)

abbrev pub IsValidLabel : Str × Str → Type 0
IsValidLabel (key, value) = Passes label_re key × (contains value 10 ≡ false)

abbrev pub IsTestLine : Str → Type 0
IsTestLine t = (contains t 10 ≡ false) × (length t ≤ 500)

abbrev pub IsPreset : Str → Type 0
IsPreset name = defined (find_key presets_by_name name) ≡ true

abbrev pub IsPackage : Str → Type 0
IsPackage p = package_re p ≡ true

check_path-strip : (s what v : Str) → check_path (some s) what ≡ ok v → IsPlace (strip s)
check_path-strip s what v h =
    let (same, place) = check_path-IsPlace s what v h in subst IsPlace (sym same) place

pub check_tool-IsValidTool :
    (architecture : Str) (t u : Tool)
    → check_tool architecture t ≡ ok u
    → IsValidTool (some architecture) u
unfolding check_tool
check_tool-IsValidTool architecture t u h =
    let (x, named, h1) = >>=-eq-ok (check name_re (some t.name) (text "tool name")) _ h in
    let (y, summed, h2) =
      >>=-eq-ok (check sha256_re (some t.sha256) (text "tool file (upload or fetch it first)")) _
        h1 in
    let (z, placed, h3) =
      >>=-eq-ok (check_path (some (tool_path t)) (text "tool install path")) _ h2 in
    let (mode, moded, h4) = >>=-eq-ok (check_mode (some (set_default (text "0755") t.mode))) _ h3 in
    subst (IsValidTool (some architecture)) (finish_tool_lem architecture mode t u h4) (
      check-Passes name_re t.name _ x named,
      check-Passes sha256_re t.sha256 _ y summed,
      check_path-strip (tool_path t) _ z placed,
      check_mode-matches (some (set_default (text "0755") t.mode)) mode moded,
      refl,
    )

pub check_file-IsValidFile : (f g : FileItem) → check_file f ≡ ok g → IsValidFile g
unfolding check_file
check_file-IsValidFile f g h =
    let (x, summed, h1) =
      >>=-eq-ok (check sha256_re (some f.sha256) (text "file (upload it first)")) _ h in
    let (y, placed, h2) =
      >>=-eq-ok (check_path (some f.destination) (text "file destination")) _ h1 in
    let (mode, moded, h3) = >>=-eq-ok (check_mode (some (set_default (text "0644") f.mode))) _ h2 in
    subst IsValidFile (ok-apart h3) (
      check-Passes sha256_re f.sha256 _ x summed,
      check_path-strip f.destination _ y placed,
      check_mode-matches (some (set_default (text "0644") f.mode)) mode moded,
    )

pub check_variable-IsValidVariable : (v w : Variable) → check_variable v ≡ ok w → IsValidVariable w
unfolding check_variable
check_variable-IsValidVariable v w h =
    let (x, named, rest) =
      >>=-eq-ok (check env_name_re (some v.name) (text "environment variable name")) _ h in
    let (open_name, single, same) =
      tests_ok (sensitive_re v.name) (contains v.value 10 || ltb 1000 (length v.value)) _ _ v w
        rest in
    let (one_line, short) = line v.value single in
    subst IsValidVariable same
      (check-Passes env_name_re v.name _ x named, open_name, one_line, short)
  where
    line :
        (s : Str)
        → (contains s 10 || ltb 1000 (length s)) ≡ false
        → (contains s 10 ≡ false) × (length s ≤ 1000)
    line s h = (ground arith, ground arith)

pub check_label-IsValidLabel : (l m : Str × Str) → check_label l ≡ ok m → IsValidLabel m
unfolding check_label
check_label-IsValidLabel (key, value) m h =
    let (x, named, rest) = >>=-eq-ok (check label_re (some key) (text "label name")) _ h in
    let (_, single, same) = tests_ok false (contains value 10) (refused []) _ (key, value) m rest in
    subst IsValidLabel same (check-Passes label_re key _ x named, single)

pub check_preset-IsPreset : (x y : Str) → check_preset x ≡ ok y → IsPreset y
unfolding check_preset
check_preset-IsPreset x y h = elim (Bool-cases (defined (find_key presets_by_name x))) [
  | inl known ↦ subst IsPreset (check_preset_same x y h) known
  | inr other ↦ absurd (no_error (rw other at h))
]
  where
    no_error : {e : InvalidSpec} → ◌≢◌ {A = Result InvalidSpec Str} (err e) (ok y)
    no_error e = cc

pub check_workdir_ok : (w v : Str) → check_workdir w ≡ ok v → (v ≡ []) ⊎ IsPlace v
unfolding check_workdir
check_workdir_ok w v h = elim (Bool-cases (w == [])) [
  | inl empty ↦ inl (sym (ok-apart (rw empty at h)) ∙ (==_iff w []).0 empty)
  | inr given ↦ inr ((check_path-IsPlace w (text "working directory") v (rw given at h)).1)
]

test_lines : (ts : List Str) → any_bad ts ≡ false → All IsTestLine ts
test_lines [] h = tt
test_lines (t ∷ ts) h =
    let rest : any_bad ts ≡ false = ground arith in
    ((ground arith, ground arith), test_lines ts rest)

at_most_50 : (ts : List Str) → length (kept_tests ts) ≤ 50
unfolding kept_tests
at_most_50 ts = omega (arith, length-take 50 (map strip (keep_filled ts)))

pub check_tests_ok :
    (ts us : List Str) → check_tests ts ≡ ok us → All IsTestLine us × (length us ≤ 50)
unfolding check_tests kept_tests
check_tests_ok ts us h =
    let (_, fine, e) =
      tests_ok false (any_bad (kept_tests ts)) (refused []) _ (kept_tests ts) us h in
    subst (λ l. All IsTestLine l × (length l ≤ 50)) e
      (test_lines (kept_tests ts) fine, at_most_50 ts)
