-- ===== src/Core/Patterns/Checked.antt =====
-- What `check`, `check_path` and `check_mode` return.
use layersmith.Prelude.{
  ◌≡◌, ◌≢◌, refl, subst, ◌∙◌, Bool, true, false, Option, none, some, [], ◌∷◌, ◌||◌, ◌==◌, nat_eq,
  list_eq, list_beq, if◌then◌else◌, Bool-cases, inl, inr, arith,
}
use layersmith.Prelude.Result.{Result, ok, err, >>=-eq-ok, ok-apart}
use layersmith.Prelude.Text.{Str, text, starts_with, ends_with}
use layersmith.Prelude.Pattern.{anchored, all_in}
use layersmith.Prelude.Strings.{strip, has_part, is_space}
use layersmith.Prelude.Strings.Cuts.{is_solid, strip-solid, ends_with-strip}
use layersmith.Prelude.Strings.Stripped.{strip-strip}
use layersmith.Core.Patterns.{
  InvalidSpec, invalid, missing, check, stripped, path_re, mode_re, safe_path, check_path,
  check_mode, or_text, starts_with_any, forbidden_prefixes,
}

-- What a check that succeeds says
pub check_ok :
    (pattern : Str → Bool) (value : Option Str) (what v : Str)
    → check pattern value what ≡ ok v
    → (stripped value ≡ v) × (anchored pattern v ≡ true)
unfolding check
check_ok pattern value what v h = elim (Bool-cases (anchored pattern (stripped value))) [
  | inl good ↦
      let e : stripped value ≡ v = injective (rw good at h) in
      (e, subst (λ x. anchored pattern x ≡ true) e good)
  | inr bad ↦ absurd (no_error (stripped value == []) (rw bad at h))
]
  where
    injective : {x : Str} → ◌≡◌ {A = Result InvalidSpec Str} (ok x) (ok v) → x ≡ v
    injective e = cc

    no_error :
        (b : Bool) → (if b then err (missing what) else err (invalid what (stripped value))) ≢ ok v
    no_error true e = cc
    no_error false e = cc

pub check-stripped :
    (pattern : Str → Bool) (a b : Option Str) (what : Str)
    → stripped a ≡ stripped b
    → check pattern a what ≡ check pattern b what
unfolding check
check-stripped pattern a b what e = rw e refl

check_pass :
    (pattern : Str → Bool) (value : Option Str) (what : Str)
    → anchored pattern (stripped value) ≡ true
    → check pattern value what ≡ ok (stripped value)
unfolding check
check_pass pattern value what good = rw good refl

-- A text that matches and has no white space passes as it is.
pub check_pass_solid :
    (pattern : Str → Bool) (s what : Str)
    → all_in is_solid s ≡ true
    → pattern s ≡ true
    → check pattern (some s) what ≡ ok s
unfolding anchored
check_pass_solid pattern s what solid good =
    let matched : anchored pattern s ≡ true = rw good refl in
    subst (λ x. anchored pattern x ≡ true → check pattern (some s) what ≡ ok x)
      (strip-solid s solid) (check_pass pattern (some s) what) matched

stripped-stripped : (value : Option Str) → strip (stripped value) ≡ stripped value
unfolding strip
stripped-stripped none = refl
stripped-stripped (some s) = strip-strip s

-- A value that a check returned passes it again, unchanged.
pub check-check :
    (pattern : Str → Bool) (value : Option Str) (what v : Str)
    → check pattern value what ≡ ok v
    → check pattern (some v) what ≡ ok v
check-check pattern value what v h =
    let (e, good) = check_ok pattern value what v h in
    let same : stripped (some v) ≡ stripped value =
      subst (λ x. strip x ≡ stripped value) e (stripped-stripped value) in
    check-stripped pattern (some v) value what same ∙ h

line_end : is_space 10 ≡ true
unfolding is_space
line_end = refl

no_line_end : (value : Option Str) → ends_with (stripped value) (10 ∷ []) ≡ false
unfolding ends_with list_beq
no_line_end none = refl
no_line_end (some s) = ends_with-strip 10 s line_end

-- A value that a check returned matches the pattern as a whole: stripped, it has no line break that `$` skips.
pub check-matches :
    (pattern : Str → Bool) (value : Option Str) (what v : Str)
    → check pattern value what ≡ ok v
    → pattern v ≡ true
unfolding anchored
check-matches pattern value what v h =
    let (e, good) = check_ok pattern value what v h in
    let no_end : ends_with v (10 ∷ []) ≡ false =
      subst (λ x. ends_with x (10 ∷ []) ≡ false) e (no_line_end value) in
    ground (arith, no_end)

abbrev SafePath : Str → Type 0
SafePath path =
    ((has_part (text "..") path || ends_with path (text "/"))
      || starts_with_any path forbidden_prefixes)
    ≡ false

safe_path_ok : (what path v : Str) → safe_path what path ≡ ok v → (path ≡ v) × SafePath path
safe_path_ok what path v h =
    elim (Bool-cases (
      (has_part (text "..") path || ends_with path (text "/"))
      || starts_with_any path forbidden_prefixes)) [
        | inl bad ↦ absurd (no_error (rw bad at h))
        | inr fine ↦ (ok-apart (rw fine at h), fine)
      ]
  where
    no_error : ◌≢◌ {A = Result InvalidSpec Str} (err (invalid what path)) (ok v)
    no_error e = cc

pub check_path-check_path :
    (value : Option Str) (what v : Str)
    → check_path value what ≡ ok v
    → check_path (some v) what ≡ ok v
unfolding check_path
check_path-check_path value what v h =
    let (path, checked, rest) = >>=-eq-ok (check path_re value what) (safe_path what) h in
    let (same, fine) = safe_path_ok what path v rest in
    let again : check path_re (some v) what ≡ ok path =
      subst (λ x. check path_re (some x) what ≡ ok path) same
        (check-check path_re value what path checked) in
    rw again rest

pub check_path-matches :
    (value : Option Str) (what v : Str) → check_path value what ≡ ok v → path_re v ≡ true
unfolding check_path
check_path-matches value what v h =
    let (path, checked, rest) = >>=-eq-ok (check path_re value what) (safe_path what) h in
    subst (λ x. path_re x ≡ true) ((safe_path_ok what path v rest).0)
      (check-matches path_re value what path checked)

or_false : (a b : Bool) → (a || b) ≡ false → (a ≡ false) × (b ≡ false)
or_false true b h = cc
or_false false b h = (refl, h)

-- A path with no step up and no slash at its end, that is in none of the kernel's directories
abbrev pub IsPlace : Str → Type 0
IsPlace path =
    (path_re path ≡ true)
    × (has_part (text "..") path ≡ false)
    × (ends_with path (text "/") ≡ false)
    × (starts_with path (text "/proc/") ≡ false)
    × (starts_with path (text "/sys/") ≡ false)
    × (starts_with path (text "/dev/") ≡ false)

pub check_path-IsPlace :
    (s what v : Str) → check_path (some s) what ≡ ok v → (strip s ≡ v) × IsPlace v
unfolding check_path
check_path-IsPlace s what v h =
    let (path, checked, rest) = >>=-eq-ok (check path_re (some s) what) (safe_path what) h in
    let (same, fine) = safe_path_ok what path v rest in
    let (stripped_same, good) = check_ok path_re (some s) what path checked in
    subst (λ x. (strip s ≡ x) × IsPlace x) same
      (stripped_same, apart path (check-matches path_re (some s) what path checked) fine)
  where
    apart : (x : Str) → path_re x ≡ true → SafePath x → IsPlace x
    apart x matched fine =
        let (ways, prefixes) =
          or_false (has_part (text "..") x || ends_with x (text "/"))
            (starts_with_any x forbidden_prefixes) fine in
        let (up, slash) = or_false (has_part (text "..") x) (ends_with x (text "/")) ways in
        let (proc, more) =
          or_false (starts_with x (text "/proc/")) _ (unfold forbidden_prefixes in prefixes) in
        let (sys, last) = or_false (starts_with x (text "/sys/")) _ more in
        let (dev, _) = or_false (starts_with x (text "/dev/")) false last in
        (matched, up, slash, proc, sys, dev)

or_text_filled : (default v : Str) → v ≢ [] → or_text default (some v) ≡ v
unfolding list_beq
or_text_filled default [] ne = absurd (ne refl)
or_text_filled default (c ∷ v) ne = refl

pub check_mode-matches : (value : Option Str) (m : Str) → check_mode value ≡ ok m → mode_re m ≡ true
unfolding check_mode
check_mode-matches value m h =
    check-matches mode_re (some (or_text (text "0644") value)) (text "file mode") m h

pub check_mode-check_mode :
    (value : Option Str) (m : Str) → check_mode value ≡ ok m → check_mode (some m) ≡ ok m
unfolding check_mode mode_re
check_mode-check_mode value m h =
    let again = check-check mode_re (some (or_text (text "0644") value)) (text "file mode") m h in
    rw (or_text_filled (text "0644") m (not_empty m (check_mode-matches value m h))) again
  where
    not_empty : (m : Str) → mode_re m ≡ true → m ≢ []
    not_empty m good e = let bad = subst (λ x. mode_re x ≡ true) e good in cc
