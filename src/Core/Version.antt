-- ===== src/Core/Version.antt =====
-- `next_patch`, `version_key`, `image_ref` and `export_filename` of core/spec.py. `digit` is the decimal value of a
-- character for `\d` and `int`: Unicode has digits beyond ASCII's.
pub mod Patch
use layersmith.Prelude.{
  ℕ, ◌+◌, ◌*◌, Bool, true, false, Option, none, some, List, [], ◌∷◌, ◌++◌, ◌&&◌, ◌==◌, nat_eq,
  list_eq, if◌then◌else◌, length, drop,
}
use layersmith.Prelude.Result.{Result, ok, err, ◌>>=◌}
use layersmith.Prelude.Text.{Str, text, show, starts_with}
use layersmith.Prelude.Pattern.{repeated}
use layersmith.Prelude.Strings.{split, replace}
use layersmith.Core.Patterns.{InvalidSpec, refused, check, repository_re}

module _ (digit : ℕ → Option ℕ) where
  abbrev is_some : Option ℕ → Bool
  is_some none = false
  is_some (some n) = true

  -- `\d`
  abbrev is_digit : ℕ → Bool
  is_digit c = is_some (digit c)

  abbrev three_numbers : List Str → Bool
  three_numbers (a ∷ b ∷ c ∷ []) =
      repeated is_digit 1 4 a && (repeated is_digit 1 4 b && repeated is_digit 1 6 c)
  three_numbers _ = false

  unfoldable pub version_re : Str → Bool
  unfolding split repeated
  version_re s = three_numbers (split 46 s)

  abbrev push_digit : (ℕ → Option ℕ) → Option ℕ → Option ℕ
  push_digit k none = none
  push_digit k (some d) = k d

  unfoldable pub int_onto : ℕ → Str → Option ℕ
  int_onto n [] = some n
  int_onto n (c ∷ s) = push_digit (λ d. int_onto (n * 10 + d) s) (digit c)

  -- `int(p)` of a text of digits; `none` stands for its ValueError.
  unfoldable pub int_of : Str → Option ℕ
  unfolding int_onto
  int_of [] = none
  int_of (c ∷ s) = int_onto 0 (c ∷ s)

  abbrev cons_int : Option ℕ → Option (List ℕ) → Option (List ℕ)
  cons_int (some n) (some ns) = some (n ∷ ns)
  cons_int _ _ = none

  abbrev pub ints : List Str → Option (List ℕ)
  ints [] = some []
  ints (p ∷ ps) = cons_int (int_of p) (ints ps)

  -- `version_key(version)`
  unfoldable pub version_key : Str → Option (List ℕ)
  unfolding split int_of
  version_key version = ints (split 46 version)

  -- The text of three numbers, the last one higher
  abbrev pub next_text : Option (List ℕ) → Result InvalidSpec Str
  next_text (some (major ∷ minor ∷ patch ∷ [])) =
      ok (show major ++ (46 ∷ (show minor ++ (46 ∷ show (patch + 1)))))
  next_text _ = err (refused (text "Invalid version"))

  -- `next_patch(version)`
  unfoldable pub next_patch : Option Str → Result InvalidSpec Str
  unfolding check version_re split int_of show text
  next_patch version =
      check version_re version (text "version") >>= λ v. next_text (ints (split 46 v))

  -- `image_ref(repository, version)`
  unfoldable pub image_ref : Option Str → Option Str → Result InvalidSpec Str
  unfolding check version_re repository_re text
  image_ref repository version = check repository_re repository (text "repository") >>= λ r.
      check version_re version (text "version") >>= λ v. ok (r ++ (58 ∷ v))

-- `repository` without a leading `localhost/`
abbrev store_name : Str → Str
store_name repository =
    if starts_with repository (text "localhost/") then drop 10 repository else repository

-- `export_filename(repository, version)`
unfoldable export_filename : Str → Str → Str
unfolding text starts_with replace
export_filename repository version =
    replace 47 (text "-") (store_name repository) ++ (45 ∷ (version ++ text ".tar"))
