-- ===== src/Core/Patterns.antt =====
-- The patterns of core/spec.py, `check`, `check_path` and `check_mode`. A value is a text or missing.
pub mod Checked
use layersmith.Prelude.{
  ℕ, ◌*◌, Bool, true, false, Option, none, some, List, [], ◌∷◌, ◌&&◌, ◌||◌, leb, ◌==◌, nat_eq,
  list_eq, if◌then◌else◌, length, drop,
}
use layersmith.Prelude.Result.{Result, ok, err, ◌>>=◌}
use layersmith.Prelude.Text.{Str, text, starts_with, ends_with}
use layersmith.Prelude.Pattern.{
  Class, is_lower, is_upper, is_ascii_digit, is_alnum, one_of, repeated, headed, anchored,
}
use layersmith.Prelude.Strings.{strip, split, cut_first, has_part}

-- InvalidSpec, by what its message says: a value that is invalid or missing, or a rule that is broken
pub data InvalidSpec : Type 0 where
  invalid : Str → Str → InvalidSpec
  missing : Str → InvalidSpec
  refused : Str → InvalidSpec

-- MAX_SCRIPT and MAX_ENTRIES
abbrev pub max_script : ℕ
max_script = 64 * 1024

abbrev pub max_entries : ℕ
max_entries = 100

unfoldable pub script_keys : List Str
unfolding text
script_keys = text "pre_build" ∷ text "post_install" ∷ text "entrypoint" ∷ []

-- `[a-z0-9]`
unfoldable lower_digit : Class
unfolding is_lower is_ascii_digit
lower_digit c = is_lower c || is_ascii_digit c

unfoldable pub name_re : Str → Bool
unfolding lower_digit headed
name_re = headed lower_digit (λ c. lower_digit c || c == 45) 62

-- `[a-z0-9]+(?:[._-][a-z0-9]+)*`, after a character that may end it or not
unfoldable component_from : Bool → Str → Bool
unfolding lower_digit one_of text
component_from may_end [] = may_end
component_from may_end (c ∷ s) =
    let after_letter = component_from true s in
    let after_mark = component_from false s in
    if lower_digit c then after_letter else may_end && (one_of (text "._-") c && after_mark)

unfoldable pub component : Str → Bool
unfolding component_from
component s = component_from false s

abbrev all_components : List Str → Bool
all_components [] = true
all_components (p ∷ ps) = component p && all_components ps

unfoldable pub repository_re : Str → Bool
unfolding split component
repository_re s = let parts = split 47 s in all_components parts && leb (length parts) 4

unfoldable pub tag_re : Str → Bool
unfolding is_alnum one_of text headed
tag_re = headed (λ c. is_alnum c || c == 95) (λ c. is_alnum c || one_of (text "_.-") c) 127

unfoldable pub package_re : Str → Bool
unfolding is_alnum one_of text headed
package_re = headed is_alnum (λ c. is_alnum c || one_of (text ".+_:~-") c) 127

unfoldable pub env_name_re : Str → Bool
unfolding is_alnum is_lower is_upper headed
env_name_re = headed (λ c. is_lower c || is_upper c || c == 95) (λ c. is_alnum c || c == 95) 63

-- A slash, and from one to so many characters of a class
abbrev slashed : Class → ℕ → Str → Bool
slashed p most [] = false
slashed p most (c ∷ s) = c == 47 && repeated p 1 most s

unfoldable pub path_re : Str → Bool
unfolding is_alnum one_of text repeated
path_re = slashed (λ c. is_alnum c || one_of (text "._@+/-") c) 255

unfoldable pub label_re : Str → Bool
unfolding lower_digit one_of text headed
label_re = headed lower_digit (λ c. lower_digit c || one_of (text "._-") c) 127

unfoldable pub user_re : Str → Bool
unfolding is_lower lower_digit one_of text headed
user_re = headed (λ c. is_lower c || c == 95) (λ c. lower_digit c || one_of (text "_-") c) 31

unfoldable pub shell_re : Str → Bool
unfolding lower_digit one_of text repeated
shell_re = slashed (λ c. lower_digit c || one_of (text "/_-") c) 63

abbrev mode_tail : Str → Bool
mode_tail [] = false
mode_tail (c ∷ s) = c == 48 && repeated (λ d. leb 48 d && leb d 55) 3 3 s

unfoldable pub mode_re : Str → Bool
unfolding repeated
mode_re = mode_tail

unfoldable pub sha256_re : Str → Bool
unfolding is_ascii_digit repeated
sha256_re = repeated (λ c. (leb 97 c && leb c 102) || is_ascii_digit c) 64 64

unfoldable pub digest_re : Str → Bool
unfolding sha256_re text starts_with
digest_re s = starts_with s (text "sha256:") && sha256_re (drop 7 s)

-- `[a-z0-9]([a-z0-9.-]*[a-z0-9])?`, after a character that may end it or not
unfoldable host_from : Bool → Str → Bool
unfolding lower_digit one_of text
host_from may_end [] = may_end
host_from may_end (c ∷ s) =
    let after_letter = host_from true s in
    let after_mark = host_from false s in
    if lower_digit c then after_letter else one_of (text ".-") c && after_mark

abbrev host_re : Str → Bool
host_re [] = false
host_re (c ∷ s) = lower_digit c && host_from true s

abbrev host_port : Str → Option (Str × Str) → Bool
host_port s none = host_re s
host_port s (some (host, port)) = host_re host && repeated is_ascii_digit 1 5 port

unfoldable pub registry_re : Str → Bool
unfolding lower_digit host_from cut_first is_ascii_digit repeated
registry_re s = host_port s (cut_first 58 s)

-- The first pattern of `parse_reference`
unfoldable pub reference_char : Class
unfolding is_alnum one_of text
reference_char c = is_alnum c || one_of (text "._:/@-") c

unfoldable pub reference_re : Str → Bool
unfolding reference_char is_alnum headed
reference_re = headed is_alnum reference_char 255

-- `str(value).strip()`, or `""` for None
abbrev pub stripped : Option Str → Str
stripped none = []
stripped (some s) = strip s

-- `check(pattern, value, what)`; the pattern is under `match`, with `^` and `$`.
unfoldable pub check : (Str → Bool) → Option Str → Str → Result InvalidSpec Str
unfolding strip anchored
check pattern value what =
    let v = stripped value in
    if anchored pattern v
    then ok v
    else if v == []
    then err (missing what)
    else err (invalid what v)

unfoldable pub forbidden_prefixes : List Str
unfolding text
forbidden_prefixes = text "/proc/" ∷ text "/sys/" ∷ text "/dev/" ∷ []

abbrev pub starts_with_any : Str → List Str → Bool
starts_with_any s [] = false
starts_with_any s (p ∷ ps) = starts_with s p || starts_with_any s ps

-- The part of `check_path` after `check`
abbrev pub safe_path : Str → Str → Result InvalidSpec Str
safe_path what path =
    if (has_part (text "..") path || ends_with path (text "/"))
      || starts_with_any path forbidden_prefixes
    then err (invalid what path)
    else ok path

unfoldable pub check_path : Option Str → Str → Result InvalidSpec Str
unfolding check path_re has_part forbidden_prefixes text starts_with ends_with
check_path value what = check path_re value what >>= safe_path what

-- `value or "0644"`
abbrev pub or_text : Str → Option Str → Str
or_text default none = default
or_text default (some s) = if s == [] then default else s

unfoldable pub check_mode : Option Str → Result InvalidSpec Str
unfolding check mode_re text
check_mode value = check mode_re (some (or_text (text "0644") value)) (text "file mode")
