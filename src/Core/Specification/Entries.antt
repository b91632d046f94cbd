-- ===== src/Core/Specification/Entries.antt =====
-- The entries of a specification, as `validate_spec` of core/spec.py checks them. A text is empty where its key is
-- missing, except where the code gives a missing key a value of its own.
use layersmith.Prelude.{
  ℕ, ◌-◌, ◌^◌, Bool, false, Option, none, some, List, [], ◌∷◌, ◌++◌, ◌&&◌, ◌||◌, not, leb, ltb,
  ◌==◌, nat_eq, list_eq, if◌then◌else◌, length, map, take, contains,
}
use layersmith.Prelude.Result.{Result, ok, err, ◌>>=◌, map_ok}
use layersmith.Prelude.Text.{Str, text}
use layersmith.Prelude.Strings.{strip, has_part}
use layersmith.Core.Patterns.{
  InvalidSpec, refused, check, check_path, check_mode, or_text, name_re, sha256_re, package_re,
  env_name_re, label_re, user_re, shell_re, script_keys, max_script,
}

-- The value of `d.setdefault(key, default)`
abbrev pub set_default : Str → Option Str → Str
set_default default none = default
set_default default (some s) = s

-- An entry of `tools`
pub record Tool : Type 0 where
  pub name : Str
  pub sha256 : Str
  pub install_path : Option Str
  pub mode : Option Str
  pub architecture : Option Str

-- An entry of `files`
pub record FileItem : Type 0 where
  pub sha256 : Str
  pub destination : Str
  pub mode : Option Str

-- An entry of `env`
pub record Variable : Type 0 where
  pub name : Str
  pub value : Str

pub record User : Type 0 where
  pub name : Str
  pub uid : Option ℕ
  pub gid : Option ℕ
  pub shell : Option Str

-- `str(p).strip()` is not empty
abbrev pub filled : Str → Bool
filled s = not (strip s == [])

unfoldable pub keep_filled : List Str → List Str
unfolding strip
keep_filled [] = []
keep_filled (p ∷ ps) = let rest = keep_filled ps in if filled p then p ∷ rest else rest

abbrev pub check_package : Str → Result InvalidSpec Str
check_package p = check package_re (some p) (text "package name")

-- `[check(PACKAGE_RE, p, "package name") for p in … if str(p).strip()]`
unfoldable pub check_packages : List Str → Result InvalidSpec (List Str)
unfolding map_ok keep_filled check package_re text
check_packages ps = map_ok check_package (keep_filled ps)

-- The path of a tool, given or made of its name
abbrev pub tool_path : Tool → Str
tool_path t = set_default (text "/usr/local/bin/" ++ t.name) t.install_path

abbrev pub tool_architecture : Str → Tool → Str
tool_architecture architecture t = or_text architecture t.architecture

-- The end of a tool's checks
abbrev pub finish_tool : Str → Tool → Str → Result InvalidSpec Tool
finish_tool architecture t mode =
    if tool_architecture architecture t == architecture
    then ok (record t {
      install_path = some (tool_path t);
      mode = some mode;
      architecture = some (tool_architecture architecture t);
    })
    else err (refused (text "architecture"))

-- The checks of a tool, in the loop over `tools`
unfoldable pub check_tool : Str → Tool → Result InvalidSpec Tool
unfolding check name_re sha256_re check_path check_mode text
check_tool architecture t = check name_re (some t.name) (text "tool name") >>= λ _.
    check sha256_re (some t.sha256) (text "tool file (upload or fetch it first)") >>= λ _.
    check_path (some (tool_path t)) (text "tool install path") >>= λ _.
    check_mode (some (set_default (text "0755") t.mode)) >>= λ mode. finish_tool architecture t mode

-- The checks of a file, in the loop over `files`
unfoldable pub check_file : FileItem → Result InvalidSpec FileItem
unfolding check sha256_re check_path check_mode text
check_file item = check sha256_re (some item.sha256) (text "file (upload it first)") >>= λ _.
    check_path (some item.destination) (text "file destination") >>= λ _.
    check_mode (some (set_default (text "0644") item.mode)) >>= λ mode.
    ok (record item { mode = some mode })

-- A script: its key must be known and its text not too large.
unfoldable pub check_script : Str × Str → Result InvalidSpec (Str × Str)
unfolding script_keys text
check_script (key, body) =
    if not (contains script_keys key)
    then err (refused (text "Unknown script"))
    else if ltb max_script (length body)
    then err (refused (text "Script"))
    else ok (key, body)

-- `s.upper()` of ASCII's letters; `env_name_re` lets no other letter through.
unfoldable upper : Str → Str
upper [] = []
upper (c ∷ s) = (if leb 97 c && leb c 122 then c - 32 else c) ∷ upper s

abbrev any_part : List Str → Str → Bool
any_part [] s = false
any_part (p ∷ ps) s = has_part p s || any_part ps s

-- SENSITIVE_RE: each alternative, without the optional end of the first
unfoldable sensitive_words : List Str
unfolding text
sensitive_words =
    text "PASS"
    ∷ text "TOKEN"
    ∷ text "SECRET"
    ∷ text "APIKEY"
    ∷ text "API_KEY"
    ∷ text "PRIVATEKEY"
    ∷ text "PRIVATE_KEY"
    ∷ text "CREDENTIAL"
    ∷ text "AUTH"
    ∷ []

unfoldable pub sensitive_re : Str → Bool
unfolding sensitive_words upper has_part
sensitive_re name = any_part sensitive_words (upper name)

-- The checks of a variable, in the loop over `env`
unfoldable pub check_variable : Variable → Result InvalidSpec Variable
unfolding check env_name_re sensitive_re text
check_variable item = check env_name_re (some item.name) (text "environment variable name") >>= λ _.
    if sensitive_re item.name
    then err (refused (text "looks like a secret"))
    else if contains item.value 10 || ltb 1000 (length item.value)
    then err (refused (text "Value must be a single line"))
    else ok item

unfoldable pub check_label : Str × Str → Result InvalidSpec (Str × Str)
unfolding check label_re text
check_label (key, value) = check label_re (some key) (text "label name") >>= λ _.
    if contains value 10
    then err (refused (text "Label values must be single lines"))
    else ok (key, value)

-- `user.get(key) not in (None, "") and not (1 <= user[key] <= 2**31 - 2)`
abbrev pub bad_id : Option ℕ → Bool
bad_id none = false
bad_id (some n) = not (leb 1 n && leb n (2 ^ 31 - 2))

abbrev pub check_ids : User → Result InvalidSpec User
check_ids user =
    if bad_id user.uid
    then err (refused (text "Invalid uid"))
    else if bad_id user.gid
    then err (refused (text "Invalid gid"))
    else ok user

abbrev pub user_shell : User → Str
user_shell user = set_default (text "/bin/sh") user.shell

-- `if user.get("name"):`
unfoldable pub check_user : User → Result InvalidSpec User
unfolding check user_re shell_re text
check_user user =
    if user.name == []
    then ok user
    else (check user_re (some user.name) (text "user name") >>= λ _. check_ids user >>= λ _.
        check shell_re (some (user_shell user)) (text "shell") >>= λ _.
        ok (record user { shell = some (user_shell user) }))

-- `[t for t in (str(x).strip() for x in …) if t][:50]`
unfoldable pub kept_tests : List Str → List Str
unfolding strip keep_filled
kept_tests ts = take 50 (map strip (keep_filled ts))

abbrev bad_test : Str → Bool
bad_test t = contains t 10 || ltb 500 (length t)

abbrev pub any_bad : List Str → Bool
any_bad [] = false
any_bad (t ∷ ts) = bad_test t || any_bad ts

unfoldable pub check_tests : List Str → Result InvalidSpec (List Str)
unfolding kept_tests text
check_tests tests =
    if any_bad (kept_tests tests)
    then err (refused (text "Each test is a single command line"))
    else ok (kept_tests tests)
