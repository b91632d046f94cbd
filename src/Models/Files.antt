-- ===== src/Models/Files.antt =====
-- `REPO_RE`, `REVISION_RE`, `NAME_RE`, `WANTED`, `select_files` and `has_weights` in llm/catalog.py.
use layersmith.Prelude.{
  ℕ, suc, ◌-◌, Bool, false, not, ◌&&◌, ◌||◌, Option, none, some, List, [], ◌∷◌, ltb, ◌==◌, nat_eq,
  list_eq, contains, length, take, drop, if◌then◌else◌,
}
use layersmith.Prelude.Text.{Str, text, starts_with, ends_with}
use layersmith.Prelude.Strings.{cut_first}
use layersmith.Prelude.Pattern.{Class, is_alnum, is_lower, one_of, all_in, headed, anchored}

-- `[A-Za-z0-9._-]` and `[A-Za-z0-9._/-]`
unfoldable model_char : Class
unfolding is_alnum one_of text
model_char c = is_alnum c || one_of (text "._-") c

unfoldable revision_char : Class
unfolding is_alnum one_of text
revision_char c = is_alnum c || one_of (text "._/-") c

abbrev both_parts : Option (Str × Str) → Bool
both_parts none = false
both_parts (some (owner, name)) =
    headed is_alnum model_char 95 owner && headed is_alnum model_char 95 name

-- `REPO_RE.match`: neither part can have the slash between them.
unfoldable pub repo_re : Str → Bool
unfolding anchored headed model_char
repo_re = anchored (λ s. both_parts (cut_first 47 s))

-- `REVISION_RE.match`
unfoldable pub revision_re : Str → Bool
unfolding anchored headed revision_char
revision_re = anchored (headed is_alnum revision_char 99)

-- `NAME_RE.match`
unfoldable pub model_name_re : Str → Bool
unfolding anchored headed model_char
model_name_re = anchored (headed is_alnum model_char 99)

-- `[^/]+` before a suffix
unfoldable plain_with : Str → Str → Bool
unfolding ends_with all_in
plain_with suffix s =
    ends_with s suffix
    && ltb (length suffix) (length s)
    && all_in (λ c. not (c == 47)) (take (length s - length suffix) s)

-- `name(?:\.[a-z]+)?`
unfoldable named_with : Str → Str → Bool
unfolding starts_with all_in is_lower
named_with name s =
    let rest = drop (length name) s in
    starts_with s name
    && (rest == []
        || (starts_with rest (46 ∷ []) && ltb 1 (length rest) && all_in is_lower (drop 1 rest)))

-- `WANTED`, with the file names that it spells out
unfoldable wanted_names : List Str
unfolding text
wanted_names =
    text "tokenizer.model"
    ∷ text "merges.txt"
    ∷ text "vocab.txt"
    ∷ text "README.md"
    ∷ text "USE_POLICY.md"
    ∷ []

abbrev is_wanted : Str → Bool
is_wanted s =
    plain_with (text ".safetensors") s
    || plain_with (text ".json") s
    || plain_with (text ".tiktoken") s
    || plain_with (text ".jinja") s
    || contains wanted_names s
    || named_with (text "LICENSE") s
    || named_with (text "NOTICE") s

unfoldable pub wanted : Str → Bool
unfolding plain_with named_with wanted_names text anchored
wanted = anchored is_wanted

-- An entry of Hugging Face's list; `lfs` gives a size and a checksum.
pub record Sibling : Type 0 where
  pub rfilename : Str
  pub size : Option ℕ
  pub lfs : Option (Option ℕ × Option Str)
  pub blob_id : Option Str

-- An entry of `files`: as it is requested, and, with `sha256`, as it is stored
pub record ModelFile : Type 0 where
  pub name : Str
  pub size : ℕ
  pub expected_sha256 : Option Str
  pub blob_id : Option Str
  pub sha256 : Option Str

abbrev pub wanted_of : List Sibling → List Sibling
wanted_of [] = []
wanted_of (s ∷ ss) = let rest = wanted_of ss in if wanted s.rfilename then s ∷ rest else rest

-- `n.startswith("model") and n.endswith(".safetensors")`
unfoldable pub is_model_part : Str → Bool
unfolding text starts_with ends_with
is_model_part n = starts_with n (text "model") && ends_with n (text ".safetensors")

abbrev pub any_model_part : List Sibling → Bool
any_model_part [] = false
any_model_part (s ∷ ss) = is_model_part s.rfilename || any_model_part ss

unfoldable pub is_consolidated : Str → Bool
unfolding text starts_with
is_consolidated n = starts_with n (text "consolidated")

abbrev pub not_consolidated : List Sibling → List Sibling
not_consolidated [] = []
not_consolidated (s ∷ ss) =
    let rest = not_consolidated ss in if is_consolidated s.rfilename then rest else s ∷ rest

-- `a or b or 0` of two sizes
abbrev size_or : Option ℕ → Option ℕ → ℕ
size_or (some (suc n)) other = suc n
size_or _ (some n) = n
size_or _ none = 0

abbrev lfs_size : Option (Option ℕ × Option Str) → Option ℕ
lfs_size none = none
lfs_size (some (size, sum)) = size

abbrev lfs_sha256 : Option (Option ℕ × Option Str) → Option Str
lfs_sha256 none = none
lfs_sha256 (some (size, sum)) = sum

-- The entry of a file, with the keys that `request` adds and renames
abbrev file_of : Sibling → ModelFile
file_of s = record {
  name = s.rfilename;
  size = size_or (lfs_size s.lfs) s.size;
  expected_sha256 = lfs_sha256 s.lfs;
  blob_id = s.blob_id;
  sha256 = none;
}

abbrev pub files_of : List Sibling → List ModelFile
files_of [] = []
files_of (s ∷ ss) = file_of s ∷ files_of ss

-- `select_files(siblings)`
unfoldable pub select_files : List Sibling → List ModelFile
unfolding wanted is_model_part is_consolidated
select_files siblings =
    let files = wanted_of siblings in
    files_of (if any_model_part files then not_consolidated files else files)

abbrev any_safetensors : List ModelFile → Bool
any_safetensors [] = false
any_safetensors (f ∷ fs) = ends_with f.name (text ".safetensors") || any_safetensors fs

abbrev any_config : List ModelFile → Bool
any_config [] = false
any_config (f ∷ fs) = f.name == text "config.json" || any_config fs

-- `has_weights(files)`
unfoldable pub has_weights : List ModelFile → Bool
unfolding text ends_with
has_weights files = any_safetensors files && any_config files
