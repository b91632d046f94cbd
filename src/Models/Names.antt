-- ===== src/Models/Names.antt =====
-- `folder_name` in llm/catalog.py: the folder of a model, which no other model has.
pub mod Fresh
use layersmith.Prelude.{
  ℕ, zero, suc, ◌+◌, Bool, not, ◌&&◌, Option, none, some, List, [], ◌∷◌, ◌++◌, nat_eq, list_eq,
  contains, length, if◌then◌else◌,
}
use layersmith.Prelude.Text.{Str, text, show}
use layersmith.Prelude.Strings.{cut_first}
use layersmith.Models.Files.{model_name_re}

-- `repo_id.partition("/")` without the separator
abbrev pub owner_name : Str → Option (Str × Str) → Str × Str
owner_name repo_id none = (repo_id, [])
owner_name repo_id (some (owner, name)) = (owner, name)

-- `f"{owner}--{name}"`, and with an index
unfoldable pub long_name : Str → Str → Str
unfolding text
long_name owner name = owner ++ (text "--" ++ name)

unfoldable pub numbered : Str → ℕ → Str
unfolding show
numbered long index = long ++ (45 ∷ show index)

abbrev pub is_free : List Str → Str → Bool
is_free taken candidate = not (contains taken candidate) && model_name_re candidate

-- `while … in taken: index += 1`. `none` says that the fuel ran out.
unfoldable pub next_numbered : ℕ → ℕ → Str → List Str → Option Str
unfolding numbered
next_numbered zero index long taken = none
next_numbered (suc fuel) index long taken =
    let later = next_numbered fuel (index + 1) long taken in
    if contains taken (numbered long index) then later else some (numbered long index)

abbrev pub choose : Str → Str → List Str → Option Str
choose name long taken =
    let more = next_numbered (length taken + 1) 2 long taken in
    if is_free taken name then some name else if is_free taken long then some long else more

-- `folder_name(repo_id, taken)`, with a round of the loop for each name that is taken and one more
unfoldable pub folder_name : Str → List Str → Option Str
unfolding model_name_re next_numbered long_name
folder_name repo_id taken =
    let (owner, name) = owner_name repo_id (cut_first 47 repo_id) in
    choose name (long_name owner name) taken
