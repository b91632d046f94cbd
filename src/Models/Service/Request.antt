-- ===== src/Models/Service/Request.antt =====
-- `metadata`, `request` and `enqueue` of ModelService in services/llm_models.py. A request is answered by Hugging Face
-- before anything is changed.
pub mod Listed
pub mod Added
pub mod Existing
pub mod Removed
use layersmith.Prelude.{
  ℕ, ◌+◌, Bool, true, false, not, ◌&&◌, ◌||◌, Option, none, some, List, [], ◌∷◌, ◌++◌, map, ltb,
  ◌==◌, nat_eq, list_eq, option_eq, contains, take, if◌then◌else◌,
}
use layersmith.Prelude.Result.{Result, ok, err, require, ◌>>=◌, ◌>>◌}
use layersmith.Prelude.Text.{Str, text}
use layersmith.Prelude.Strings.{has_part}
use layersmith.Models.Files.{Sibling, ModelFile, repo_re, revision_re, select_files, has_weights}
use layersmith.Models.Names.{folder_name}
use layersmith.Models.Service.{LlmModel, Models, set, sum_of}
use layersmith.Models.Service.Run.{headroom}

-- An HTTPError with its code, or another error of the connection
pub data Refusal : Type 0 where
  http_error : ℕ → Refusal
  unreachable : Str → Refusal

-- The keys of the answer that are read; `gated` says that it is neither None nor False.
pub record Metadata : Type 0 where
  pub gated : Bool
  pub private : Bool
  pub sha : Option Str
  pub siblings : List Sibling
  pub license : Option Str

-- The ModelErrors of a request. `no_name` stands for a loop in `folder_name` that has not ended.
pub data RequestError : Type 0 where
  not_an_id not_a_revision not_found_or_login : RequestError
  answered : ℕ → RequestError
  cannot_reach : Str → RequestError
  is_gated is_private no_weights : RequestError
  not_enough_space : ℕ → ℕ → RequestError
  no_name : RequestError

abbrev pub refused : Refusal → RequestError
refused (http_error code) =
    if code == 401 || code == 403 || code == 404 then not_found_or_login else answered code
refused (unreachable reason) = cannot_reach reason

abbrev pub opened : Result Refusal Metadata → Result RequestError Metadata
opened (err e) = err (refused e)
opened (ok d) = require (not d.gated) is_gated >> require (not d.private) is_private >> ok d

-- `metadata(repo_id, revision)`, with what the server answers
unfoldable pub metadata : Str → Str → Result Refusal Metadata → Result RequestError Metadata
unfolding repo_re revision_re text has_part
metadata repo_id revision answer =
    require (repo_re repo_id) not_an_id
    >> require (revision_re revision && not (has_part (text "..") revision)) not_a_revision
    >> opened answer

-- `{s["rfilename"]: s for s in siblings}`: a later entry takes the place of an earlier one.
abbrev pub upsert : Sibling → List Sibling → List Sibling
upsert s [] = s ∷ []
upsert s (t ∷ ts) =
    let rest = upsert s ts in if t.rfilename == s.rfilename then s ∷ ts else t ∷ rest

unfoldable pub keyed_onto : List Sibling → List Sibling → List Sibling
keyed_onto listing [] = listing
keyed_onto listing (s ∷ ss) = keyed_onto (upsert s listing) ss

-- The first row of this repository at this commit
unfoldable pub existing_row : Str → Option Str → List LlmModel → Option LlmModel
existing_row repo_id commit [] = none
existing_row repo_id commit (m ∷ ms) =
    let rest = existing_row repo_id commit ms in
    if m.repo_id == repo_id && m.revision == commit then some m else rest

abbrev pub model_names : List LlmModel → List Str
model_names ms = map (λ m. m.name) ms

-- `enqueue(model_id)`
abbrev enqueue : Str → Models → Models
enqueue id s = record s { queue = s.queue ++ (id ∷ []) }

-- `str(license_name)[:64] if license_name else None`
abbrev license_of : Option Str → Option Str
license_of none = none
license_of (some l) = if l == [] then none else some (take 64 l)

-- A model that is known already is returned, and tried again if it has failed.
abbrev pub known : Models → LlmModel → Str × Models
known s m =
    if m.status == text "failed"
    then (m.id, enqueue m.id (set m.id (λ r. record r { status = text "queued"; error = none }) s))
    else (m.id, s)

module _ (new_id repo_id revision : Str) (catalog_key : Option Str) (free : ℕ) where
  -- `LlmModel(…)`
  abbrev pub new_model : Metadata → List ModelFile → Str → LlmModel
  new_model d files name = record {
    id = new_id;
    name = name;
    repo_id = repo_id;
    revision = d.sha;
    requested_revision = revision;
    catalog_key = catalog_key;
    status = text "queued";
    error = none;
    path = none;
    files = files;
    parts = none;
    total_bytes = sum_of files;
    done_bytes = 0;
    license = license_of d.license;
  }

  abbrev pub added : Models → LlmModel → Str × Models
  added s m = (new_id, enqueue new_id (record s { rows = s.rows ++ (m ∷ []) }))

  abbrev pub named :
      Models → Metadata → List ModelFile → Option Str → Result RequestError (Str × Models)
  named s d files none = err no_name
  named s d files (some name) = ok (added s (new_model d files name))

  abbrev pub find_or_add :
      Models → Metadata → List ModelFile → Option LlmModel → Result RequestError (Str × Models)
  find_or_add s d files (some m) = ok (known s m)
  find_or_add s d files none =
      if ltb free (sum_of files + headroom)
      then err (not_enough_space (sum_of files) free)
      else named s d files (folder_name repo_id (model_names s.rows))

  -- `request(repo_id, revision)`, where a new row gets this id
  unfoldable pub request : Result Refusal Metadata → Models → Result RequestError (Str × Models)
  unfolding metadata keyed_onto select_files has_weights existing_row folder_name text
  request answer s = metadata repo_id revision answer >>= λ d.
      let files = select_files (keyed_onto [] d.siblings) in
      require (has_weights files) no_weights
      >> find_or_add s d files (existing_row repo_id d.sha s.rows)
