-- ===== src/Builds/Context.antt =====
-- `script_body` and `context_plan` of core/containerfile.py, and `prepare_context` of services/builds.py up
-- to the files that the recipes of special images add. The context is a table of files by path, and an
-- uploaded file is found under its checksum.
pub mod Copied
use layersmith.Prelude.{
  ℕ, ◌+◌, Bool, true, false, Option, none, some, List, [], ◌∷◌, ◌++◌, ◌&&◌, ◌||◌, not, map, ltb,
  ◌==◌, nat_eq, list_eq, if◌then◌else◌, length,
}
use layersmith.Prelude.Result.{Result, ok, err}
use layersmith.Prelude.Text.{Str, text, starts_with}
use layersmith.Prelude.Map.{Map, empty, put}
use layersmith.Split.Stream.{Bytes}

-- `s.replace("\r\n", "\n")`
unfoldable replace_crlf : Str → Str
replace_crlf [] = []
replace_crlf (c ∷ []) = c ∷ []
replace_crlf (c ∷ d ∷ s) =
    let plain = c ∷ replace_crlf (d ∷ s) in
    let replaced = 10 ∷ replace_crlf s in if c == 13 && d == 10 then replaced else plain

-- `script_body(text)`
unfoldable pub script_body : Str → Str
unfolding replace_crlf text starts_with
script_body s =
    let body = replace_crlf s in
    if starts_with body (text "#!")
    then body
    else text "#!/bin/sh" ++ (10 ∷ (text "set -eu" ++ (10 ∷ body)))

-- The parts of a specification that `context_plan` reads: the checksums of the tools and of the files,
-- and the scripts. The truth of `text.strip()` is the field `is_blank`, for each script.
pub record Script : Type 0 where
  pub key : Str
  pub body : Str
  pub is_blank : Bool

pub record Spec : Type 0 where
  pub tools : List Str
  pub files : List Str
  pub scripts : List Script

-- An entry of the plan: a blob of a tool or a file, by its checksum, or a script
pub data Planned : Type 0 where
  tool file : Str → Planned
  script : Script → Planned

-- `key.replace('_', '-')`
unfoldable dashes : Str → Str
dashes [] = []
dashes (c ∷ s) = (if c == 95 then 45 else c) ∷ dashes s

unfoldable pub path_of : Planned → Str
unfolding text dashes
path_of (tool sha256) = text "tools/" ++ sha256
path_of (file sha256) = text "files/" ++ sha256
path_of (script s) = text "scripts/" ++ (dashes s.key ++ text ".sh")

abbrev pub plan_scripts : List Script → List Planned
plan_scripts [] = []
plan_scripts (s ∷ ss) = let rest = plan_scripts ss in if s.is_blank then rest else script s ∷ rest

-- `context_plan(spec)`
abbrev pub context_plan : Spec → List Planned
context_plan spec = map tool spec.tools ++ (map file spec.files ++ plan_scripts spec.scripts)

-- What stands under a name in the upload directory
pub data Upload : Type 0 where
  link directory : Upload
  plain : Bytes → Upload

pub data BuildError : Type 0 where
  is_link missing bad_checksum : Str → BuildError
  too_large : BuildError

-- The context, and `total`
pub record Context : Type 0 where
  pub files : Map Str Bytes
  pub total : ℕ

module _ (sha256 : Bytes → Str) (encode : Str → Bytes) (uploads : Map Str Upload)
    (max_context_bytes : ℕ) where
  -- A file in the upload directory, from the checksum test on
  abbrev pub copy_bytes : Context → Str → Str → Bytes → Result BuildError Context
  copy_bytes c path source bytes =
      if not (sha256 bytes == source)
      then err (bad_checksum source)
      else if ltb max_context_bytes (c.total + length bytes)
      then err too_large
      else ok (record { files = put c.files path bytes; total = c.total + length bytes })

  -- A blob of the plan
  abbrev pub copy_blob : Context → Str → Str → Option Upload → Result BuildError Context
  copy_blob c path source none = err (missing source)
  copy_blob c path source (some link) = err (is_link source)
  copy_blob c path source (some directory) = err (missing source)
  copy_blob c path source (some (plain bytes)) = copy_bytes c path source bytes

  abbrev pub write_entry : Context → Planned → Result BuildError Context
  write_entry c (tool source) = copy_blob c (path_of (tool source)) source (uploads source)
  write_entry c (file source) = copy_blob c (path_of (file source)) source (uploads source)
  write_entry c (script s) =
      ok (record c { files = put c.files (path_of (script s)) (encode (script_body s.body)) })

  abbrev pub write_then :
      (Context → Result BuildError Context) → Result BuildError Context → Result BuildError Context
  write_then k (err e) = err e
  write_then k (ok c) = k c

  -- `for path, kind, source in cf.context_plan(...)`
  unfoldable pub write_plan : List Planned → Context → Result BuildError Context
  unfolding path_of script_body
  write_plan [] c = ok c
  write_plan (e ∷ es) c = write_then (write_plan es) (write_entry c e)

  -- `prepare_context(build)`, from the build's Containerfile and specification
  unfoldable pub prepare_context : Str → Spec → Result BuildError Context
  unfolding write_plan text
  prepare_context containerfile spec =
      write_plan (context_plan spec)
        (record { files = put empty (text "Containerfile") (encode containerfile); total = 0 })
