-- ===== src/Core/Reference.antt =====
-- `parse_reference` of core/spec.py.
pub mod Solid
pub mod Source
use layersmith.Prelude.{
  ℕ, ltb, Bool, true, false, Option, none, some, List, [], ◌∷◌, ◌++◌, ◌&&◌, ◌||◌, not, ◌==◌, nat_eq,
  list_eq, if◌then◌else◌, length, contains,
}
use layersmith.Prelude.Result.{Result, ok, err, ◌>>=◌}
use layersmith.Prelude.Text.{Str, text}
use layersmith.Prelude.Strings.{split, join, cut_first, cut_last}
use layersmith.Core.Patterns.{
  InvalidSpec, refused, check, reference_re, digest_re, tag_re, registry_re, component,
}

pub record Reference : Type 0 where
  pub registry : Option Str
  pub repository : Str
  pub tag : Option Str
  pub digest : Option Str
  pub source : Str

-- A text and what was cut off behind it
abbrev pub Cut : Type 0
Cut = Str × Option Str

-- `if "@" in value:`, from `value.split("@", 1)`
abbrev pub digest_of : Str → Option (Str × Str) → Result InvalidSpec Cut
digest_of value none = ok (value, none)
digest_of value (some (name, digest)) =
    check digest_re (some digest) (text "image digest") >>= λ d. ok (name, some digest)

-- `if head and "/" not in maybe_tag:`, from `value.rpartition(":")`
abbrev pub tag_of : Str → Option (Str × Str) → Result InvalidSpec Cut
tag_of value none = ok (value, none)
tag_of value (some (head, maybe_tag)) =
    if not (head == []) && not (contains maybe_tag 47)
    then (check tag_re (some maybe_tag) (text "image tag") >>= λ t. ok (head, some t))
    else ok (value, none)

-- The test that the first of several parts names a registry
abbrev pub is_registry : Str → Bool
is_registry part = contains part 46 || contains part 58 || part == text "localhost"

abbrev pub registry_of : List Str → Result InvalidSpec (Option Str × List Str)
registry_of [] = ok (none, [])
registry_of (part ∷ []) = ok (none, part ∷ [])
registry_of (part ∷ next ∷ parts) =
    if is_registry part
    then (check registry_re (some part) (text "registry host") >>= λ r. ok (some r, next ∷ parts))
    else ok (none, part ∷ next ∷ parts)

unfoldable pub check_parts : List Str → Result InvalidSpec (List Str)
unfolding text
check_parts [] = ok []
check_parts (p ∷ ps) =
    check component (some p) (text "repository path") >>= λ q. check_parts ps >>= λ qs. ok (q ∷ qs)

-- `"/".join(filter(None, [registry, repository]))`, for a repository that is not empty
abbrev pub host_and : Option Str → Str → Str
host_and none repository = repository
host_and (some registry) repository = registry ++ (47 ∷ repository)

-- `if tag:` and `if digest:` for texts that were checked, which are not empty
abbrev pub with_mark : ℕ → Str → Option Str → Str
with_mark mark s none = s
with_mark mark s (some t) = s ++ (mark ∷ t)

abbrev pub build_reference :
    Str → Option Str → Option Str → Option Str → Str → Result InvalidSpec Reference
build_reference original digest tag registry repository =
    if repository == []
    then err (refused (text "Invalid image reference"))
    else ok (record {
      registry = registry;
      repository = repository;
      tag = tag;
      digest = digest;
      source = with_mark 64 (with_mark 58 (host_and registry repository) tag) digest;
    })

abbrev pub parse_parts :
    Str → Option Str → Option Str → Option Str × List Str → Result InvalidSpec Reference
parse_parts original digest tag (registry, parts) =
    check_parts parts >>= λ qs. build_reference original digest tag registry (join (47 ∷ []) qs)

abbrev pub parse_name : Str → Option Str → Cut → Result InvalidSpec Reference
parse_name original digest (name, tag) =
    registry_of (split 47 name) >>= parse_parts original digest tag

abbrev pub parse_tag : Str → Cut → Result InvalidSpec Reference
parse_tag original (value, digest) = tag_of value (cut_last 58 value) >>= parse_name original digest

abbrev pub parse_value : Str → Result InvalidSpec Reference
parse_value value = digest_of value (cut_first 64 value) >>= parse_tag value

-- `parse_reference(reference)`
unfoldable pub parse_reference : Option Str → Result InvalidSpec Reference
unfolding check reference_re digest_re tag_re registry_re check_parts component split join cut_first
    cut_last text
parse_reference reference = check reference_re reference (text "image reference") >>= parse_value
