-- ===== src/Core/Tests.antt =====
-- References, versions and specifications at concrete texts.
use layersmith.Prelude.{ℕ, ◌-◌, leb, ◌&&◌, if◌then◌else◌, ◌≡◌, refl, Option, none, some, list_beq}
use layersmith.Prelude.Result.{ok, err, ◌>>=◌}
use layersmith.Prelude.Text.{Str, text}
use layersmith.Prelude.Strings.{is_space}
use layersmith.Core.Patterns.{stripped, invalid}
use layersmith.Core.Version.{next_patch, image_ref}
use layersmith.Core.Reference.{Reference, parse_reference}
use layersmith.Core.Reference.Source.{parse_reference-source}

abbrev given : Option Str
given = some (text " quay.io/org/name:1 ")

abbrev parsed : Reference
parsed = record {
  registry = some (text "quay.io");
  repository = text "org/name";
  tag = some (text "1");
  digest = none;
  source = text "quay.io/org/name:1";
}

parse_reference-source_example :
    (parsed.source ≡ stripped given) × (parse_reference (some parsed.source) ≡ ok parsed)
unfolding list_beq text parse_reference is_space
parse_reference-source_example = parse_reference-source given parsed refl

-- ASCII's digits alone
abbrev ascii : ℕ → Option ℕ
ascii c = if leb 48 c && leb c 57 then some (c - 48) else none

-- The patch after 999999 has one digit more than `image_ref` lets through.
last_patch :
    (next_patch ascii (some (text "1.0.999999")) >>= λ v.
    image_ref ascii (some (text "app")) (some v))
    ≡ err (invalid (text "version") (text "1.0.1000000"))
unfolding list_beq text next_patch image_ref is_space
last_patch = refl
