-- ===== src/Backends/Tests.antt =====
-- An export by podman, and a base image at a registry with a port.
use layersmith.Prelude.{nat_eq, list_eq, ◌≡◌, ◌↔◌, refl, Option, none, List, [], list_beq}
use layersmith.Prelude.Result.{ok}
use layersmith.Prelude.Text.{Str, text}
use layersmith.Prelude.Map.{empty, put}
use layersmith.Backends.{Runtime, podman, Disk, Ended, exited, Inspected, by_digest, export}
use layersmith.Backends.Exported.{IsExported, export-IsExported}

abbrev runtime : Runtime
runtime = record { kind = podman; binary = text "podman"; timeout = 10800 }

-- Every command writes seven bytes to /x.tar.
abbrev process : List Str → Disk → Disk × Ended
process argv disk = (put disk (text "/x.tar") 7, exited 0 [] [])

abbrev no_json : Str → Option (List Inspected)
no_json s = none

abbrev exported : Disk
exported = put empty (text "/x.tar") 7

export-IsExported_example :
    (export process no_json runtime (text "app:1.0.0") (text "/x.tar") none empty
      ≡ (exported, ok 7))
    ↔ IsExported process no_json runtime
        (text "app:1.0.0")
        (text "/x.tar")
        (text "oci-archive")
        empty
        exported
        7
unfolding export list_beq text
export-IsExported_example =
    export-IsExported process no_json runtime (text "app:1.0.0") (text "/x.tar") none empty exported
      7

-- It does return that size.
returned :
    export process no_json runtime (text "app:1.0.0") (text "/x.tar") none empty ≡ (exported, ok 7)
unfolding export list_beq text
returned = refl

port_kept :
    by_digest (text "registry.local:5000/base:1@sha256:ab")
    ≡ text "registry.local:5000/base@sha256:ab"
unfolding by_digest list_beq text
port_kept = refl
