-- ===== src/Split/Script/Tests.antt =====
-- Runs of the assemble script on an archive of three bytes in two parts. The checksum of some bytes
-- is, in these tests, the bytes themselves.
use layersmith.Prelude.{
  ◌≡◌, refl, true, false, none, some, List, [], ◌∷◌, arith, list_beq, nat_eq, list_eq,
}
use layersmith.Prelude.Map.{empty, put}
use layersmith.Prelude.Text.{Str, text}
use layersmith.Split.Plan.{Range, plan, part_name}
use layersmith.Split.Stream.{Bytes}
use layersmith.Split.Hash.Whole.{describe}
use layersmith.Split.Manifest.{Manifest}
use layersmith.Split.Script.{Directory, Host, Options, exit, after_restore, assemble}
use layersmith.Split.Script.Safety.{Settled, assemble-Settled}
use layersmith.Split.Script.Delivery.{assemble-delivered}

abbrev own : Bytes → Str
own bytes = bytes

abbrev image : Bytes
image = 1 ∷ 2 ∷ 3 ∷ []

abbrev ranges : List Range
ranges = record { offset = 0; size = 2 } ∷ record { offset = 2; size = 1 } ∷ []

abbrev manifest : Manifest
manifest = record {
  archive = text "x.tar";
  archive_size = 3;
  archive_mtime_ns = 5;
  archive_sha256 = image;
  part_size = 2;
  parts = describe own (text "x.tar") 2 image 0 ranges;
  created_at = text "now";
  image_ref = none;
  host_install = none;
}

abbrev host : Host
host = record { free = some 1; writes = true; renames = true }

abbrev options : Options
options = record { force = false; remove_parts = true; load = true; runtime = none }

abbrev sent : Directory
sent =
    put (put empty (part_name (text "x.tar") 0 2) (1 ∷ 2 ∷ [])) (part_name (text "x.tar") 1 2)
      (3 ∷ [])

assemble-Settled_example : Settled own manifest sent (assemble own manifest host options sent)
unfolding list_beq part_name
assemble-Settled_example =
    assemble-Settled own manifest host options sent ((λ e. cc), ((λ e. cc), tt))

assemble-delivered_example :
    assemble own manifest host options sent
    ≡ after_restore own manifest options (exit 0 (put sent (text "x.tar") image))
unfolding list_beq part_name plan
assemble-delivered_example =
    assemble-delivered own manifest host options sent image 2 ranges (omega arith) refl refl refl
      refl (refl, (refl, tt)) refl refl refl refl
