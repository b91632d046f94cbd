-- ===== src/Vtar/Tests.antt =====
-- The layout of a folder of one file, and the theorems about it.
use layersmith.Prelude.{
  ◌≡◌, refl, false, some, List, [], ◌∷◌, ◌++◌, All, concat, length, take, drop, replicate, ==_iff,
  list_eq, nat_eq,
}
use layersmith.Prelude.Map.{Map, empty, put}
use layersmith.Prelude.Text.{Str, text}
use layersmith.Split.Stream.{Bytes}
use layersmith.Vtar.{Info, Entry, layout, read}
use layersmith.Vtar.Blocks.{InFolder, tar, layout-read}

abbrev plain_header : Info → Bytes
plain_header i = replicate 512 1

abbrev files : List Entry
files = record { name = text "w"; size = 3 } ∷ []

abbrev held : Entry → Bytes
held e = 7 ∷ 8 ∷ 9 ∷ []

abbrev disk : Map Str Bytes
disk = put empty (text "m" ++ (47 ∷ text "w")) (7 ∷ 8 ∷ 9 ∷ [])

in_folder : All (InFolder plain_header (text "m") (text "top") 0 held disk) files
in_folder = (
  (rw ((==_iff (text "m" ++ (47 ∷ text "w")) (text "m" ++ (47 ∷ text "w"))).1 refl) refl, refl),
  tt,
)

layout-read_example :
    let lay = layout plain_header (text "m") (text "top") 0 files in
    let all = tar plain_header (text "m") (text "top") 0 held files in
    (lay.size ≡ length all)
    × (concat (read disk lay 510 (some 520)).chunks ≡ take 520 (drop 510 all))
    × ((read disk lay 510 (some 520)).raised ≡ false)
layout-read_example =
    layout-read plain_header (text "m") (text "top") 0 held disk files 510 520 in_folder
