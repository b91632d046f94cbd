-- ===== src/Storage/Tests.antt =====
-- Moving the image directory.
use layersmith.Prelude.{◌≤◌, ◌≡◌, refl, true, [], ◌∷◌, length, nat_eq, list_eq, list_beq}
use layersmith.Prelude.Result.{err}
use layersmith.Prelude.Text.{Str, text}
use layersmith.Prelude.Map.{empty, put}
use layersmith.Storage.{Host, Stored, validate, save, system_directory}
use layersmith.Storage.Remembered.{IsKept, save_lem}

abbrev host : Host
host = record {
  normalise = λ value. value;
  parts = λ path. path ∷ [];
  can_create = λ path. true;
  can_write = λ path. true;
}

library_refused :
    validate host (text "image_dir") (text "/library") ≡ err (system_directory (text "/library"))
unfolding validate list_beq
library_refused = refl

abbrev before : Stored
before = record { paths = empty; previous = [] }

abbrev after : Stored
after = record { paths = put empty (text "image_dir") (text "/new"); previous = text "/old" ∷ [] }

save_lem_example :
    ((field : Str)
      → IsKept host [] ((text "image_dir", text "/new") ∷ []) before.paths after.paths field)
    × (length after.previous ≤ 10)
unfolding save list_beq
save_lem_example =
    save_lem host [] (text "/old") ((text "image_dir", text "/new") ∷ []) before after refl
