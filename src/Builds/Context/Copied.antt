-- ===== src/Builds/Context/Copied.antt =====
-- What a prepared build context holds.
use layersmith.Prelude.{ℕ, ◌≤◌, ◌≡◌, some, List, [], ◌∷◌, nat_eq, list_eq, All}
use layersmith.Prelude.Result.{Result}
use layersmith.Prelude.Text.{Str, text}
use layersmith.Prelude.Map.{Map}
use layersmith.Split.Stream.{Bytes}
use layersmith.Builds.Context.{Planned, tool, file, script, path_of, Upload, plain, Context}

-- The first character
first : Str → ℕ
first [] = 0
first (c ∷ s) = c

module _ (sha256 : Bytes → Str) (encode : Str → Bytes) (uploads : Map Str Upload)
    (max_context_bytes : ℕ) where
  -- The context has the uploaded bytes at a path, and they have the checksum.
  abbrev pub HasBlob : Context → Str → Str → Type 0
  HasBlob c path source =
      (bytes : Bytes) × (uploads source ≡ some (plain bytes))
      × (sha256 bytes ≡ source)
      × (c.files path ≡ some bytes)

  abbrev IsCopied : Context → Planned → Type 0
  IsCopied c (tool source) = HasBlob c (path_of (tool source)) source
  IsCopied c (file source) = HasBlob c (path_of (file source)) source
  IsCopied c (script s) = Unit

  -- The bytes that an entry stands for
  abbrev FromUploads : Planned → Bytes → Type 0
  FromUploads (tool source) bytes = (uploads source ≡ some (plain bytes)) × (sha256 bytes ≡ source)
  FromUploads (file source) bytes = (uploads source ≡ some (plain bytes)) × (sha256 bytes ≡ source)
  FromUploads (script s) bytes = Unit

  -- What holds after the rest of a plan was written
  abbrev AllCopied : List Planned → Context → Context → Type 0
  AllCopied es c d =
      All (IsCopied d) es
      × ((k : Planned) → IsCopied c k → IsCopied d k)
      × (c.total ≤ max_context_bytes → d.total ≤ max_context_bytes)
      × (d.files (text "Containerfile") ≡ c.files (text "Containerfile"))
