-- ===== src/Models/Service/Run/Made.antt =====
-- A run that nothing disturbs makes the model ready.
use layersmith.Prelude.{ℕ, ◌≡◌, some, List, nat_eq, list_eq}
use layersmith.Prelude.Result.{Result, ok, err}
use layersmith.Prelude.Text.{Str, text}
use layersmith.Split.Stream.{Bytes}
use layersmith.Vtar.{Info}
use layersmith.Models.Download.{Stop}
use layersmith.Models.Service.{LlmModel, Models, get}

module _ (sha256 sha1 : Bytes → Str) (header : Info → Bytes) (configured : ℕ)
    (resolve : Str → List Str) (model_dir : Str) (content : Str → Bytes) where
  -- The row is there, and ready.
  abbrev pub IsReady : Str → Models → Type 0
  IsReady id s = (a : LlmModel) × (get id s.rows ≡ some a) × (a.status ≡ text "ready")

  abbrev Succeeds : Str → Result Stop (Unit {0}) × Models → Type 0
  Succeeds id (ok done, s) = IsReady id s
  Succeeds id (err stop, s) = ⊥
