-- ===== src/Split/Assemble.antt =====
-- What a receiver gets: the parts of a split download, one after the other.
use layersmith.Prelude.{
  ℕ, ◌+◌, ◌≤◌, ◌<◌, ◌≡◌, refl, sym, ap, ◌∙◌, false, List, [], ◌∷◌, ◌++◌, arith, map, concat, All,
  length, take, drop, drop_all, take-append-drop, drop-drop,
}
use layersmith.Prelude.Result.{ok}
use layersmith.Split.Plan.{Range, plan}
use layersmith.Split.Plan.Tiling.{Tiles, plan-Tiles}
use layersmith.Split.Stream.{Bytes, read_range}
use layersmith.Split.Stream.Bytes.{read_range_lem}

-- Ranges that lie end to end give the bytes from their start to their end.
pub concat-slices :
    (bytes : Bytes) (start : ℕ) (rs : List Range)
    → Tiles start (length bytes) rs
    → concat (map (λ (r : Range). take r.size (drop r.offset bytes)) rs) ≡ drop start bytes
concat-slices bytes start [] t = sym (drop_end start bytes t)
  where
    drop_end : (n : ℕ) (b : Bytes) → n ≡ length b → drop n b ≡ []
    drop_end n b e = drop_all n b (omega arith)
concat-slices bytes start (r ∷ rs) (at, t) =
    rw (concat-slices bytes (start + r.size) rs t, at)
      (ap (λ l. take r.size (drop start bytes) ++ l) (sym (drop-drop r.size start bytes))
        ∙ take-append-drop r.size (drop start bytes))

read_slice :
    (file : Bytes) (start end : ℕ) (rs : List Range)
    → Tiles start end rs
    → end ≤ length file
    → (map (λ (r : Range). concat (read_range file r.offset r.size).chunks) rs
        ≡ map (λ (r : Range). take r.size (drop r.offset file)) rs)
      × All (λ (r : Range). (read_range file r.offset r.size).raised ≡ false) rs
      × (start ≤ end)
read_slice file start end [] t h = (refl, tt, omega arith)
read_slice file start end (r ∷ rs) (at, t) h =
    let (bytes, raised, chunks) = read_range_lem file r.offset r.size in
    let (same, fine, below) = read_slice file (start + r.size) end rs t h in
    (rw (bytes, same) refl, (raised ∙ ground arith, fine), omega arith)

-- Whatever the archive and the part size, streaming every range of the plan raises nothing, and the
-- streams one after the other are the archive.
pub reassemble :
    (file : Bytes) (size : ℕ)
    → 0 < size
    → (rs : List Range) × (plan (length file) size ≡ ok rs)
      × (concat (map (λ (r : Range). concat (read_range file r.offset r.size).chunks) rs) ≡ file)
      × All (λ (r : Range). (read_range file r.offset r.size).raised ≡ false) rs
reassemble file size p =
    let (rs, planned, tiles, full, parts) = plan-Tiles (length file) size p in
    let (same, fine, below) = read_slice file 0 (length file) rs tiles (omega arith) in
    (rs, planned, ap concat same ∙ concat-slices file 0 rs tiles, fine)
