-- ===== src/Split/Hash/Whole.antt =====
-- `hash_parts` on a stream that is as long as announced, shorter, and longer.
use layersmith.Prelude.{
  ℕ, zero, suc, ◌+◌, ◌<◌, ◌≡◌, refl, sym, ap, ◌∙◌, inl, inr, none, some, List, [], ◌∷◌, ◌++◌, arith,
  All, Option-cases, length, take, drop, append-nil, concat, take_all, drop-drop, ◌==◌, nat_eq,
  ==_iff, true, false,
}
use layersmith.Prelude.Result.{ok, err}
use layersmith.Prelude.Text.{Str}
use layersmith.Split.Plan.{Range, plan}
use layersmith.Split.Plan.Tiling.{Tiles, IsPart, plan-Tiles}
use layersmith.Split.Stream.{Bytes}
use layersmith.Split.Hash.{
  Part, Pass, part_of, feed_all, start_pass, hash_parts, hash_ranges, wrong_length,
}
use layersmith.Split.Hash.Feed.{
  IsReady, cut, outcome, room, sum_sizes, running, feed_all-Took, feed_all_ends,
}

sum-Tiles : (start end : ℕ) (rs : List Range) → Tiles start end rs → start + sum_sizes rs ≡ end
sum-Tiles start end [] t = omega arith
sum-Tiles start end (r ∷ rs) (o, t) = omega (arith, sum-Tiles (start + r.size) end rs t)

start-IsReady :
    (r : Range) (rs : List Range) (size : ℕ)
    → All (IsPart size) (r ∷ rs)
    → IsReady (start_pass r rs)
start-IsReady r rs size h = record {
  counted = refl;
  fits = omega arith;
  positive = positives rs h.1;
  inside = inr h.0.0;
}
  where
    positives : (l : List Range) → All (IsPart size) l → All (λ r. 0 < r.size) l
    positives [] h = tt
    positives (r ∷ rs) h = (h.0.0, positives rs h.1)

-- Of an empty archive the one range is empty.
empty-IsReady : IsReady (start_pass (record { offset = 0; size = 0 }) [])
empty-IsReady = record { counted = refl; fits = omega arith; positive = tt; inside = inl refl }

-- What the pass begins with, whatever the size.
plan-start :
    (total size : ℕ)
    → 0 < size
    → (r : Range) × (rs : List Range) × (plan total size ≡ ok (r ∷ rs))
      × Tiles 0 total (r ∷ rs)
      × IsReady (start_pass r rs)
plan-start zero size p =
    (record { offset = 0; size = 0 }, [], unfold plan in refl, omega arith, empty-IsReady)
plan-start (suc n) size p =
    go (plan-Tiles (suc n) size p).0 (plan-Tiles (suc n) size p).1 (plan-Tiles (suc n) size p).2
      ((plan-Tiles (suc n) size p).4 (omega arith))
  where
    go :
        (l : List Range)
        → plan (suc n) size ≡ ok l
        → Tiles 0 (suc n) l
        → All (IsPart size) l
        → (r : Range) × (rs : List Range) × (plan (suc n) size ≡ ok (r ∷ rs))
          × Tiles 0 (suc n) (r ∷ rs)
          × IsReady (start_pass r rs)
    go [] e t h = absurd (omega arith)
    go (r ∷ rs) e t h = (r, rs, e, t, start-IsReady r rs size h)

module _ (sha256 : Bytes → Str) (archive : Str) where
  module _ (count : ℕ) (bytes : Bytes) where
    -- The entries for a list of ranges: each has the checksum of its own slice of the bytes.
    abbrev pub describe : ℕ → List Range → List Part
    describe i [] = []
    describe i (r ∷ rs) =
        part_of sha256 archive count i r r.size (take r.size (drop r.offset bytes))
        ∷ describe (i + 1) rs

    cut-describe :
        (i start end : ℕ) (rs : List Range)
        → Tiles start end rs
        → cut sha256 archive count rs i (drop start bytes) ≡ describe i rs
    cut-describe i start end [] t = refl
    cut-describe i start end (r ∷ rs) (o, t) = rw (← o) (
        ap (λ l. part_of sha256 archive count i r r.size (take r.size (drop r.offset bytes)) ∷ l)
          (ap (λ b. cut sha256 archive count rs (i + 1) b) (drop-drop r.size r.offset bytes)
            ∙ rw o (cut-describe (i + 1) (start + r.size) end rs t)))

  -- A pass with no room left is inside its last range, and that is full.
  last_part :
      (count : ℕ) (s : Pass)
      → IsReady s
      → room s ≡ 0
      → s.parts ++ (part_of sha256 archive count s.index s.current s.filled s.digest ∷ [])
        ≡ outcome sha256 archive count s []
  last_part count s r e = elim r.inside [
    | inl last ↦
        let full : s.filled ≡ s.current.size = omega (arith, r.fits) in
        let n : s.current.size ≡ length s.digest = sym full ∙ r.counted in
        rw (last, append-nil, full) (rw (take_all s.current.size s.digest (omega arith)))
    | inr more ↦ absurd (omega arith)
  ]

  hash_ranges-whole :
      (chunks : List Bytes) (r : Range) (rs : List Range)
      → let bytes = concat chunks in
        Tiles 0 (length bytes) (r ∷ rs)
        → IsReady (start_pass r rs)
        → hash_ranges sha256 archive (λ c. length c) chunks (length bytes) (r ∷ rs)
          ≡ some (
              ok (record {
                parts = describe (length (r ∷ rs)) bytes 0 (r ∷ rs);
                checksum = sha256 bytes;
                reports = running 0 chunks;
              }))
  hash_ranges-whole chunks r rs tiles ready =
      let bytes = concat chunks in
      let count = length (r ∷ rs) in
      let s = start_pass r rs in
      let space : room s ≡ length bytes =
        omega (arith, sum-Tiles 0 (length bytes) (r ∷ rs) tiles) in
      let (f, fed) = feed_all_ends sha256 archive count chunks 0 s (omega arith) ready in
      let (took, done, reports) =
        feed_all-Took sha256 archive count (λ c. length c) chunks 0 s f fed ready in
      let all : (f.done == length bytes) ≡ true = (==_iff f.done (length bytes)).1 (omega arith) in
      let seen : f.pass.whole ≡ bytes = took.all_seen in
      let parts =
        last_part count f.pass took.ready (omega (arith, took.less_room))
        ∙ took.same_outcome []
        ∙ ap (λ b. cut sha256 archive count (r ∷ rs) 0 b) (append-nil bytes)
        ∙ cut-describe count bytes 0 0 (length bytes) (r ∷ rs) tiles in
      rw (fed, all, reports, seen, parts) refl

  -- On a stream of exactly `total` bytes, however it is cut into chunks, `hash_parts` ends, and gives
  -- the parts of `plan` in order, each with the checksum of its slice of the stream, together with
  -- the checksum of the whole stream and the running counts for `progress`.
  pub hash_parts-whole :
      (chunks : List Bytes) (size : ℕ)
      → 0 < size
      → let bytes = concat chunks in
        let total = length bytes in
        (rs : List Range) × (plan total size ≡ ok rs)
        × (hash_parts sha256 archive (λ c. length c) chunks total size
            ≡ some (
                ok (record {
                  parts = describe (length rs) bytes 0 rs;
                  checksum = sha256 bytes;
                  reports = running 0 chunks;
                })))
  unfolding hash_parts
  hash_parts-whole chunks size p =
      let bytes = concat chunks in
      let (r, rs, planned, tiles, ready) = plan-start (length bytes) size p in
      (r ∷ rs, planned, rw (planned, hash_parts) (hash_ranges-whole chunks r rs tiles ready))

  -- A shorter stream is refused with the two lengths, however it is cut into chunks.
  hash_parts-shorter :
      (chunks : List Bytes) (total size : ℕ)
      → 0 < size
      → length (concat chunks) < total
      → hash_parts sha256 archive (λ c. length c) chunks total size
        ≡ some (err (wrong_length (length (concat chunks)) total))
  unfolding hash_parts
  hash_parts-shorter chunks total size p h =
      let (r, rs, planned, tiles, ready) = plan-start total size p in
      let count = length (r ∷ rs) in
      let s = start_pass r rs in
      let space : room s ≡ total = omega (arith, sum-Tiles 0 total (r ∷ rs) tiles) in
      let (f, fed) = feed_all_ends sha256 archive count chunks 0 s (omega arith) ready in
      let (took, done, reports) =
        feed_all-Took sha256 archive count (λ c. length c) chunks 0 s f fed ready in
      let short : (f.done == total) ≡ false = ground arith in
      let seen : f.done ≡ length (concat chunks) = omega arith in
      rw (planned, hash_parts) (rw (fed, short, seen) refl)

  -- On a longer stream the loop over the last part takes pieces of no bytes: no number of rounds
  -- is enough, so the function does not return, and its error for a wrong length is not raised.
  hash_parts-longer :
      (fuel : Bytes → ℕ) (chunks : List Bytes) (total size : ℕ)
      → 0 < size
      → total < length (concat chunks)
      → hash_parts sha256 archive fuel chunks total size ≡ none
  unfolding hash_parts
  hash_parts-longer fuel chunks total size p h =
      let (r, rs, planned, tiles, ready) = plan-start total size p in
      let count = length (r ∷ rs) in
      let s = start_pass r rs in
      let space : room s ≡ total = omega (arith, sum-Tiles 0 total (r ∷ rs) tiles) in
      elim (Option-cases (feed_all sha256 archive count fuel chunks 0 s)) [
        | inl stuck ↦ rw (planned, hash_parts) (rw stuck refl)
        | inr ended ↦
            let (took, done, reports) =
              feed_all-Took sha256 archive count fuel chunks 0 s ended.0 ended.1 ready in
            absurd (omega (arith, took.less_room))
      ]
