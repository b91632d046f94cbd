-- ===== src/Vtar/Reading.antt =====
-- A byte range of the archive, read segment by segment, is that range of the whole.
use layersmith.Prelude.{
  ℕ, ◌+◌, ◌-◌, ◌≤◌, ◌<◌, min, max, ◌≡◌, refl, sym, ◌∙◌, true, false, Option, none, some, List, [],
  ◌∷◌, ◌++◌, ◌||◌, inl, inr, arith, Bool-cases, leb, leb→le, ◌==◌, nat_eq, concat, length, take,
  drop, append-nil, length-drop, length-append, take-nil, drop-nil, concat-append, take-append,
  take-min, take_all, drop-append_left, drop-append_right,
}
use layersmith.Prelude.Text.{Str}
use layersmith.Prelude.Map.{Map}
use layersmith.Split.Stream.{Bytes, read_chunk}
use layersmith.Split.Stream.Bytes.{read_loop_lem}
use layersmith.Vtar.{
  Content, stored, file, Segment, Layout, end_of, size_of, read_segment, read_segments, read,
}

module _ (disk : Map Str Bytes) where
  -- The bytes of a segment, where the disk has them as recorded
  abbrev pub Holds : Content → Bytes → Type 0
  Holds (stored bytes) b = bytes ≡ b
  Holds (file path) b = disk path ≡ some b

  -- The segments lie end to end from a position on, and `whole` is what they hold.
  pub data IsArchive : ℕ → List Segment → Bytes → Type 0 where
    nothing : {position : ℕ} → IsArchive position [] []
    segment :
        {position : ℕ} {ss : List Segment} {whole : Bytes} (s : Segment) (b : Bytes)
        → s.offset ≡ position
        → s.size ≡ length b
        → Holds s.content b
        → IsArchive (position + length b) ss whole
        → IsArchive position (s ∷ ss) (b ++ whole)

  -- A part of one segment
  segment_lem :
      (c : Content) (b : Bytes) (start stop : ℕ)
      → Holds c b
      → stop ≤ length b
      → (concat (read_segment disk c start stop).chunks ≡ take (stop - start) (drop start b))
        × ((read_segment disk c start stop).raised ≡ false)
  segment_lem (stored bytes) b start stop h k = rw h (append-nil _, refl)
  segment_lem (file path) b start stop h k =
      let r =
        read_loop_lem read_chunk (stop - start) (stop - start) (drop start b) (omega arith)
          (omega arith) in
      rw h (r.0, r.1 ∙ ground (arith, length-drop start b))

-- The part of `b` that lies in a range, and then the part of what follows
cut_lem :
    (off end p : ℕ) (b w : Bytes)
    → p < end
    → off < p + length b
    → take (min end (p + length b) - p - (max off p - p)) (drop (max off p - p) b)
        ++ take (end - max off (p + length b)) (drop (off - (p + length b)) w)
      ≡ take (end - max off p) (drop (off - p) (b ++ w))
cut_lem off end p b w h k =
    let start : ℕ = max off p - p in
    let d = drop start b in
    let n : ℕ = end - max off p in
    let l : length d ≡ length b - start = length-drop start b in
    let same : off - p ≡ start = omega arith in
    let first : min end (p + length b) - p - start ≡ min n (length d) = omega arith in
    let second : end - max off (p + length b) ≡ n - length d = omega arith in
    let third : off - (p + length b) ≡ 0 = omega arith in
    rw
      (
        same,
        drop-append_left start b w (omega arith),
        take-append n d w,
        first,
        take-min,
        second,
        third,
      )
      refl

-- A segment that ends before the range
skip_lem :
    (off end p : ℕ) (b w : Bytes)
    → p + length b ≤ off
    → take (end - max off (p + length b)) (drop (off - (p + length b)) w)
      ≡ take (end - max off p) (drop (off - p) (b ++ w))
skip_lem off end p b w h =
    let same : max off (p + length b) ≡ max off p = omega arith in
    let rest : off - p - length b ≡ off - (p + length b) = omega arith in
    rw (same, drop-append_right (off - p) b w (omega arith), rest) refl

take-drop-nil : (n m : ℕ) → take {A = ℕ} n (drop m []) ≡ []
take-drop-nil n m = rw (drop-nil m) (take-nil n)

-- A segment with no bytes
empty_lem :
    (off end p : ℕ) (b w : Bytes)
    → length b ≡ 0
    → take (end - max off (p + length b)) (drop (off - (p + length b)) w)
      ≡ take (end - max off p) (drop (off - p) (b ++ w))
empty_lem off end p [] w h = let e : p + 0 ≡ p = omega arith in rw e refl
empty_lem off end p (c ∷ b) w h = absurd (omega arith)

-- No bytes lie past the end.
past_lem : (off end p : ℕ) (w : Bytes) → end ≤ p → [] ≡ take (end - max off p) w
past_lem off end p w h = let e : end - max off p ≡ 0 = omega arith in rw e refl

module _ (off end p : ℕ) (s : Segment) (b w : Bytes) (at : s.offset ≡ p)
    (size : s.size ≡ length b) where
  skipped :
      (leb (end_of s) off || s.size == 0) ≡ true
      → take (end - max off (p + length b)) (drop (off - (p + length b)) w)
        ≡ take (end - max off p) (drop (off - p) (b ++ w))
  skipped h = elim (Bool-cases (leb (end_of s) off)) [
    | inl before ↦ skip_lem off end p b w (omega (arith, leb→le (end_of s) off before))
    | inr after ↦ empty_lem off end p b w (ground arith)
  ]

  joined :
      p < end
      → off < p + length b
      → take
            (min end (end_of s) - s.offset - (max off s.offset - s.offset))
            (drop (max off s.offset - s.offset) b)
          ++ take (end - max off (p + length b)) (drop (off - (p + length b)) w)
        ≡ take (end - max off p) (drop (off - p) (b ++ w))
  joined h k = rw (at, size) (cut_lem off end p b w h k)

module _ (disk : Map Str Bytes) where
  read_segments_lem :
      (off end : ℕ) {p : ℕ} {ss : List Segment} {whole : Bytes}
      → IsArchive disk p ss whole
      → (concat (read_segments disk off end ss).chunks
          ≡ take (end - max off p) (drop (off - p) whole))
        × ((read_segments disk off end ss).raised ≡ false)
  unfolding read_segments
  read_segments_lem off end (nothing {position = p}) =
      (sym (take-drop-nil (end - max off p) (off - p)), refl)
  read_segments_lem off end
        (segment {position = p} {ss = ss} {whole = whole} s b at size held more) =
      let ih = read_segments_lem off end more in
      elim (Bool-cases (leb (end_of s) off || s.size == 0)) [
        | inl skip ↦ rw skip (ih.0 ∙ skipped off end p s b whole at size skip, ih.1)
        | inr inside ↦ elim (Bool-cases (leb end s.offset)) [
          | inl past ↦
              rw (inside, past)
                (
                  past_lem off end p (drop (off - p) (b ++ whole))
                      (omega (arith, leb→le end s.offset past)),
                  refl,
                )
          | inr within ↦
              let start : ℕ = max off s.offset - s.offset in
              let stop : ℕ = min end (end_of s) - s.offset in
              let (bytes, fine) = segment_lem disk s.content b start stop held (omega arith) in
              rw (inside, within, fine)
                (
                  concat-append (read_segment disk s.content start stop).chunks
                        (read_segments disk off end ss).chunks
                      ∙ rw (bytes, ih.0)
                          (joined off end p s b whole at size (ground arith) (ground arith)),
                  ih.1,
                )
        ]
      ]

pub size_of-IsArchive :
    (disk : Map Str Bytes) {p : ℕ} {ss : List Segment} {whole : Bytes} (s : Segment)
    → end_of s ≡ p
    → IsArchive disk p ss whole
    → size_of (s ∷ ss) ≡ p + length whole
size_of-IsArchive disk s e nothing = omega arith
size_of-IsArchive disk s e (segment {whole = whole} t b at size held more) =
    omega (arith, length-append b whole, size_of-IsArchive disk t (omega arith) more)

-- Reading `count` bytes from `offset` on gives exactly those bytes of the archive, as many as
-- there are, and raises nothing; reading with no count gives all from `offset` on.
pub read-IsArchive :
    (disk : Map Str Bytes) (lay : Layout) (whole : Bytes) (offset : ℕ) (count : Option ℕ)
    → IsArchive disk 0 lay.segments whole
    → lay.size ≡ length whole
    → (concat (read disk lay offset count).chunks
        ≡ elim count [ none ↦ drop offset whole | some n ↦ take n (drop offset whole) ])
      × ((read disk lay offset count).raised ≡ false)
unfolding read
read-IsArchive disk lay whole offset none a size =
    let (bytes, fine) = read_segments_lem disk offset lay.size a in
    let e : offset - 0 ≡ offset = omega arith in
    (bytes ∙ rw e (take_all _ (drop offset whole) (omega (arith, length-drop offset whole))), fine)
read-IsArchive disk lay whole offset (some n) a size =
    let (bytes, fine) = read_segments_lem disk offset (min lay.size (offset + n)) a in
    let e : offset - 0 ≡ offset = omega arith in
    let k : min lay.size (offset + n) - max offset 0 ≡ min n (length (drop offset whole)) =
      omega (arith, length-drop offset whole) in
    (bytes ∙ rw (e, k) (take-min n (drop offset whole)), fine)
