-- ===== src/Split/Hash.antt =====
-- `hash_parts` in services/splitting.py: one pass over a stream of chunks that computes the
-- checksum of every part and of the whole. A `hashlib.sha256()` object is the bytes that it has
-- been given, and `hexdigest` is the parameter `sha256` of those bytes.
pub mod Feed
pub mod Whole
use layersmith.Prelude.{
  ℕ, zero, suc, ◌+◌, ◌-◌, min, Option, none, some, List, [], ◌∷◌, ◌++◌, ◌==◌, nat_eq, if◌then◌else◌,
  length, take, drop,
}
use layersmith.Prelude.Result.{Result, ok, err}
use layersmith.Prelude.Maybe.{◌>>=◌}
use layersmith.Prelude.Text.{Str}
use layersmith.Split.Plan.{Range, plan, part_name}
use layersmith.Split.Stream.{Bytes}

-- A part of the manifest
pub record Part : Type 0 where
  pub index : ℕ
  pub name : Str
  pub offset : ℕ
  pub size : ℕ
  pub sha256 : Str

-- `parts, done, index = [], 0, 0`, `digest, filled = hashlib.sha256(), 0` and `whole`.
-- `ranges[index]` is `current`, and `later` holds the ranges behind it.
pub record Pass : Type 0 where
  pub parts : List Part
  pub index : ℕ
  pub current : Range
  pub later : List Range
  pub digest : Bytes
  pub filled : ℕ
  pub whole : Bytes

-- The variables after the loop over the chunks, with what `progress` was called with.
pub record Fed : Type 0 where
  pub done : ℕ
  pub reports : List ℕ
  pub pass : Pass

module _ (sha256 : Bytes → Str) (archive : Str) (count : ℕ) where
  -- The dict that is appended to `parts`
  abbrev pub part_of : ℕ → Range → ℕ → Bytes → Part
  part_of index range filled digest = record {
    index = index;
    name = part_name archive index count;
    offset = range.offset;
    size = filled;
    sha256 = sha256 digest;
  }

  -- `if filled == ranges[index][1] and index < len(ranges) - 1`
  unfoldable pub close : Pass → List Range → Pass
  close s [] = s
  close s (next ∷ later) =
      if s.filled == s.current.size
      then record {
        parts = s.parts ++ (part_of s.index s.current s.filled s.digest ∷ []);
        index = s.index + 1;
        current = next;
        later = later;
        digest = [];
        filled = 0;
        whole = s.whole;
      }
      else s

  -- `digest.update(piece)`, `whole.update(piece)`, `filled += take`
  abbrev pub absorb : Bytes → Pass → Pass
  absorb piece s = record s {
    digest = s.digest ++ piece;
    whole = s.whole ++ piece;
    filled = s.filled + length piece;
  }

  -- `while view:`. `none` says that the fuel ran out.
  unfoldable pub feed : ℕ → Bytes → Pass → Option Pass
  unfolding close
  feed fuel [] s = some s
  feed zero (b ∷ view) s = none
  feed (suc fuel) (b ∷ view) s =
      let n = min (length (b ∷ view)) (s.current.size - s.filled) in
      let t = absorb (take n (b ∷ view)) s in feed fuel (drop n (b ∷ view)) (close t t.later)

  -- `for chunk in chunks:`, each with its own fuel; `progress` gets the count after each chunk.
  unfoldable pub feed_all : (Bytes → ℕ) → List Bytes → ℕ → Pass → Option Fed
  unfolding feed
  feed_all fuel [] done s = some (record { done = done; reports = []; pass = s })
  feed_all fuel (chunk ∷ chunks) done s = do
    t ← feed (fuel chunk) chunk s
    rest ← feed_all fuel chunks (done + length chunk) t
    some (record rest { reports = (done + length chunk) ∷ rest.reports })

pub data HashError : Type 0 where
  -- `range` with a step of 0
  value_error : HashError
  -- "Read {done} bytes, expected {total}; the source changed while it was being split"
  wrong_length : ℕ → ℕ → HashError

pub record Hashed : Type 0 where
  pub parts : List Part
  pub checksum : Str
  pub reports : List ℕ

abbrev pub start_pass : Range → List Range → Pass
start_pass current later = record {
  parts = [];
  index = 0;
  current = current;
  later = later;
  digest = [];
  filled = 0;
  whole = [];
}

module _ (sha256 : Bytes → Str) (archive : Str) where
  abbrev finish_hash : ℕ → ℕ → Fed → Result HashError Hashed
  finish_hash count total f =
      let s = f.pass in
      if f.done == total
      then ok (record {
        parts = s.parts ++ (part_of sha256 archive count s.index s.current s.filled s.digest ∷ []);
        checksum = sha256 s.whole;
        reports = f.reports;
      })
      else err (wrong_length f.done total)

  abbrev pub hash_ranges :
      (Bytes → ℕ) → List Bytes → ℕ → List Range → Option (Result HashError Hashed)
  hash_ranges fuel chunks total [] = some (err value_error)
  hash_ranges fuel chunks total (r ∷ rs) = do
    let count = length (r ∷ rs)
    f ← feed_all sha256 archive count fuel chunks 0 (start_pass r rs)
    some (finish_hash count total f)

  -- `hash_parts(chunks, total, archive, size, progress)`. `none` says that the loop did not end in
  -- the rounds that `fuel` allows for a chunk. `plan` never returns an empty list.
  unfoldable pub hash_parts : (Bytes → ℕ) → List Bytes → ℕ → ℕ → Option (Result HashError Hashed)
  unfolding feed_all
  hash_parts fuel chunks total size = elim (plan total size) [
    | err e ↦ some (err value_error)
    | ok rs ↦ hash_ranges fuel chunks total rs
  ]
