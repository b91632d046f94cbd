-- ===== src/Vtar.antt =====
-- backend/layersmith/services/vtar.py: the tar of a folder as a list of segments, of which any byte
-- range can be read with no archive on disk. The bytes of a tar header come from Python's `tarfile`:
-- they are the parameter `header`.
pub mod Reading
pub mod Blocks
mod Tests
use layersmith.Prelude.{
  ℕ, ◌+◌, ◌-◌, ◌*◌, ◌%◌, min, max, Bool, true, false, Option, none, some, List, [], ◌∷◌, ◌++◌, ◌||◌,
  ltb, leb, ◌==◌, nat_eq, if◌then◌else◌, length, take, drop, replicate,
}
use layersmith.Prelude.Text.{Str}
use layersmith.Prelude.Map.{Map}
use layersmith.Split.Stream.{Bytes, Chunks, read_chunk, read_loop}

abbrev pub block : ℕ
block = 512

-- `data` or `path` of a segment
pub data Content : Type 0 where
  stored : Bytes → Content
  file : Str → Content

pub record Segment : Type 0 where
  pub offset : ℕ
  pub size : ℕ
  pub content : Content

pub record Layout : Type 0 where
  pub segments : List Segment
  pub size : ℕ

abbrev pub end_of : Segment → ℕ
end_of s = s.offset + s.size

abbrev pub size_of : List Segment → ℕ
size_of [] = 0
size_of (s ∷ []) = end_of s
size_of (s ∷ t ∷ ss) = size_of (t ∷ ss)

-- `Layout(segments)`
abbrev pub make : List Segment → Layout
make segments = record { segments = segments; size = size_of segments }

-- `open(segment.path)`: a missing file is an OSError, as is one that ends early.
abbrev read_file : Option Bytes → ℕ → ℕ → Chunks
read_file none start count = record { chunks = []; raised = true }
read_file (some bytes) start count = read_loop read_chunk count count (drop start bytes)

-- The bytes [start, stop) of a segment
abbrev pub read_segment : Map Str Bytes → Content → ℕ → ℕ → Chunks
read_segment disk (stored bytes) start stop = record {
  chunks = take (stop - start) (drop start bytes) ∷ [];
  raised = false;
}
read_segment disk (file path) start stop = read_file (disk path) start (stop - start)

-- What a generator yields after `first`, unless `first` raised
abbrev and_then : Chunks → Chunks → Chunks
and_then first rest =
    if first.raised
    then first
    else record { chunks = first.chunks ++ rest.chunks; raised = rest.raised }

-- `for segment in self.segments:` with its `continue` and `break`
unfoldable pub read_segments : Map Str Bytes → ℕ → ℕ → List Segment → Chunks
unfolding read_loop
read_segments disk offset end [] = record { chunks = []; raised = false }
read_segments disk offset end (s ∷ ss) =
    let rest = read_segments disk offset end ss in
    if leb (end_of s) offset || s.size == 0
    then rest
    else if leb end s.offset
    then record { chunks = []; raised = false }
    else and_then
        (read_segment disk s.content (max offset s.offset - s.offset)
          (min end (end_of s) - s.offset))
        rest

abbrev end_for : Layout → ℕ → Option ℕ → ℕ
end_for lay offset none = lay.size
end_for lay offset (some count) = min lay.size (offset + count)

-- `Layout.read(offset, length)`
unfoldable pub read : Map Str Bytes → Layout → ℕ → Option ℕ → Chunks
unfolding read_segments
read disk lay offset count = read_segments disk offset (end_for lay offset count) lay.segments

-- What `_info` sets on a TarInfo; owner and group are 0 and unnamed.
pub record Info : Type 0 where
  pub name : Str
  pub is_dir : Bool
  pub size : ℕ
  pub mode : ℕ
  pub mtime : ℕ

pub record Entry : Type 0 where
  pub name : Str
  pub size : ℕ

-- `(-size) % BLOCK`
abbrev pub padding : ℕ → ℕ
padding size = (block - size % block) % block

-- `add(data=…)` and `add(path=…)` at a position
abbrev pub data_at : ℕ → Bytes → Segment
data_at position bytes = record { offset = position; size = length bytes; content = stored bytes }

abbrev pub file_at : ℕ → ℕ → Str → Segment
file_at position size path = record { offset = position; size = size; content = file path }

module _ (header : Info → Bytes) (folder top : Str) (mtime : ℕ) where
  abbrev pub entry_info : Entry → Info
  entry_info e = record {
    name = top ++ (47 ∷ e.name);
    is_dir = false;
    size = e.size;
    mode = 420;
    mtime = mtime;
  }

  -- The rest of the archive from a position on: for each file a header, the contents and padding,
  -- and two zero blocks at the end.
  unfoldable pub entries_from : ℕ → List Entry → List Segment
  entries_from position [] = data_at position (replicate (2 * block) 0) ∷ []
  entries_from position (e ∷ es) =
      let head = header (entry_info e) in
      let contents = position + length head in
      let after = contents + e.size in
      let pad = padding e.size in
      let rest = entries_from (after + pad) es in
      data_at position head
      ∷ file_at contents e.size (folder ++ (47 ∷ e.name))
      ∷ (if pad == 0 then rest else data_at after (replicate pad 0) ∷ rest)

  -- `layout(folder, top, files, mtime)`
  unfoldable pub layout : List Entry → Layout
  unfolding entries_from
  layout files =
      let head =
        header (record {
          name = top ++ (47 ∷ []);
          is_dir = true;
          size = 0;
          mode = 493;
          mtime = mtime;
        }) in
      make (data_at 0 head ∷ entries_from (length head) files)
