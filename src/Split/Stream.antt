-- ===== src/Split/Stream.antt =====
-- `read_range` and `_file_chunks` in services/splitting.py: reading a file by chunks.
-- A file is its bytes; `handle.read(n)` gives the next `n` of them, or what is left.
pub mod Bytes
use layersmith.Prelude.{
  ℕ, zero, suc, ◌+◌, ◌-◌, ◌*◌, min, Bool, true, false, List, [], ◌∷◌, ltb, ◌==◌, nat_eq,
  if◌then◌else◌, length, take, drop,
}

abbrev pub Bytes : Type 0
Bytes = List ℕ

-- READ_CHUNK
abbrev pub read_chunk : ℕ
read_chunk = 4 * 1024 * 1024

-- What a generator has yielded, and whether it then raised SplitError.
pub record Chunks : Type 0 where
  pub chunks : List Bytes
  pub raised : Bool

abbrev yield_then : Bytes → Chunks → Chunks
yield_then chunk rest = record rest { chunks = chunk ∷ rest.chunks }

-- `while remaining > 0: chunk = handle.read(min(READ_CHUNK, remaining)) ...`, where `rest` is what
-- the handle has not read. `limit` is READ_CHUNK. Each round reads a byte at least, or raises.
unfoldable pub read_loop : ℕ → ℕ → ℕ → Bytes → Chunks
read_loop limit zero remaining rest = record { chunks = []; raised = ltb 0 remaining }
read_loop limit (suc fuel) remaining rest =
    let n = min limit remaining in
    let chunk = take n rest in
    let more = yield_then chunk (read_loop limit fuel (remaining - length chunk) (drop n rest)) in
    if ltb 0 remaining
    then (if length chunk == 0 then record { chunks = []; raised = true } else more)
    else record { chunks = []; raised = false }

-- `read_range(path, offset, length)`, over the bytes of the file at `path`
unfoldable pub read_range : Bytes → ℕ → ℕ → Chunks
unfolding read_loop
read_range file offset count = read_loop read_chunk count count (drop offset file)

-- `_file_chunks(path, total)`
unfoldable pub file_chunks : Bytes → ℕ → Chunks
unfolding read_loop
file_chunks file total = read_loop read_chunk total total file
