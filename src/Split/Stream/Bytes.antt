-- ===== src/Split/Stream/Bytes.antt =====
-- The chunks of `read_range` and `_file_chunks` are the bytes that were asked for.
use layersmith.Prelude.{
  ℕ, zero, suc, ◌-◌, ◌≤◌, ◌<◌, min, ◌≡◌, ◌∙◌, refl, true, false, [], ◌∷◌, ◌++◌, arith, All, concat,
  ltb, length, take, drop, ap, ◌==◌, nat_eq, length-take, length-drop, take-nil, take-split,
}
use layersmith.Split.Stream.{Bytes, read_chunk, read_loop, read_range, file_chunks}

-- A chunk of at most `limit` bytes, and not an empty one
abbrev IsChunk : ℕ → Bytes → Type 0
IsChunk limit c = (0 < length c) × (length c ≤ limit)

module _ (limit : ℕ) where
  pub read_loop_lem :
      (fuel remaining : ℕ) (rest : Bytes)
      → 0 < limit
      → remaining ≤ fuel
      → (concat (read_loop limit fuel remaining rest).chunks ≡ take remaining rest)
        × ((read_loop limit fuel remaining rest).raised ≡ ltb (length rest) remaining)
        × All (IsChunk limit) (read_loop limit fuel remaining rest).chunks
  unfolding read_loop
  read_loop_lem zero zero rest p h = (refl, ground arith, tt)
  read_loop_lem zero (suc r) rest p h = elim h [ ]
  read_loop_lem (suc fuel) zero rest p h = (refl, ground arith, tt)
  read_loop_lem (suc fuel) (suc r) [] p h =
      let pos : ltb 0 (suc r) ≡ true = ground arith in
      rw (take-nil (min limit (suc r)), pos) (refl, refl, tt)
  read_loop_lem (suc fuel) (suc r) (b ∷ rest) p h =
      let n : ℕ = min limit (suc r) in
      let all : Bytes = b ∷ rest in
      let c : Bytes = take n all in
      let lc : length c ≡ min n (length all) = length-take n all in
      let ih = read_loop_lem fuel (suc r - length c) (drop n all) p (omega arith) in
      let some_read : (length c == 0) ≡ false = ground arith in
      let left : ltb (length (drop n all)) (suc r - length c) ≡ ltb (length all) (suc r) =
        ground (arith, length-drop n all) in
      let pos : ltb 0 (suc r) ≡ true = ground arith in
      rw (pos, some_read)
        (
          ap (λ l. c ++ l) ih.0 ∙ take-split n (suc r) all (omega arith),
          ih.1 ∙ left,
          ((omega arith, omega arith), ih.2),
        )

-- A range of a file is read whole: the chunks are non-empty, no longer than READ_CHUNK, and put
-- together they are the file's bytes from `offset` on, `count` of them or as many as there are.
-- SplitError is raised exactly when there are fewer.
pub read_range_lem :
    (file : Bytes) (offset count : ℕ)
    → (concat (read_range file offset count).chunks ≡ take count (drop offset file))
      × ((read_range file offset count).raised ≡ ltb (length file - offset) count)
      × All (IsChunk read_chunk) (read_range file offset count).chunks
unfolding read_range
read_range_lem file offset count =
    let r = read_loop_lem read_chunk count count (drop offset file) (omega arith) (omega arith) in
    (r.0, r.1 ∙ ap (λ k. ltb k count) (length-drop offset file), r.2)

pub file_chunks_lem :
    (file : Bytes) (total : ℕ)
    → (concat (file_chunks file total).chunks ≡ take total file)
      × ((file_chunks file total).raised ≡ ltb (length file) total)
unfolding file_chunks
file_chunks_lem file total =
    let r = read_loop_lem read_chunk total total file (omega arith) (omega arith) in (r.0, r.1)
