-- ===== src/Vtar/Blocks.antt =====
-- `layout` describes a tar: headers, contents padded to whole blocks, and two zero blocks.
use layersmith.Prelude.{
  ℕ, ◌+◌, ◌*◌, ◌%◌, ◌≡◌, refl, sym, subst, ◌∙◌, true, false, some, List, [], ◌∷◌, ◌++◌, inl, inr,
  arith, All, Bool-cases, ◌==◌, ==_iff, nat_eq, length, take, drop, concat, replicate,
  length-append, length-replicate, if◌then◌else◌, append-nil,
}
use layersmith.Prelude.Text.{Str}
use layersmith.Prelude.Map.{Map}
use layersmith.Split.Stream.{Bytes}
use layersmith.Vtar.{
  Segment, Info, Entry, block, padding, data_at, file_at, entry_info, entries_from, layout, read,
}
use layersmith.Vtar.Reading.{IsArchive, nothing, segment, size_of-IsArchive, read-IsArchive}

-- What `tarfile` documents of a header: it fills whole blocks.
abbrev FillsBlocks : (Info → Bytes) → Type 0
FillsBlocks header = (i : Info) → length (header i) % block ≡ 0

module _ (header : Info → Bytes) (folder top : Str) (mtime : ℕ) (contents : Entry → Bytes) where
  -- The archive from a file on: its header, its contents, and zeros up to the next block
  abbrev tar_from : List Entry → Bytes
  tar_from [] = replicate (2 * block) 0
  tar_from (e ∷ es) =
      header (entry_info header folder top mtime e)
      ++ (contents e ++ (replicate (padding e.size) 0 ++ tar_from es))

  abbrev pub tar : List Entry → Bytes
  tar files =
      header
        (record { name = top ++ (47 ∷ []); is_dir = true; size = 0; mode = 493; mtime = mtime })
      ++ tar_from files

  -- The folder has each file with the recorded size.
  abbrev pub InFolder : Map Str Bytes → Entry → Type 0
  InFolder disk e =
      (disk (folder ++ (47 ∷ e.name)) ≡ some (contents e)) × (e.size ≡ length (contents e))

  module _ (disk : Map Str Bytes) where
    -- The padding, which is no segment where there is none
    padded :
        (position pad : ℕ) (ss : List Segment) (whole : Bytes)
        → IsArchive disk (position + pad) ss whole
        → IsArchive disk position
            (if pad == 0 then ss else data_at position (replicate pad 0) ∷ ss)
            (replicate pad 0 ++ whole)
    padded position pad ss whole a = elim (Bool-cases (pad == 0)) [
      | inl zero_pad ↦
          let e : pad ≡ 0 = (==_iff pad 0).0 zero_pad in
          let p : position + 0 ≡ position = omega arith in rw zero_pad (rw e (rw p at (rw e at a)))
      | inr some_pad ↦
          let zeros : Bytes = replicate pad 0 in
          rw some_pad (
            segment (data_at position zeros) zeros refl refl refl
              (rw (length-replicate {A = ℕ} pad 0) a))
    ]

    entries_from-IsArchive :
        (position : ℕ) (files : List Entry)
        → All (InFolder disk) files
        → IsArchive disk position
            (entries_from header folder top mtime position files)
            (tar_from files)
    unfolding entries_from
    entries_from-IsArchive position [] h =
        let zeros : Bytes = replicate (2 * block) 0 in
        subst (λ w. IsArchive disk position (data_at position zeros ∷ []) w) (append-nil zeros)
          (segment (data_at position zeros) zeros refl refl refl nothing)
    entries_from-IsArchive position (e ∷ es) ((found, size), h) =
        let head = header (entry_info header folder top mtime e) in
        let at : ℕ = position + length head in
        let rest = entries_from-IsArchive (at + e.size + padding e.size) es h in
        segment (data_at position head) head refl refl refl (
          segment (file_at at e.size (folder ++ (47 ∷ e.name))) (contents e) refl size found
            (rw (← size) (padded (at + e.size) (padding e.size) _ _ rest)))

    pub layout-IsArchive :
        (files : List Entry)
        → All (InFolder disk) files
        → IsArchive disk 0 (layout header folder top mtime files).segments (tar files)
          × ((layout header folder top mtime files).size ≡ length (tar files))
    unfolding layout
    layout-IsArchive files h =
        let head = header (record {
          name = top ++ (47 ∷ []);
          is_dir = true;
          size = 0;
          mode = 493;
          mtime = mtime;
        }) in
        let rest = entries_from-IsArchive (length head) files h in
        let e : length head ≡ 0 + length head = omega arith in
        (
          segment (data_at 0 head) head refl refl refl (
              subst
                (λ k.
                  IsArchive disk k (entries_from header folder top mtime (length head) files)
                    (tar_from files))
                e rest),
          size_of-IsArchive disk (data_at 0 head) (omega arith) rest
              ∙ sym (length-append head (tar_from files)),
        )

  -- The archive of a folder whose files have the recorded sizes is, in order, the directory's
  -- header and each file's header, contents and padding, and the two blocks at the end: any range
  -- read from the layout is that range of these bytes, and no error is raised.
  pub layout-read :
      (disk : Map Str Bytes) (files : List Entry) (offset count : ℕ)
      → All (InFolder disk) files
      → let lay = layout header folder top mtime files in
        (lay.size ≡ length (tar files))
        × (concat (read disk lay offset (some count)).chunks ≡ take count (drop offset (tar files)))
        × ((read disk lay offset (some count)).raised ≡ false)
  layout-read disk files offset count h =
      let (a, size) = layout-IsArchive disk files h in
      let r =
        read-IsArchive disk (layout header folder top mtime files) (tar files) offset (some count) a
          size in
      (size, r.0, r.1)

  length-tar_from :
      FillsBlocks header
      → (files : List Entry) → All (λ e. e.size ≡ length (contents e)) files
      → length (tar_from files) % block ≡ 0
  length-tar_from fills [] h = refl
  length-tar_from fills (e ∷ es) (size, h) =
      let head = header (entry_info header folder top mtime e) in
      let zeros : Bytes = replicate (padding e.size) 0 in
      omega (
        arith,
        length-append head (contents e ++ (zeros ++ tar_from es)),
        length-append (contents e) (zeros ++ tar_from es),
        length-append zeros (tar_from es),
        length-replicate {A = ℕ} (padding e.size) 0,
        fills (entry_info header folder top mtime e),
        length-tar_from fills es h,
      )

  -- Where headers fill whole blocks, and the sizes are the recorded ones, so does the archive.
  layout-FillsBlocks :
      FillsBlocks header
      → (disk : Map Str Bytes) (files : List Entry) → All (InFolder disk) files
      → (layout header folder top mtime files).size % block ≡ 0
  layout-FillsBlocks fills disk files h =
      let i : Info = record {
        name = top ++ (47 ∷ []);
        is_dir = true;
        size = 0;
        mode = 493;
        mtime = mtime;
      } in
      rw (layout-IsArchive disk files h).1 (
        omega (
          arith,
          length-append (header i) (tar_from files),
          fills i,
          length-tar_from fills files (sizes files h),
        ))
    where
      sizes :
          (es : List Entry) → All (InFolder disk) es → All (λ e. e.size ≡ length (contents e)) es
      sizes [] h = tt
      sizes (e ∷ es) h = (h.0.1, sizes es h.1)

-- The tar of other contents that are the same for each entry
module _ (header : Info → Bytes) (folder top : Str) (mtime : ℕ) (a b : Entry → Bytes) where
  tar_from-same :
      (files : List Entry)
      → All (λ e. a e ≡ b e) files
      → tar_from header folder top mtime a files ≡ tar_from header folder top mtime b files
  tar_from-same [] h = refl
  tar_from-same (e ∷ es) (one, h) = rw (one, tar_from-same es h) refl

  pub tar-same :
      (files : List Entry)
      → All (λ e. a e ≡ b e) files
      → tar header folder top mtime a files ≡ tar header folder top mtime b files
  tar-same files h = rw (tar_from-same files h) refl
