-- ===== src/Models/Service/Parts.antt =====
-- The parts of a model are those of the tar of its folder.
use layersmith.Prelude.{
  ℕ, ◌≡◌, refl, sym, ap, subst, ◌∙◌, Bool, true, false, Option, none, some, List, [], ◌∷◌, ◌++◌,
  map, append_assoc, ◌==◌, ==_iff, nat_eq, list_eq, length, drop, concat, All, if◌then◌else◌,
}
use layersmith.Prelude.Result.{ok, err, map_ok}
use layersmith.Prelude.Text.{Str, starts_with}
use layersmith.Split.Plan.{Range, plan, part_size}
use layersmith.Split.Stream.{Bytes}
use layersmith.Split.Hash.{hash_parts}
use layersmith.Split.Hash.Whole.{describe, hash_parts-whole}
use layersmith.Split.Manifest.{File, Disk}
use layersmith.Split.Service.Current.{part_size-pos}
use layersmith.Vtar.{Info, Entry, read}
use layersmith.Vtar.Blocks.{tar, InFolder, layout-IsArchive}
use layersmith.Vtar.Reading.{read-IsArchive}
use layersmith.Models.Files.{ModelFile}
use layersmith.Models.Download.{os_error}
use layersmith.Models.Service.{
  ModelParts, bytes_of, by_path, entry_of, identity_of, mtime_of, tar_mtime, layout_of,
  with_identity, archive_name, compute_parts,
}

starts_with-append : (a b : Str) → starts_with (a ++ b) a ≡ true
unfolding starts_with
starts_with-append [] b = refl
starts_with-append (c ∷ a) b =
    let same : (c == c) ≡ true = (==_iff c c).1 refl in rw (same, starts_with-append a b) refl

drop-length : (a b : Str) → drop (length a) (a ++ b) ≡ b
drop-length [] b = refl
drop-length (c ∷ a) b = drop-length a b

by_path_lem :
    (folder : Str) (disk : Disk) (name : Str)
    → by_path folder disk (folder ++ (47 ∷ name)) ≡ bytes_of (disk name)
unfolding by_path
by_path_lem folder disk name =
    let e : (folder ++ (47 ∷ [])) ++ name ≡ folder ++ (47 ∷ name) =
      append_assoc folder (47 ∷ []) name in
    subst (λ path. by_path folder disk path ≡ bytes_of (disk name)) e
      (rw (starts_with-append (folder ++ (47 ∷ [])) name, drop-length (folder ++ (47 ∷ [])) name)
        refl)

abbrev bytes_or_none : Option File → Bytes
bytes_or_none none = []
bytes_or_none (some f) = f.bytes

-- The bytes of an entry of the tar
abbrev pub contents_of : Disk → Entry → Bytes
contents_of disk e = bytes_or_none (disk e.name)

-- The file is there, with the size of its entry.
abbrev pub Here : Disk → ModelFile → Type 0
Here disk f = (file : File) × (disk f.name ≡ some file) × (length file.bytes ≡ f.size)

module _ (header : Info → Bytes) (folder name : Str) (disk : Disk) where
  pub entries-InFolder :
      (files : List ModelFile)
      → All (Here disk) files
      → All
          (InFolder header folder name tar_mtime (contents_of disk) (by_path folder disk))
          (map entry_of files)
  entries-InFolder [] h = tt
  entries-InFolder (f ∷ fs) ((file, there, size), h) = (
    (
      by_path_lem folder disk f.name
          ∙ ap bytes_of there
          ∙ ap (λ o. some (bytes_or_none o)) (sym there),
      sym size ∙ ap (λ o. length (bytes_or_none o)) (sym there),
    ),
    entries-InFolder fs h,
  )

identities :
    (disk : Disk) (files : List ModelFile)
    → All (Here disk) files
    → (identity : List (Str × ℕ)) × (map_ok (identity_of disk) files ≡ ok identity)
unfolding map_ok
identities disk [] h = ([], refl)
identities disk (f ∷ fs) ((file, there, size), h) =
    let (rest, e) = identities disk fs h in
    let one : identity_of disk f ≡ ok (f.name, file.mtime_ns) = ap (mtime_of f) there in
    ((f.name, file.mtime_ns) ∷ rest, rw (one, e) refl)

module _ (sha256 : Bytes → Str) (header : Info → Bytes) (configured : ℕ) where
  -- The bytes of the archive of a model
  abbrev pub archive_of : Str → Disk → Str → List ModelFile → Bytes
  archive_of folder disk name files =
      tar header folder name tar_mtime (contents_of disk) (map entry_of files)

  computed :
      (folder : Str) (disk : Disk) (name : Str) (files : List ModelFile) (chunks : List Bytes)
      (raised : Bool)
      → raised ≡ false
      → concat chunks ≡ archive_of folder disk name files
      → (layout_of sha256 header configured folder name files).size
        ≡ length (archive_of folder disk name files)
      → All (Here disk) files
      → (p : ModelParts) × (rs : List Range) × ((if raised
            then err (os_error folder)
            else with_identity sha256 header configured
                (archive_name name)
                (layout_of sha256 header configured folder name files)
                (hash_parts sha256
                  (archive_name name)
                  (λ c. length c)
                  chunks
                  (layout_of sha256 header configured folder name files).size
                  (part_size configured))
                (map_ok (identity_of disk) files))
          ≡ ok p)
        × (p.archive_size ≡ length (archive_of folder disk name files))
        × (p.archive_sha256 ≡ sha256 (archive_of folder disk name files))
        × (plan p.archive_size (part_size configured) ≡ ok rs)
        × (p.parts
            ≡ describe sha256
                (archive_name name)
                (length rs)
                (archive_of folder disk name files)
                0
                rs)
  computed folder disk name files chunks raised fine all size h =
      let (identity, found) = identities disk files h in
      let (rs, planned, hashed) =
        hash_parts-whole sha256 (archive_name name) chunks (part_size configured)
          (part_size-pos configured) in
      let total : length (concat chunks)
          ≡ (layout_of sha256 header configured folder name files).size =
        ap length all ∙ sym size in
      let hashed' = rw total at hashed in
      let planned' = rw total at planned in
      rw (fine, hashed', found)
        (
          _,
          rs,
          refl,
          size,
          ap sha256 all,
          planned',
          ap (λ b. describe sha256 (archive_name name) (length rs) b 0 rs) all,
        )

  -- Where the folder has each file with its size, `compute_parts` returns: the parts that it describes are, by
  -- the plan for their size, the slices of the tar of the folder, each with its own checksum, and
  -- the archive's checksum and size are those of this tar.
  pub compute_parts-archive_of :
      (folder : Str) (disk : Disk) (name : Str) (files : List ModelFile)
      → All (Here disk) files
      → (p : ModelParts) × (rs : List Range) × (compute_parts sha256 header configured folder disk
            name files
          ≡ ok p)
        × (p.archive_size ≡ length (archive_of folder disk name files))
        × (p.archive_sha256 ≡ sha256 (archive_of folder disk name files))
        × (plan p.archive_size (part_size configured) ≡ ok rs)
        × (p.parts
            ≡ describe sha256
                (archive_name name)
                (length rs)
                (archive_of folder disk name files)
                0
                rs)
  unfolding compute_parts
  compute_parts-archive_of folder disk name files h =
      let lay = layout_of sha256 header configured folder name files in
      let inside = entries-InFolder header folder name disk files h in
      let (a, size) =
        layout-IsArchive header folder name tar_mtime (contents_of disk) (by_path folder disk)
          (map entry_of files) inside in
      let (bytes, fine) =
        read-IsArchive (by_path folder disk) lay (archive_of folder disk name files) 0 none a
          size in
      computed folder disk name files (read (by_path folder disk) lay 0 none).chunks
        (read (by_path folder disk) lay 0 none).raised fine bytes size h
