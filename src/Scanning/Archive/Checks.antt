-- ===== src/Scanning/Archive/Checks.antt =====
-- What the tests of `archive_for` say of an archive that passes them.
use layersmith.Prelude.{
  ◌≡◌, ◌≢◌, refl, sym, ap, true, Option, none, some, List, [], ◌∷◌, ◌==◌, ==_iff, nat_eq, list_eq,
  contains, Bool-cases, inl, inr, arith,
}
use layersmith.Prelude.Result.{Result, ok, err}
use layersmith.Prelude.Text.{Str}
use layersmith.Prelude.Map.{Map}
use layersmith.Split.Stream.{Bytes}
use layersmith.Scanning.Archive.{
  ScanError, Build, Backend, existing_export, temporary_export, ImageArchive, filled,
  compare_digest, compare_image, verify_digest, export_format, check_export, reusable,
}

-- What `inspect` says agrees with the recorded digest: there is none, the runtime knows none, or they are equal.
abbrev SameDigest : Str → Option Str → Type 0
SameDigest digest none = Unit
SameDigest digest (some current) = current ≡ digest

abbrev SameImage : Str → Result Str (Option Str) → Type 0
SameImage digest (err e) = ⊥
SameImage digest (ok current) = SameDigest digest (filled current)

abbrev pub Agrees : Backend → Str → Option Str → Type 0
Agrees backend reference none = Unit
Agrees backend reference (some digest) = SameImage digest (backend.inspect reference)

pub verify-Agrees :
    (backend : Backend) (reference : Str) (digest : Option Str)
    → verify_digest backend reference digest ≡ none
    → Agrees backend reference digest
verify-Agrees backend reference none h = tt
verify-Agrees backend reference (some digest) h = image (backend.inspect reference) h
  where
    current_lem :
        (current : Option Str) → compare_digest digest current ≡ none → SameDigest digest current
    current_lem none h = tt
    current_lem (some current) h = elim (Bool-cases (current == digest)) [
      | inl same ↦ (==_iff current digest).0 same
      | inr differ ↦ absurd (some_none (rw differ at h))
    ]
      where
        some_none : {e : ScanError} → some e ≢ none
        some_none e = cc

    image : (i : Result Str (Option Str)) → compare_image digest i ≡ none → SameImage digest i
    image (err e) h = absurd cc
    image (ok current) h = current_lem (filled current) h

pub export_format-contains :
    (formats backend : List Str) (format : Str)
    → export_format formats backend ≡ some format
    → (contains formats format ≡ true) × (contains backend format ≡ true)
unfolding export_format
export_format-contains [] backend format h = absurd cc
export_format-contains (w ∷ ws) backend format h = elim (Bool-cases (contains backend w)) [
  | inl good ↦
      let same : w ≡ format = injective (rw good at h) in
      let self : (format == format) ≡ true = (==_iff format format).1 refl in
      (rw same (rw self refl), rw (← same) good)
  | inr bad ↦
      let (first, second) = export_format-contains ws backend format (rw bad at h) in
      (ground arith, second)
]
  where
    injective : {a b : Str} → some a ≡ some b → a ≡ b
    injective e = cc

module _ (sha256 : Bytes → Str) (formats : List Str) (backend : Backend)
    (disk : Map Str Bytes) where
  -- The build's own export, with the recorded checksum
  abbrev pub IsExisting : Build → ImageArchive → Bytes → Type 0
  IsExisting b archive bytes =
      (archive.source ≡ existing_export)
      × (filled b.export_path ≡ some archive.path)
      × (filled b.export_sha256 ≡ some (sha256 bytes))
      × (contains formats archive.archive_format ≡ true)

  -- A new export of the image that was built
  abbrev pub IsTemporary : Build → ImageArchive → Bytes → Type 0
  IsTemporary b archive bytes =
      (reference : Str) × (archive.source ≡ temporary_export)
      × (filled b.image_ref ≡ some reference)
      × (contains formats archive.archive_format ≡ true)
      × (contains backend.archive_formats archive.archive_format ≡ true)
      × Agrees backend reference (filled b.image_digest)
      × ((backend.export reference archive.archive_format).written ≡ some bytes)

  check_export_lem :
      (path sum : Str) (f : Option Bytes) (p : Str)
      → check_export sha256 formats backend disk path sum f ≡ some p
      → (b : Bytes) × (f ≡ some b)
        × (sha256 b ≡ sum)
        × (path ≡ p)
        × (contains formats backend.archive_format ≡ true)
  check_export_lem path sum none p h = absurd cc
  check_export_lem path sum (some b) p h =
      elim (Bool-cases (contains formats backend.archive_format)) [
        | inr bad ↦ absurd (none_some (rw bad at h))
        | inl good ↦ elim (Bool-cases (sha256 b == sum)) [
          | inr differ ↦ absurd (none_some (rw (good, differ) at h))
          | inl same ↦
              (b, refl, (==_iff (sha256 b) sum).0 same, injective (rw (good, same) at h), good)
        ]
      ]
    where
      none_some : ◌≢◌ {A = Option Str} none (some p)
      none_some e = cc

      injective : some path ≡ some p → path ≡ p
      injective e = cc

  pub reusable_lem :
      (path sum : Option Str) (p : Str)
      → reusable sha256 formats backend disk path sum ≡ some p
      → (b : Bytes) × (disk p ≡ some b)
        × (path ≡ some p)
        × (sum ≡ some (sha256 b))
        × (contains formats backend.archive_format ≡ true)
  reusable_lem none sum p h = absurd cc
  reusable_lem (some path) none p h = absurd cc
  reusable_lem (some path) (some sum) p h =
      let (b, there, same, at_p, good) = check_export_lem path sum (disk path) p h in
      (b, rw (← at_p) there, ap some at_p, ap some (sym same), good)
