-- ===== src/Scanning/Archive/Verified.antt =====
-- Which archive a scanner is given, and what is left of it.
use layersmith.Prelude.{
  ◌≡◌, ◌≢◌, refl, true, Option, none, some, List, ◌==◌, ==_iff, nat_eq, list_eq, contains,
  Bool-cases, Option-cases, inl, inr, ◌⊎◌,
}
use layersmith.Prelude.Result.{Result, ok, err}
use layersmith.Prelude.Text.{Str, text}
use layersmith.Prelude.Map.{Map}
use layersmith.Split.Stream.{Bytes}
use layersmith.Scanning.Archive.{
  ScanError, Build, Backend, existing_export, temporary_export, ImageArchive, filled,
  verify_reference, export_format, reusable_export, use_archive, write, after_export,
  temporary_archive, choose, archive_for,
}
use layersmith.Scanning.Archive.Checks.{
  Agrees, verify-Agrees, export_format-contains, IsExisting, IsTemporary, reusable_lem,
}

module _ (sha256 : Bytes → Str) (formats : List Str) (backend : Backend)
    (disk : Map Str Bytes) where
  module _ {A : Type 0} (temporary : Str) (body : ImageArchive → Bytes → Result ScanError A) where
    -- Where the result of the block comes from
    abbrev pub Used : Build → A → Type 0
    Used b a =
        (archive : ImageArchive) × (bytes : Bytes) × (body archive bytes ≡ ok a)
        × (IsExisting sha256 formats backend disk b archive bytes
            ⊎ IsTemporary sha256 formats backend disk b archive bytes)

    after_export_lem :
        (b : Build) (reference format : Str) (a : A) (failure : Option Str)
        → disk temporary ≡ none
        → filled b.image_ref ≡ some reference
        → contains formats format ≡ true
        → contains backend.archive_formats format ≡ true
        → Agrees backend reference (filled b.image_digest)
        → (after_export sha256 formats backend disk temporary body format
            (backend.export reference format)
            failure).0
          ≡ ok a
        → Used b a
    after_export_lem b reference format a (some e) new ref read written agrees h = absurd cc
    after_export_lem b reference format a none new ref read writes agrees h =
        go (backend.export reference format).written refl h
      where
        archive : ImageArchive
        archive = record { path = temporary; source = temporary_export; archive_format = format }

        go :
            (w : Option Bytes)
            → (backend.export reference format).written ≡ w
            → use_archive sha256 formats backend disk temporary body archive
                (write sha256 formats backend disk temporary body w temporary)
              ≡ ok a
            → Used b a
        go none e h = absurd (err_ok (rw new at h))
          where
            err_ok : {e : ScanError} → ◌≢◌ {A = Result ScanError A} (err e) (ok a)
            err_ok e = cc
        go (some bytes) e h =
            let self : (temporary == temporary) ≡ true = (==_iff temporary temporary).1 refl in
            (archive, bytes, rw self at h, inr (reference, refl, ref, read, writes, agrees, e))

    temporary_lem :
        (b : Build) (reference : Str) (a : A)
        → disk temporary ≡ none
        → filled b.image_ref ≡ some reference
        → (temporary_archive sha256 formats backend disk temporary body reference b.image_digest
            (export_format formats backend.archive_formats)).0
          ≡ ok a
        → Used b a
    temporary_lem b reference a new ref h =
        elim (Option-cases (export_format formats backend.archive_formats)) [
          | inl missing ↦ absurd (err_ok (rw missing at h))
          | inr (format, chosen) ↦
              let (read, writes) =
                export_format-contains formats backend.archive_formats format chosen in
              let rest = rw chosen at h in
              elim (Option-cases (verify_reference backend reference b.image_digest)) [
                | inr (e, refused) ↦ absurd (err_ok (rw refused at rest))
                | inl accepted ↦
                    after_export_lem b reference format a (backend.export reference format).failure
                      new ref read writes
                      (verify-Agrees backend reference (filled b.image_digest) accepted)
                      (rw accepted at rest)
              ]
        ]
      where
        err_ok : {e : ScanError} → ◌≢◌ {A = Result ScanError A} (err e) (ok a)
        err_ok e = cc

    choose_lem :
        (b : Build) (reference : Str) (a : A)
        → disk temporary ≡ none
        → filled b.image_ref ≡ some reference
        → (choose sha256 formats backend disk temporary body reference b.image_digest
            (reusable_export sha256 formats backend disk b)).0
          ≡ ok a
        → Used b a
    choose_lem b reference a new ref h =
        elim (Option-cases (reusable_export sha256 formats backend disk b)) [
          | inl missing ↦ temporary_lem b reference a new ref (rw missing at h)
          | inr (path, kept) ↦
              let (bytes, there, named, summed, good) =
                reusable_lem sha256 formats backend disk (filled b.export_path)
                  (filled b.export_sha256) path kept in
              let archive : ImageArchive = record {
                path = path;
                source = existing_export;
                archive_format = backend.archive_format;
              } in
              (archive, bytes, rw (kept, there) at h, inl (refl, named, summed, good))
        ]

    -- If the name of the temporary export is new and the block's result comes out, the build was ready
    -- and the block was given one of two archives in a format that the scanner reads: the build's own
    -- export, whose bytes have the recorded checksum, or an export, just made in a format that the runtime
    -- writes, of the build's reference, and the runtime did not give another digest for that
    -- reference than the recorded one.
    pub archive_for_lem :
        (b : Option Build) (a : A)
        → disk temporary ≡ none
        → (archive_for sha256 formats backend disk temporary body b).0 ≡ ok a
        → (row : Build) × (b ≡ some row) × (row.status ≡ text "ready") × Used row a
    unfolding archive_for
    archive_for_lem none a new h = absurd cc
    archive_for_lem (some b) a new h = elim (Option-cases (filled b.image_ref)) [
      | inl missing ↦ absurd (err_ok (rw missing at h))
      | inr (reference, named) ↦
          let rest = rw named at h in
          elim (Bool-cases (b.status == text "ready")) [
            | inl is_ready ↦ (
              b,
              refl,
              (==_iff b.status (text "ready")).0 is_ready,
              choose_lem b reference a new named (rw is_ready at rest),
            )
            | inr other ↦ absurd (err_ok (rw other at rest))
          ]
    ]
      where
        err_ok : {e : ScanError} → ◌≢◌ {A = Result ScanError A} (err e) (ok a)
        err_ok e = cc
