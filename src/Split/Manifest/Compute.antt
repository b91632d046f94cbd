-- ===== src/Split/Manifest/Compute.antt =====
-- What `SplitService.compute` returns, for a file that is left alone and for any other.
use layersmith.Prelude.{
  ℕ, ◌≤◌, ◌<◌, ◌≡◌, ◌≢◌, refl, ◌∙◌, true, false, Option, none, some, List, [], inl, inr, arith,
  Bool-cases, ltb, not, ◌&&◌, ◌==◌, ==_iff, nat_eq, list_eq, length, take, take_all, length-take,
  if◌then◌else◌,
}
use layersmith.Prelude.Result.{ok, err}
use layersmith.Prelude.Text.{Str}
use layersmith.Split.Plan.{Range, plan}
use layersmith.Split.Stream.{Bytes, file_chunks}
use layersmith.Split.Stream.Bytes.{file_chunks_lem}
use layersmith.Split.Hash.{Hashed, hash_parts}
use layersmith.Split.Hash.Feed.{running}
use layersmith.Split.Hash.Whole.{describe, hash_parts-whole}
use layersmith.Split.Manifest.{
  File, Identity, file_identity, same_identity, Manifest, Observed, wrong_checksum, or_empty,
  is_set, conclude, after_hash, compute_on, compute,
}

abbrev pub still : File → Observed
still f = record { before = some f; opened = some f; after = some f }

module _ (sha256 : Bytes → Str) (archive : Str) where
  -- The bytes that a run hashes, if the file gives as many as `stat` announced.
  hashed_bytes :
      (b o : File) (size : ℕ)
      → 0 < size
      → length b.bytes ≤ length o.bytes
      → let total = length b.bytes in
        let bytes = take total o.bytes in
        let read = file_chunks o.bytes total in
        (read.raised ≡ false)
        × ((rs : List Range) × (plan total size ≡ ok rs)
            × (hash_parts sha256 archive (λ c. length c) read.chunks total size
                ≡ some (
                    ok (record {
                      parts = describe sha256 archive (length rs) bytes 0 rs;
                      checksum = sha256 bytes;
                      reports = running 0 read.chunks;
                    }))))
  hashed_bytes b o size p h =
      let total = length b.bytes in
      let (same, raised) = file_chunks_lem o.bytes total in
      let n : length (take total o.bytes) ≡ total = omega (arith, length-take total o.bytes) in
      let whole = hash_parts-whole sha256 archive (file_chunks o.bytes total).chunks size p in
      (raised ∙ ground arith, rw n at (rw same at whole))

  -- For a file that nothing else writes to, `compute` returns a manifest: its parts are those of
  -- `plan`, each with the checksum of its range of the file, and size, time and checksum are the
  -- file's. A recorded checksum that the file does not have is an error instead.
  pub compute-still :
      (expected : Option Str) (size : ℕ) (now : Str) (f : File)
      → 0 < size
      → (rs : List Range) × (plan (length f.bytes) size ≡ ok rs)
        × (compute sha256 archive expected size now (still f)
            ≡ some (
                if is_set expected && not (sha256 f.bytes == or_empty expected)
                then err (wrong_checksum (or_empty expected) (sha256 f.bytes))
                else ok (record {
                  archive = archive;
                  archive_size = length f.bytes;
                  archive_mtime_ns = f.mtime_ns;
                  archive_sha256 = sha256 f.bytes;
                  part_size = size;
                  parts = describe sha256 archive (length rs) f.bytes 0 rs;
                  created_at = now;
                  image_ref = none;
                  host_install = none;
                })))
  unfolding compute
  compute-still expected size now f p =
      let (raised, (rs, planned, hashed)) = hashed_bytes f f size p (omega arith) in
      let same : same_identity (file_identity f) (file_identity f) ≡ true = ground arith in
      let all = take_all (length f.bytes) f.bytes (omega arith) in
      (rs, planned, rw (raised, hashed, same, all) refl)

  -- Whatever other programs do to the file, `compute` returns or raises.
  pub compute_ends :
      (expected : Option Str) (size : ℕ) (now : Str) (o : Observed)
      → 0 < size
      → compute sha256 archive expected size now o ≢ none
  unfolding compute
  compute_ends expected size now o p = ends o.before o.opened
    where
      ends : (b f : Option File) → compute_on sha256 archive expected size now b f o.after ≢ none
      ends none f = λ e. cc
      ends (some b) none = λ e. cc
      ends (some b) (some f) = elim (Bool-cases (ltb (length f.bytes) (length b.bytes))) [
        | inl less ↦ rw ((file_chunks_lem f.bytes (length b.bytes)).1 ∙ less) (λ e. cc)
        | inr enough ↦
            let (raised, (rs, planned, hashed)) = hashed_bytes b f size p (ground arith) in
            rw (raised, hashed) (λ e. cc)
      ]

  -- The manifest describes what was observed.
  abbrev pub Faithful : Option Str → Observed → Manifest → Type 0
  Faithful expected o m =
      (b f a : File) × (o.before ≡ some b)
      × (o.opened ≡ some f)
      × (o.after ≡ some a)
      × (file_identity a ≡ file_identity b)
      × (m.archive_size ≡ length b.bytes)
      × (length b.bytes ≤ length f.bytes)
      × (m.archive_sha256 ≡ sha256 (take (length b.bytes) f.bytes))
      × ((e : Str) → e ≢ [] → expected ≡ some e → m.archive_sha256 ≡ e)

  conclude_ok :
      (expected : Option Str) (size : ℕ) (now : Str) (b : Identity) (h : Hashed) (a : File)
      (m : Manifest)
      → conclude sha256 archive expected size now b h (some a) ≡ ok m
      → (file_identity a ≡ b)
        × (m.archive_size ≡ b.size)
        × (m.archive_sha256 ≡ h.checksum)
        × ((e : Str) → e ≢ [] → expected ≡ some e → m.archive_sha256 ≡ e)
  conclude_ok none size now b h a m e = (ground arith, ground arith, ground arith, λ x n p. cc)
  conclude_ok (some s) size now b h a m e = (
    ground arith,
    ground arith,
    ground arith,
    λ x n p. let q : s ≡ x = cc in ground (arith, ==_iff s [], ==_iff h.checksum s),
  )

  -- A manifest is returned only if the file was there throughout, kept its size and time, and has
  -- the recorded checksum, if one is recorded: then its checksum is that of the bytes that were
  -- read, as many as the size says.
  pub compute_sound :
      (expected : Option Str) (size : ℕ) (now : Str) (o : Observed) (m : Manifest)
      → 0 < size
      → compute sha256 archive expected size now o ≡ some (ok m)
      → Faithful expected o m
  unfolding compute
  compute_sound expected size now o m p h = sound o.before o.opened o.after refl refl refl h
    where
      concluded :
          (b f : File) (a : Option File)
          → o.before ≡ some b
          → o.opened ≡ some f
          → o.after ≡ a
          → length b.bytes ≤ length f.bytes
          → (k : Hashed) → k.checksum ≡ sha256 (take (length b.bytes) f.bytes)
          → after_hash sha256 archive expected size now (file_identity b) a (some (ok k))
            ≡ some (ok m)
          → Faithful expected o m
      concluded b f none eb ef ea n k c h = cc
      concluded b f (some a) eb ef ea n k c h =
          let (same, found, sum, recorded) =
            conclude_ok expected size now (file_identity b) k a m (cc) in
          (b, f, a, eb, ef, ea, same, found, n, sum ∙ c, recorded)

      sound :
          (b f a : Option File)
          → o.before ≡ b
          → o.opened ≡ f
          → o.after ≡ a
          → compute_on sha256 archive expected size now b f a ≡ some (ok m)
          → Faithful expected o m
      sound none f a eb ef ea h = cc
      sound (some b) none a eb ef ea h = cc
      sound (some b) (some f) a eb ef ea h =
          elim (Bool-cases (ltb (length f.bytes) (length b.bytes))) [
            | inl less ↦
                let r : (file_chunks f.bytes (length b.bytes)).raised ≡ true =
                  (file_chunks_lem f.bytes (length b.bytes)).1 ∙ less in
                cc (rw r at h)
            | inr enough ↦
                let (raised, (rs, planned, hashed)) = hashed_bytes b f size p (ground arith) in
                concluded b f a eb ef ea (ground arith)
                  (record {
                    parts =
                        describe sha256 archive (length rs) (take (length b.bytes) f.bytes) 0 rs;
                    checksum = sha256 (take (length b.bytes) f.bytes);
                    reports = running 0 (file_chunks f.bytes (length b.bytes)).chunks;
                  })
                  refl (rw (raised, hashed) at h)
          ]
