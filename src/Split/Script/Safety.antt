-- ===== src/Split/Script/Safety.antt =====
-- The assemble script restores the original archive or changes nothing.
use layersmith.Prelude.{
  ℕ, ◌≡◌, ◌≢◌, refl, sym, ◌∙◌, Bool, true, false, Option, none, some, List, [], ◌∷◌, arith, inl,
  inr, ◌⊎◌, Bool-cases, Option-cases, ◌==◌, ==_iff, ==_apart, nat_eq, list_eq, All, length, not,
  if◌then◌else◌,
}
use layersmith.Prelude.Text.{Str}
use layersmith.Prelude.Map.{put, erase}
use layersmith.Split.Stream.{Bytes}
use layersmith.Split.Hash.{Part}
use layersmith.Split.Manifest.{Manifest}
use layersmith.Split.Script.{
  Directory, Host, Options, Outcome, exit, is_original, cat, any_incomplete, any_corrupt, too_full,
  restore, obtain, remove_all, load_code, assemble,
}

module _ (sha256 : Bytes → Str) (m : Manifest) where
  -- The directory holds the original archive.
  abbrev HasArchive : Directory → Type 0
  HasArchive dir =
      (b : Bytes) × (dir m.archive ≡ some b)
      × (sha256 b ≡ m.archive_sha256)
      × (length b ≡ m.archive_size)

  -- What a step of the script leaves: the archive, or what was there before
  abbrev Restored : Directory → Outcome → Type 0
  Restored dir r = ((r.code ≡ 0) × HasArchive r.dir) ⊎ ((r.code ≢ 0) × (r.code ≢ 6) × (r.dir ≡ dir))

  original :
      (b : Bytes)
      → is_original sha256 m b ≡ true
      → (sha256 b ≡ m.archive_sha256) × (length b ≡ m.archive_size)
  original b h = (ground (arith, ==_iff (sha256 b) m.archive_sha256), ground arith)

  kept : (dir : Directory) (code : ℕ) → (code ≢ 0) → (code ≢ 6) → Restored dir (exit code dir)
  kept dir code a b = inr (a, b, refl)

  put_original :
      (dir : Directory) (b : Bytes)
      → is_original sha256 m b ≡ true
      → Restored dir (exit 0 (put dir m.archive b))
  put_original dir b h =
      let (sum, size) = original b h in
      let found : put dir m.archive b m.archive ≡ some b =
        rw ((==_iff m.archive m.archive).1 refl) refl in
      inl (refl, (b, found, sum, size))

  restore_lem : (host : Host) (dir : Directory) → Restored dir (restore sha256 m host dir)
  unfolding restore
  restore_lem host dir =
      let joined = cat sha256 dir m.parts in
      let two = kept dir 2 (ground arith) (ground arith) in
      let three = kept dir 3 (ground arith) (ground arith) in
      let four = kept dir 4 (ground arith) (ground arith) in
      if_lem (any_incomplete sha256 dir m.parts) (λ _. two)
        (λ _.
          if_lem (any_corrupt sha256 dir m.parts) (λ _. three)
            (λ _.
              if_lem (too_full sha256 host.free m.archive_size) (λ _. four)
                (λ _.
                  if_lem (not host.writes) (λ _. four)
                    (λ _.
                      if_lem (not (is_original sha256 m joined)) (λ _. three)
                        (λ h.
                          if_lem (not host.renames) (λ _. four)
                            (λ _. put_original dir joined (ground arith)))))))
    where
      if_lem :
          {dir : Directory} (c : Bool) {x y : Outcome}
          → (c ≡ true → Restored dir x)
          → (c ≡ false → Restored dir y)
          → Restored dir (if c then x else y)
      if_lem true f g = f refl
      if_lem false f g = g refl

  -- Whether the directory holds the original archive at the end, or is what it was
  abbrev pub Settled : Directory → Outcome → Type 0
  Settled dir r =
      (((r.code ≡ 0) ⊎ (r.code ≡ 6)) × HasArchive r.dir)
      ⊎ ((r.code ≢ 0) × (r.code ≢ 6) × (r.dir ≡ dir))

  obtain_lem :
      (host : Host) (o : Options) (dir : Directory)
      → Restored dir (obtain sha256 m host o dir (dir m.archive))
  obtain_lem host o dir = elim (Option-cases (dir m.archive)) [
    | inl none_there ↦ rw none_there (restore_lem host dir)
    | inr (b, there) ↦ rw there (elim (Bool-cases (is_original sha256 m b)) [
      | inl good ↦ let (sum, size) = original b good in rw good (inl (refl, (b, there, sum, size)))
      | inr bad ↦ rw bad (forced o.force)
    ])
  ]
    where
      forced : (f : Bool) → Restored dir (if f then restore sha256 m host dir else exit 5 dir)
      forced true = restore_lem host dir
      forced false = kept dir 5 (ground arith) (ground arith)

  remove_all_lem :
      (dir : Directory) (ps : List Part)
      → All (λ p. p.name ≢ m.archive) ps
      → remove_all sha256 dir ps m.archive ≡ dir m.archive
  unfolding remove_all
  remove_all_lem dir [] _ = refl
  remove_all_lem dir (p ∷ ps) (other, others) =
      let differs : (m.archive == p.name) ≡ false =
        ==_apart m.archive p.name (λ e. other (sym e)) in
      remove_all_lem (erase dir p.name) ps others ∙ rw differs refl

  -- Where no part has the archive's name, and whatever the options and the host do, the script ends
  -- in one of two ways. With status 0 or 6 the directory holds an archive with the recorded checksum
  -- and size; with any other status it is as it was, so no part is removed.
  pub assemble-Settled :
      (host : Host) (o : Options) (dir : Directory)
      → All (λ p. p.name ≢ m.archive) m.parts
      → Settled dir (assemble sha256 m host o dir)
  unfolding assemble
  assemble-Settled host o dir apart =
      let r = obtain sha256 m host o dir (dir m.archive) in
      elim (obtain_lem host o dir) [
        | inl (done, held) ↦
            let same = (==_iff r.code 0).1 done in
            rw same (inl (load_code_lem o.load o.runtime, cleaned o.remove_parts r.dir held))
        | inr (not_0, not_6, same) ↦
            let failed : (r.code == 0) ≡ false = ground arith in
            rw failed (inr (not_0, not_6, same))
      ]
    where
      load_code_lem :
          (load : Bool) (runtime : Option Bool)
          → let code = if load then load_code sha256 runtime else 0 in (code ≡ 0) ⊎ (code ≡ 6)
      load_code_lem false _ = inl refl
      load_code_lem true none = inr refl
      load_code_lem true (some true) = inl refl
      load_code_lem true (some false) = inr refl

      cleaned :
          (remove : Bool) (d : Directory)
          → HasArchive d
          → HasArchive (if remove then remove_all sha256 d m.parts else d)
      cleaned false d h = h
      cleaned true d (b, found, sum, size) = (b, remove_all_lem d m.parts apart ∙ found, sum, size)
