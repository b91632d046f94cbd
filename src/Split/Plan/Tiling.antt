-- ===== src/Split/Plan/Tiling.antt =====
-- The ranges of `plan` lie end to end and cover the archive.
use layersmith.Prelude.{
  ℕ, zero, suc, ◌+◌, ◌-◌, ◌≤◌, ◌<◌, min, ◌≡◌, refl, List, [], ◌∷◌, map, arith, All, ltb→lt,
  Bool-cases, inl, inr, ltb,
}
use layersmith.Prelude.Result.{ok}
use layersmith.Split.Plan.{Range, range_at, offsets, plan}

-- Ranges that lie end to end from `start` up to `end`.
abbrev pub Tiles : ℕ → ℕ → List Range → Type 0
Tiles start end [] = start ≡ end
Tiles start end (r ∷ rs) = (r.offset ≡ start) × Tiles (start + r.size) end rs

-- A size that every part may have
abbrev pub IsPart : ℕ → Range → Type 0
IsPart size r = (0 < r.size) × (r.size ≤ size)

-- Every range but the last is as long as a part may be.
abbrev FullButLast : ℕ → List Range → Type 0
FullButLast size [] = Unit
FullButLast size (r ∷ []) = Unit
FullButLast size (r ∷ s ∷ rs) = (r.size ≡ size) × FullButLast size (s ∷ rs)

module _ (total size : ℕ) where
  abbrev ranges_from : ℕ → ℕ → List Range
  ranges_from fuel offset = map (range_at total size) (offsets fuel offset total size)

  -- What the next offset starts at, when the offset lies inside the archive.
  next_start :
      (offset : ℕ)
      → offset < total
      → min (offset + size) total ≡ min offset total + min size (total - offset)
  next_start offset h = omega arith

  ranges_from-Tiles :
      (fuel offset : ℕ)
      → 0 < size
      → total ≤ offset + fuel
      → Tiles (min offset total) total (ranges_from fuel offset)
  unfolding offsets
  ranges_from-Tiles zero offset p enough = omega arith
  ranges_from-Tiles (suc fuel) offset p enough = elim (Bool-cases (ltb offset total)) [
    | inl more ↦ rw more (
      omega (arith, ltb→lt offset total more),
      rw (← next_start offset (ltb→lt offset total more))
          (ranges_from-Tiles fuel (offset + size) p (omega arith)),
    )
    | inr done ↦ rw done (ground arith)
  ]

  ranges_from-IsPart : (fuel offset : ℕ) → 0 < size → All (IsPart size) (ranges_from fuel offset)
  unfolding offsets
  ranges_from-IsPart zero offset p = tt
  ranges_from-IsPart (suc fuel) offset p = elim (Bool-cases (ltb offset total)) [
    | inl more ↦
        rw more (omega (arith, ltb→lt offset total more), ranges_from-IsPart fuel (offset + size) p)
    | inr done ↦ rw done tt
  ]

  ranges_from-FullButLast : (fuel offset : ℕ) → FullButLast size (ranges_from fuel offset)
  unfolding offsets
  ranges_from-FullButLast zero offset = tt
  ranges_from-FullButLast (suc zero) offset = elim (Bool-cases (ltb offset total)) [
    | inl more ↦ rw more tt
    | inr done ↦ rw done tt
  ]
  ranges_from-FullButLast (suc (suc fuel)) offset =
      let rest = ranges_from-FullButLast (suc fuel) (offset + size) in
      elim (Bool-cases (ltb offset total)) [
        | inl more ↦ elim (Bool-cases (ltb (offset + size) total)) [
          | inl again ↦
              rw (more, again) (omega (arith, ltb→lt (offset + size) total again), rw again at rest)
          | inr last ↦ rw (more, last) tt
        ]
        | inr done ↦ rw done tt
      ]

-- With a part size of at least 1, `plan` gives ranges that lie end to end from 0 to the archive's
-- size, and every range but the last has exactly the part size. In a non-empty archive each range
-- is at least 1 and at most the part size long.
pub plan-Tiles :
    (total size : ℕ)
    → 0 < size
    → (rs : List Range) × (plan total size ≡ ok rs)
      × Tiles 0 total rs
      × FullButLast size rs
      × (0 < total → All (IsPart size) rs)
unfolding plan
plan-Tiles zero size p =
    (record { offset = 0; size = 0 } ∷ [], refl, omega arith, tt, λ h. elim h [ ])
plan-Tiles (suc n) size p = (
  ranges_from (suc n) size (suc n) 0,
  ground arith,
  rw (zero_min) at (ranges_from-Tiles (suc n) size (suc n) 0 p (omega arith)),
  ranges_from-FullButLast (suc n) size (suc n) 0,
  λ h. ranges_from-IsPart (suc n) size (suc n) 0 p,
)
  where
    zero_min : min 0 (suc n) ≡ 0
    zero_min = omega arith
