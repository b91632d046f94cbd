-- ===== src/Scanning/Records/Counts.antt =====
-- The counts of a scan's findings.
use layersmith.Prelude.{
  ℕ, ◌+◌, ◌≡◌, List, [], ◌∷◌, ◌&&◌, ◌==◌, ==_iff, nat_eq, list_eq, if◌then◌else◌, Bool-cases, inl,
  inr, arith,
}
use layersmith.Prelude.Text.{Str}
use layersmith.Prelude.Map.{empty}
use layersmith.Scanning.Records.{Finding, Counts, count_one, count_all, level_count}

-- The findings of a kind and a severity, counted one by one
abbrev pub tally : Str → Str → List Finding → ℕ
tally kind level [] = 0
tally kind level (f ∷ fs) =
    (if kind == f.kind && level == f.severity then 1 else 0) + tally kind level fs

level_count-count_one :
    (counts : Counts) (f : Finding) (kind level : Str)
    → level_count (count_one counts f) kind level
      ≡ level_count counts kind level + (if kind == f.kind && level == f.severity then 1 else 0)
unfolding level_count
level_count-count_one counts f kind level = elim (Bool-cases (kind == f.kind)) [
  | inr other ↦ rw other (omega arith)
  | inl same ↦ elim (Bool-cases (level == f.severity)) [
    | inr other ↦ rw (same, other) (rw ((==_iff kind f.kind).0 same) (omega arith))
    | inl equal ↦
        rw (same, equal)
          (rw ((==_iff kind f.kind).0 same, (==_iff level f.severity).0 equal) (omega arith))
  ]
]

level_count-count_all :
    (counts : Counts) (fs : List Finding) (kind level : Str)
    → level_count (count_all counts fs) kind level
      ≡ level_count counts kind level + tally kind level fs
unfolding count_all
level_count-count_all counts [] kind level = omega arith
level_count-count_all counts (f ∷ fs) kind level = omega (
  arith,
  level_count-count_all (count_one counts f) fs kind level,
  level_count-count_one counts f kind level,
)

-- What `summarise` reads from the counts that `_record` makes is, for each kind and severity, the number of
-- such findings.
count_all_lem :
    (fs : List Finding) (kind level : Str)
    → level_count (count_all empty fs) kind level ≡ tally kind level fs
unfolding level_count
count_all_lem fs kind level = omega (arith, level_count-count_all empty fs kind level)
