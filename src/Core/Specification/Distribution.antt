-- ===== src/Core/Specification/Distribution.antt =====
-- Checking a base image that was checked.
use layersmith.Prelude.{
  ◌≡◌, ◌≢◌, refl, sym, subst, true, false, Option, none, some, [], ◌∷◌, ◌==◌, nat_eq, list_eq,
  list_beq, Bool-cases, inl, inr,
}
use layersmith.Prelude.Result.{Result, ok, err, >>=-eq-ok, ok-apart}
use layersmith.Prelude.Text.{Str}
use layersmith.Core.Patterns.{InvalidSpec, or_text}
use layersmith.Core.Catalog.{Distro, find_key, distros}
use layersmith.Core.Reference.{Reference, parse_reference}
use layersmith.Core.Reference.Source.{parse_reference-source}
use layersmith.Core.Specification.{
  Base, with_version, with_distro, with_distribution, known_family, with_source, check_source,
  check_base,
}

-- The base with its source in canonical form
abbrev pub canonical : Base → Reference → Base
canonical base r = record base { source = some r.source }

with_source_ok :
    (base c : Base) (r : Reference)
    → with_source base r ≡ ok c
    → (known_family base.family ≡ true) × (canonical base r ≡ c)
with_source_ok base c r h = elim (Bool-cases (known_family base.family)) [
  | inl known ↦ (known, ok-apart (rw known at h))
  | inr other ↦ absurd (no_error (rw other at h))
]
  where
    no_error : {e : InvalidSpec} → ◌≢◌ {A = Result InvalidSpec Base} (err e) (ok c)
    no_error e = cc

source_filled :
    (r : Reference)
    → parse_reference (some r.source) ≡ ok r
    → (or_text [] (some r.source) == []) ≡ false
unfolding parse_reference list_beq
source_filled r h = go r.source h
  where
    go : (s : Str) → parse_reference (some s) ≡ ok r → (or_text [] (some s) == []) ≡ false
    go [] h = cc
    go (c ∷ s) h = refl

check_source-canonical :
    (base : Base) (r : Reference)
    → known_family base.family ≡ true
    → parse_reference (some r.source) ≡ ok r
    → check_source (canonical base r) ≡ ok (canonical base r)
check_source-canonical base r known parsed = rw (source_filled r parsed, parsed, known) refl

pub check_source_ok :
    (base c : Base)
    → check_source base ≡ ok c
    → (r : Reference) × (known_family base.family ≡ true)
      × (parse_reference (some r.source) ≡ ok r)
      × (canonical base r ≡ c)
check_source_ok base c h = elim (Bool-cases (or_text [] base.source == [])) [
  | inl empty ↦ absurd (no_error (rw empty at h))
  | inr filled ↦
      let (r, parsed, rest) =
        >>=-eq-ok (parse_reference base.source) (with_source base) (rw filled at h) in
      let (known, e) = with_source_ok base c r rest in
      (r, known, (parse_reference-source base.source r parsed).1, e)
]
  where
    no_error : {e : InvalidSpec} → ◌≢◌ {A = Result InvalidSpec Base} (err e) (ok c)
    no_error e = cc

-- What the distribution sets stays as it is.
with_version_again :
    (base b : Base) (d : Distro) (o : Option Str) (r : Reference)
    → with_version base d o ≡ ok b
    → with_version (canonical b r) d o ≡ ok (canonical b r)
with_version_again base b d none r h = absurd cc
with_version_again base b d (some default) r h =
    subst (λ (x : Base). with_version (canonical x r) d (some default) ≡ ok (canonical x r))
      (ok-apart h) refl

with_version_keeps :
    (base b : Base) (d : Distro) (o : Option Str)
    → with_version base d o ≡ ok b
    → (b.distribution ≡ base.distribution) × (b.version ≡ base.version)
with_version_keeps base b d none h = absurd cc
with_version_keeps base b d (some default) h =
    subst (λ (x : Base). (x.distribution ≡ base.distribution) × (x.version ≡ base.version))
      (ok-apart h) (refl, refl)

with_distribution_named :
    (c : Base) (d : Distro)
    → (c.distribution == []) ≡ false
    → find_key distros c.distribution ≡ some d
    → with_version c d (find_key d.versions c.version) ≡ ok c
    → with_distribution c ≡ ok c
with_distribution_named c d named known h = rw (named, known) h

with_distribution_again :
    (base b : Base) (r : Reference)
    → with_distribution base ≡ ok b
    → with_distribution (canonical b r) ≡ ok (canonical b r)
with_distribution_again base b r h = elim (Bool-cases (base.distribution == [])) [
  | inl custom ↦
      subst (λ (x : Base). with_distribution (canonical x r) ≡ ok (canonical x r))
        (ok-apart (rw custom at h)) (rw custom refl)
  | inr named ↦ go named (find_key distros base.distribution) refl (rw named at h)
]
  where
    go :
        (base.distribution == []) ≡ false
        → (o : Option Distro) → find_key distros base.distribution ≡ o
        → with_distro base o ≡ ok b
        → with_distribution (canonical b r) ≡ ok (canonical b r)
    go named none e h = absurd cc
    go named (some d) e h =
        let (same_name, same_version) =
          with_version_keeps base b d (find_key d.versions base.version) h in
        with_distribution_named (canonical b r) d (rw same_name named) (rw same_name e) (
          subst (λ v. with_version (canonical b r) d (find_key d.versions v) ≡ ok (canonical b r))
            (sym same_version) (with_version_again base b d (find_key d.versions base.version) r h))

pub check_base-check_base : (base c : Base) → check_base base ≡ ok c → check_base c ≡ ok c
unfolding check_base
check_base-check_base base c h =
    let (b, named, rest) = >>=-eq-ok (with_distribution base) check_source h in
    let (r, known, parsed, e) = check_source_ok b c rest in
    subst (λ (x : Base). check_base x ≡ ok x) e
      (both b r (with_distribution_again base b r named) known parsed)
  where
    both :
        (b : Base) (r : Reference)
        → with_distribution (canonical b r) ≡ ok (canonical b r)
        → known_family b.family ≡ true
        → parse_reference (some r.source) ≡ ok r
        → check_base (canonical b r) ≡ ok (canonical b r)
    both b r again known parsed = rw again (check_source-canonical b r known parsed)
