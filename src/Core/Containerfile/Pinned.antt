-- ===== src/Core/Containerfile/Pinned.antt =====
-- The repository of a base image that is pinned by its digest.
use layersmith.Prelude.{
  ℕ, ◌≡◌, ◌≢◌, ◌⊎◌, refl, sym, ap, subst, ◌∙◌, false, Option, none, some, [], ◌∷◌, ◌++◌, ◌&&◌, not,
  ◌==◌, nat_eq, list_eq, contains, Bool-cases, inl, inr, arith,
}
use layersmith.Prelude.Result.{Result, ok, >>=-eq-ok, ok-apart}
use layersmith.Prelude.Text.{Str, text}
use layersmith.Prelude.Strings.{cut_first, cut_last}
use layersmith.Core.Patterns.{InvalidSpec, check, digest_re, tag_re}
use layersmith.Core.Reference.{Reference, Cut, digest_of, tag_of, host_and, parse_reference}
use layersmith.Core.Reference.Source.{parse_reference-HasCuts}
use layersmith.Core.Containerfile.{before, base_repository, from_line}

-- The name that is left is what stands before the mark.
digest_of-before :
    (value name : Str) (d : Option Str) (o : Option (Str × Str))
    → digest_of value o ≡ ok (name, d)
    → before value o ≡ name
digest_of-before value name d none h = ap (λ (x : Cut). x.0) (ok-apart h)
digest_of-before value name d (some (a, b)) h =
    let (v, checked, rest) =
      >>=-eq-ok (check digest_re (some b) (text "image digest")) (λ v. ok (a, some b)) h in
    ap (λ (x : Cut). x.0) (ok-apart rest)

-- Where there is a tag, the last colon is before it.
tag_of-before :
    (value name : Str) (t : Str) (o : Option (Str × Str))
    → tag_of value o ≡ ok (name, some t)
    → before value o ≡ name
tag_of-before value name t none h = absurd cc
tag_of-before value name t (some (a, b)) h =
    elim (Bool-cases (not (a == []) && not (contains b 47))) [
      | inr no_tag ↦ absurd (plain (rw no_tag at h))
      | inl is_tag ↦
          let (v, checked, rest) =
            >>=-eq-ok (check tag_re (some b) (text "image tag")) (λ v. ok (a, some v))
              (rw is_tag at h) in
          ap (λ (x : Cut). x.0) (ok-apart rest)
    ]
  where
    plain : ◌≢◌ {A = Result InvalidSpec Cut} (ok (value, none)) (ok (name, some t))
    plain e = cc

-- Without a tag, the last colon is the one before the port of the registry, if there is one.
tag_of-same :
    (value name : Str) (o : Option (Str × Str)) → tag_of value o ≡ ok (name, none) → value ≡ name
tag_of-same value name none h = ap (λ (x : Cut). x.0) (ok-apart h)
tag_of-same value name (some (a, b)) h = elim (Bool-cases (not (a == []) && not (contains b 47))) [
  | inr no_tag ↦ ap (λ (x : Cut). x.0) (ok-apart (rw no_tag at h))
  | inl is_tag ↦
      let (v, checked, rest) =
        >>=-eq-ok (check tag_re (some b) (text "image tag")) (λ v. ok (a, some v))
          (rw is_tag at h) in
      absurd (tagged rest)
]
  where
    tagged : {v : Str} → ◌≢◌ {A = Result InvalidSpec Cut} (ok (a, some v)) (ok (name, none))
    tagged e = cc

cut_last_absent : (sep : ℕ) (s : Str) → contains s sep ≡ false → cut_last sep s ≡ none
unfolding cut_last
cut_last_absent sep [] h = refl
cut_last_absent sep (c ∷ s) h =
    let later : contains s sep ≡ false = ground arith in
    let other : (c == sep) ≡ false = ground arith in rw (cut_last_absent sep s later, other) refl

before_colon :
    (name path : Str) (tag : Option Str)
    → tag_of name (cut_last 58 name) ≡ ok (path, tag)
    → (tag ≢ none) ⊎ (contains path 58 ≡ false)
    → before name (cut_last 58 name) ≡ path
before_colon name path (some t) cut h = tag_of-before name path t (cut_last 58 name) cut
before_colon name path none cut (inl tagged) = absurd (tagged refl)
before_colon name path none cut (inr no_colon) =
    let same = tag_of-same name path (cut_last 58 name) cut in
    let none_here =
      cut_last_absent 58 name (subst (λ x. contains x 58 ≡ false) (sym same) no_colon) in
    rw none_here same

-- A base image that is pinned keeps its registry and repository: `generate` puts the digest behind them, where
-- the reference has a tag, or neither the registry nor the repository has a colon.
from_line-parse_reference :
    (reference : Option Str) (r : Reference) (digest : Str)
    → parse_reference reference ≡ ok r
    → (r.tag ≢ none) ⊎ (contains (host_and r.registry r.repository) 58 ≡ false)
    → from_line r.source (some digest)
      ≡ text "FROM " ++ (host_and r.registry r.repository ++ (64 ∷ digest))
unfolding from_line base_repository
from_line-parse_reference reference r digest h no_port =
    let (name, path, (cut, cut_tag, path_is, source)) = parse_reference-HasCuts reference r h in
    let name_is = digest_of-before r.source name r.digest (cut_first 64 r.source) cut in
    let plain = subst (λ x. (r.tag ≢ none) ⊎ (contains x 58 ≡ false)) path_is no_port in
    let repository = before_colon name path r.tag cut_tag plain in
    ap (λ x. text "FROM " ++ (x ++ (64 ∷ digest)))
      (ap (λ n. before n (cut_last 58 n)) name_is ∙ repository ∙ sym path_is)
