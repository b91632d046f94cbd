-- ===== src/Core/Reference/Source.antt =====
-- The source of a parsed reference.
use layersmith.Prelude.{
  ◌≡◌, ◌≢◌, refl, sym, ap, subst, ◌∙◌, true, Option, none, some, List, [], ◌∷◌, ◌++◌, ◌&&◌, not,
  ◌==◌, nat_eq, list_eq, contains, Bool-cases, inl, inr, All,
}
use layersmith.Prelude.Result.{Result, ok, err, ◌>>=◌, >>=-eq-ok, ok-apart}
use layersmith.Prelude.Text.{Str, text}
use layersmith.Prelude.Pattern.{all_in, anchored}
use layersmith.Prelude.Strings.{split, join, cut_first, cut_last}
use layersmith.Prelude.Strings.Cuts.{join-split, cut_first_lem, cut_last_lem, strip-solid}
use layersmith.Core.Patterns.{
  InvalidSpec, check, stripped, reference_re, digest_re, tag_re, registry_re,
}
use layersmith.Core.Patterns.Checked.{check_ok, check-stripped}
use layersmith.Core.Reference.Solid.{
  Solid, check-Solid, Solid-left, Solid-right, check_parts_lem, stripped-Solid, split-Solid,
  Solid-tail,
}
use layersmith.Core.Reference.{
  Reference, Cut, digest_of, tag_of, is_registry, registry_of, check_parts, host_and, with_mark,
  build_reference, parse_parts, parse_name, parse_tag, parse_value, parse_reference,
}

-- What was cut off, put back, gives the text.
digest_of_lem :
    (value name : Str) (d : Option Str)
    → Solid value
    → digest_of value (cut_first 64 value) ≡ ok (name, d)
    → (with_mark 64 name d ≡ value) × Solid name
digest_of_lem value name d solid h = go (cut_first 64 value) refl h
  where
    injective : {x y : Cut} → ◌≡◌ {A = Result InvalidSpec Cut} (ok x) (ok y) → x ≡ y
    injective e = cc

    back :
        (a b : Str)
        → cut_first 64 value ≡ some (a, b)
        → ◌≡◌ {A = Cut} (a, some b) (name, d)
        → (with_mark 64 name d ≡ value) × Solid name
    back a b e same =
        let whole = cut_first_lem 64 value a b e in
        subst (λ (x : Cut). (with_mark 64 x.0 x.1 ≡ value) × Solid x.0) same
          (whole, Solid-left a (64 ∷ b) (rw whole solid))

    go :
        (o : Option (Str × Str))
        → cut_first 64 value ≡ o
        → digest_of value o ≡ ok (name, d)
        → (with_mark 64 name d ≡ value) × Solid name
    go none e h =
        subst (λ (x : Cut). (with_mark 64 x.0 x.1 ≡ value) × Solid x.0) (injective h) (refl, solid)
    go (some (a, b)) e h =
        let (v, checked, rest) =
          >>=-eq-ok (check digest_re (some b) (text "image digest")) (λ v. ok (a, some b)) h in
        back a b e (injective rest)

tag_of_lem :
    (value name : Str) (t : Option Str)
    → Solid value
    → tag_of value (cut_last 58 value) ≡ ok (name, t)
    → (with_mark 58 name t ≡ value) × Solid name
tag_of_lem value name t solid h = go (cut_last 58 value) refl h
  where
    injective : {x y : Cut} → ◌≡◌ {A = Result InvalidSpec Cut} (ok x) (ok y) → x ≡ y
    injective e = cc

    whole_value :
        ◌≡◌ {A = Result InvalidSpec Cut} (ok (value, none)) (ok (name, t))
        → (with_mark 58 name t ≡ value) × Solid name
    whole_value h =
        subst (λ (x : Cut). (with_mark 58 x.0 x.1 ≡ value) × Solid x.0) (injective h) (refl, solid)

    go :
        (o : Option (Str × Str))
        → cut_last 58 value ≡ o
        → tag_of value o ≡ ok (name, t)
        → (with_mark 58 name t ≡ value) × Solid name
    go none e h = whole_value h
    go (some (a, b)) e h = elim (Bool-cases (not (a == []) && not (contains b 47))) [
      | inr no_tag ↦ whole_value (rw no_tag at h)
      | inl is_tag ↦
          let (v, checked, rest) =
            >>=-eq-ok (check tag_re (some b) (text "image tag")) (λ v. ok (a, some v))
              (rw is_tag at h) in
          let whole = cut_last_lem 58 value a b e in
          let all_solid : Solid (a ++ (58 ∷ b)) = rw whole solid in
          let right : Solid b = Solid-tail 58 b (Solid-right a (58 ∷ b) all_solid) in
          let same : v ≡ b = check-Solid tag_re b (text "image tag") v right checked in
          subst (λ (x : Cut). (with_mark 58 x.0 x.1 ≡ value) × Solid x.0) (injective rest)
            (rw same whole, Solid-left a (58 ∷ b) all_solid)
    ]

join_two :
    (p q : Str) (ps : List Str) → p ++ (47 ∷ join (47 ∷ []) (q ∷ ps)) ≡ join (47 ∷ []) (p ∷ q ∷ ps)
unfolding join
join_two p q ps = refl

abbrev Parts : Type 0
Parts = Option Str × List Str

abbrev Joined : List Str → Parts → Type 0
Joined ps (r, qs) = (host_and r (join (47 ∷ []) qs) ≡ join (47 ∷ []) ps) × All Solid qs

plain_parts :
    (ps : List Str) (x : Parts)
    → All Solid ps
    → ◌≡◌ {A = Result InvalidSpec Parts} (ok (none, ps)) (ok x)
    → Joined ps x
plain_parts ps x a h = subst (Joined ps) (injective h) (refl, a)
  where
    injective : {x y : Parts} → ◌≡◌ {A = Result InvalidSpec Parts} (ok x) (ok y) → x ≡ y
    injective e = cc

registry_of_lem : (ps : List Str) (x : Parts) → All Solid ps → registry_of ps ≡ ok x → Joined ps x
registry_of_lem [] x a h = plain_parts [] x a h
registry_of_lem (p ∷ []) x a h = plain_parts (p ∷ []) x a h
registry_of_lem (p ∷ q ∷ ps) x (solid, a) h = elim (Bool-cases (is_registry p)) [
  | inr other ↦ plain_parts (p ∷ q ∷ ps) x (solid, a) (rw other at h)
  | inl named ↦
      let (v, checked, rest) =
        >>=-eq-ok (check registry_re (some p) (text "registry host")) (λ v. ok (some v, q ∷ ps))
          (rw named at h) in
      let same : v ≡ p = check-Solid registry_re p (text "registry host") v solid checked in
      subst (Joined (p ∷ q ∷ ps)) (injective rest) (first v same, a)
]
  where
    injective : {x y : Parts} → ◌≡◌ {A = Result InvalidSpec Parts} (ok x) (ok y) → x ≡ y
    injective e = cc

    first : (v : Str) → v ≡ p → v ++ (47 ∷ join (47 ∷ []) (q ∷ ps)) ≡ join (47 ∷ []) (p ∷ q ∷ ps)
    first v same = rw same (join_two p q ps)

-- The reference that is built of its parts
abbrev built_of : Option Str → Option Str → Option Str → Str → Reference
built_of digest tag registry repository = record {
  registry = registry;
  repository = repository;
  tag = tag;
  digest = digest;
  source = with_mark 64 (with_mark 58 (host_and registry repository) tag) digest;
}

build_reference_ok :
    (original : Str) (digest tag registry : Option Str) (repository : Str) (r : Reference)
    → build_reference original digest tag registry repository ≡ ok r
    → built_of digest tag registry repository ≡ r
build_reference_ok original digest tag registry repository r h =
    elim (Bool-cases (repository == [])) [
      | inl gone ↦ absurd (err_ok (rw gone at h))
      | inr there ↦ ok-apart (rw there at h)
    ]
  where
    err_ok : {e : InvalidSpec} → ◌≢◌ {A = Result InvalidSpec Reference} (err e) (ok r)
    err_ok e = cc

-- How a value is cut into the parts of its reference
abbrev HasCuts : Str → Str → Str → Reference → Type 0
HasCuts value name path r =
    (digest_of value (cut_first 64 value) ≡ ok (name, r.digest))
    × (tag_of name (cut_last 58 name) ≡ ok (path, r.tag))
    × (host_and r.registry r.repository ≡ path)
    × (r.source ≡ with_mark 64 (with_mark 58 path r.tag) r.digest)

parse_value-HasCuts :
    (value : Str) (r : Reference)
    → Solid value
    → parse_value value ≡ ok r
    → (name : Str) × (path : Str) × HasCuts value name path r
parse_value-HasCuts value r solid h =
    let ((name, digest), cut, rest) =
      >>=-eq-ok (digest_of value (cut_first 64 value)) (parse_tag value) h in
    let (whole, name_solid) = digest_of_lem value name digest solid cut in
    let ((path, tag), cut_tag, rest_tag) =
      >>=-eq-ok (tag_of name (cut_last 58 name)) (parse_name value digest) rest in
    let (whole_name, path_solid) = tag_of_lem name path tag name_solid cut_tag in
    let ((registry, ps), found, rest_parts) =
      >>=-eq-ok (registry_of (split 47 path)) (parse_parts value digest tag) rest_tag in
    let (joined, ps_solid) =
      registry_of_lem (split 47 path) (registry, ps) (split-Solid 47 path path_solid) found in
    let (qs, checked, built) =
      >>=-eq-ok (check_parts ps)
        (λ qs. build_reference value digest tag registry (join (47 ∷ []) qs)) rest_parts in
    let same : qs ≡ ps = check_parts_lem ps qs ps_solid checked in
    let path_is : host_and registry (join (47 ∷ []) qs) ≡ path =
      rw same (joined ∙ join-split 47 path) in
    let done = build_reference_ok value digest tag registry (join (47 ∷ []) qs) r built in
    (
      name,
      path,
      subst (HasCuts value name path) done
          (cut, cut_tag, path_is, ap (λ x. with_mark 64 (with_mark 58 x tag) digest) path_is),
    )

parse_value_lem :
    (value : Str) (r : Reference) → Solid value → parse_value value ≡ ok r → r.source ≡ value
parse_value_lem value r solid h =
    let (name, path, (cut, cut_tag, path_is, source)) = parse_value-HasCuts value r solid h in
    let (whole, name_solid) = digest_of_lem value name r.digest solid cut in
    let (whole_name, path_solid) = tag_of_lem name path r.tag name_solid cut_tag in
    source ∙ ap (λ x. with_mark 64 x r.digest) whole_name ∙ whole

stripped_ok :
    (reference : Option Str) (v : Str)
    → stripped reference ≡ v
    → anchored reference_re v ≡ true
    → Solid v
unfolding all_in
stripped_ok none v e m = subst (λ x. Solid x) e refl
stripped_ok (some s) v e m =
    subst (λ x. Solid x) e
      (stripped-Solid s (subst (λ x. anchored reference_re x ≡ true) (sym e) m))

-- A reference that was parsed, and the cuts of its source
pub parse_reference-HasCuts :
    (reference : Option Str) (r : Reference)
    → parse_reference reference ≡ ok r
    → (name : Str) × (path : Str) × HasCuts r.source name path r
unfolding parse_reference
parse_reference-HasCuts reference r h =
    let (v, checked, rest) =
      >>=-eq-ok (check reference_re reference (text "image reference")) parse_value h in
    let (e, matched) = check_ok reference_re reference (text "image reference") v checked in
    let solid : Solid v = stripped_ok reference v e matched in
    let (name, path, cuts) = parse_value-HasCuts v r solid rest in
    (name, path, subst (λ x. HasCuts x name path r) (sym (parse_value_lem v r solid rest)) cuts)

-- The source of a parsed reference is the text that was given, without the white space around it,
-- and parsing the source gives the same reference again.
pub parse_reference-source :
    (reference : Option Str) (r : Reference)
    → parse_reference reference ≡ ok r
    → (r.source ≡ stripped reference) × (parse_reference (some r.source) ≡ ok r)
unfolding parse_reference
parse_reference-source reference r h =
    let what = text "image reference" in
    let (v, checked, rest) = >>=-eq-ok (check reference_re reference what) parse_value h in
    let (e, matched) = check_ok reference_re reference what v checked in
    let solid : Solid v = stripped_ok reference v e matched in
    let source : r.source ≡ v = parse_value_lem v r solid rest in
    let again : stripped (some r.source) ≡ stripped reference =
      rw source (strip-solid v solid ∙ sym e) in
    (
      source ∙ sym e,
      ap (λ c. c >>= parse_value) (check-stripped reference_re (some r.source) reference what again)
          ∙ h,
    )
