-- ===== src/Core/Specification/Sound.antt =====
-- What the checks of the base image, the architecture, the scripts and the user say of what they return.
use layersmith.Prelude.{
  ℕ, ◌≤◌, ◌≡◌, ◌≢◌, ◌⊎◌, refl, sym, ap, subst, ◌∙◌, Bool, true, false, not, Option, none, some, [],
  ◌∷◌, ltb, ◌==◌, ==_iff, nat_eq, list_eq, length, contains, Bool-cases, inl, inr, arith,
  if◌then◌else◌,
}
use layersmith.Prelude.Result.{Result, ok, err, >>=-eq-ok, ok-apart}
use layersmith.Prelude.Text.{Str, text}
use layersmith.Prelude.Strings.{strip}
use layersmith.Core.Patterns.{
  InvalidSpec, refused, or_text, check, user_re, shell_re, script_keys, max_script,
}
use layersmith.Core.Patterns.Checked.{check_ok, check-matches}
use layersmith.Core.Catalog.{Distro, find_key, defined, families, architectures, distros}
use layersmith.Core.Reference.{Reference, parse_reference}
use layersmith.Core.Specification.Again.{tests_ok}
use layersmith.Core.Specification.Distribution.{check_source_ok}
use layersmith.Core.Specification.Entries.{
  User, check_script, bad_id, check_ids, user_shell, check_user,
}
use layersmith.Core.Specification.{
  Base, with_version, with_distro, with_distribution, known_family, check_source, check_base,
  check_architecture,
}

-- A value that matches its pattern once the white space around it is removed
abbrev pub Passes : (Str → Bool) → Str → Type 0
Passes pattern s = pattern (strip s) ≡ true

pub check-Passes :
    (pattern : Str → Bool) (s what v : Str) → check pattern (some s) what ≡ ok v → Passes pattern s
check-Passes pattern s what v h =
    subst (λ x. pattern x ≡ true) (sym ((check_ok pattern (some s) what v h).0))
      (check-matches pattern (some s) what v h)

abbrev pub IsArchitecture : Option Str → Type 0
IsArchitecture a = (a ≡ some (text "amd64")) ⊎ (a ≡ some (text "arm64"))

pub check_architecture-IsArchitecture :
    (o : Option Str) (a : Str) → check_architecture o ≡ ok a → IsArchitecture (some a)
unfolding check_architecture architectures
check_architecture-IsArchitecture o a h = go (or_text (text "amd64") o) h
  where
    go :
        (x : Str)
        → (if contains (text "amd64" ∷ text "arm64" ∷ []) x
            then ok x
            else err (refused (text "Architecture must be amd64 or arm64")))
          ≡ ok a
        → IsArchitecture (some a)
    go x e = elim (Bool-cases (x == text "amd64")) [
      | inl first ↦
          inl
            (ap (λ y. some y) (sym (ok-apart (rw first at e)) ∙ (==_iff x (text "amd64")).0 first))
      | inr other ↦ elim (Bool-cases (x == text "arm64")) [
        | inl second ↦ inr (
            ap (λ y. some y)
              (sym (ok-apart (rw (other, second) at e)) ∙ (==_iff x (text "arm64")).0 second))
        | inr third ↦ absurd (no_error (rw (other, third) at e))
      ]
    ]
      where
        no_error : {m : InvalidSpec} → ◌≢◌ {A = Result InvalidSpec Str} (err m) (ok a)
        no_error m = cc

-- The key of a script is known, and its text has at most 64 Ki characters.
abbrev pub IsScript : Str × Str → Type 0
IsScript (key, body) =
    ((key ≡ text "pre_build") ⊎ (key ≡ text "post_install") ⊎ (key ≡ text "entrypoint"))
    × (length body ≤ 65_536)

pub check_script-IsScript : (s t : Str × Str) → check_script s ≡ ok t → IsScript t
unfolding check_script script_keys
check_script-IsScript (key, body) t h =
    let (known, short, same) =
      tests_ok (not (contains script_keys key)) (ltb max_script (length body))
        (refused (text "Unknown script")) (refused (text "Script")) (key, body) t h in
    subst IsScript same (named known, ground arith)
  where
    named :
        not (contains (text "pre_build" ∷ text "post_install" ∷ text "entrypoint" ∷ []) key) ≡ false
        → (key ≡ text "pre_build") ⊎ (key ≡ text "post_install") ⊎ (key ≡ text "entrypoint")
    named e = elim (Bool-cases (key == text "pre_build")) [
      | inl first ↦ inl ((==_iff _ _).0 first)
      | inr not_first ↦ elim (Bool-cases (key == text "post_install")) [
        | inl second ↦ inr (inl ((==_iff _ _).0 second))
        | inr not_second ↦ elim (Bool-cases (key == text "entrypoint")) [
          | inl third ↦ inr (inr ((==_iff _ _).0 third))
          | inr not_third ↦ cc (rw (not_first, not_second, not_third) at e)
        ]
      ]
    ]

-- A user's id is left out, or in the range that the code allows.
abbrev pub IsId : Option ℕ → Type 0
IsId none = Unit
IsId (some n) = (1 ≤ n) × (n ≤ 2_147_483_646)

abbrev pub IsShell : Option Str → Type 0
IsShell none = ⊥
IsShell (some s) = Passes shell_re s

-- There is no user, or one with a name, ids and a shell.
abbrev pub IsUser : User → Type 0
IsUser u = (u.name ≡ []) ⊎ (Passes user_re u.name × IsId u.uid × IsId u.gid × IsShell u.shell)

bad_id-IsId : (o : Option ℕ) → bad_id o ≡ false → IsId o
bad_id-IsId none h = tt
bad_id-IsId (some n) h = (ground arith, ground arith)

pub check_user-IsUser : (u v : User) → check_user u ≡ ok v → IsUser v
unfolding check_user
check_user-IsUser u v h = elim (Bool-cases (u.name == [])) [
  | inl nobody ↦
      inl (subst (λ x. x.name ≡ []) (ok-apart (rw nobody at h)) ((==_iff u.name []).0 nobody))
  | inr named ↦
      let (x, name, h1) =
        >>=-eq-ok (check user_re (some u.name) (text "user name")) _ (rw named at h) in
      let (w, ids, h2) = >>=-eq-ok (check_ids u) _ h1 in
      let (y, shell, h3) = >>=-eq-ok (check shell_re (some (user_shell u)) (text "shell")) _ h2 in
      let (uid, gid, same) =
        tests_ok (bad_id u.uid) (bad_id u.gid) (refused (text "Invalid uid"))
          (refused (text "Invalid gid")) u w ids in
      inr (
        subst (λ x. Passes user_re x.name × IsId x.uid × IsId x.gid × IsShell x.shell) (ok-apart h3)
          (
            check-Passes user_re u.name _ x name,
            bad_id-IsId u.uid uid,
            bad_id-IsId u.gid gid,
            check-Passes shell_re (user_shell u) _ y shell,
          ))
]

-- A base of no distribution, or of a known one in a known version, whose family it has
abbrev pub IsDistribution : Base → Type 0
IsDistribution b =
    (b.distribution ≡ [])
    ⊎ ((d : Distro) × (find_key distros b.distribution ≡ some d)
        × (defined (find_key d.versions b.version) ≡ true)
        × (b.family ≡ some d.family))

abbrev pub IsFamily : Option Str → Type 0
IsFamily none = ⊥
IsFamily (some f) = defined (find_key families f) ≡ true

-- The source of a base is a reference in its canonical form.
abbrev pub IsBase : Base → Type 0
IsBase b =
    ((r : Reference) × (b.source ≡ some r.source) × (parse_reference (some r.source) ≡ ok r))
    × IsFamily b.family
    × IsDistribution b

known_family-IsFamily : (o : Option Str) → known_family o ≡ true → IsFamily o
known_family-IsFamily none h = cc
known_family-IsFamily (some f) h = h

with_distribution-IsDistribution : (b c : Base) → with_distribution b ≡ ok c → IsDistribution c
with_distribution-IsDistribution b c h = elim (Bool-cases (b.distribution == [])) [
  | inl custom ↦ inl (
      subst (λ x. x.distribution ≡ []) (ok-apart (rw custom at h))
        ((==_iff b.distribution []).0 custom))
  | inr named ↦ with_name (find_key distros b.distribution) refl (rw named at h)
]
  where
    versioned :
        (d : Distro)
        → find_key distros b.distribution ≡ some d
        → (o : Option Str) → find_key d.versions b.version ≡ o
        → with_version b d o ≡ ok c
        → IsDistribution c
    versioned d e none f k = absurd cc
    versioned d e (some default) f k =
        subst IsDistribution (ok-apart k) (inr (d, e, ap defined f, refl))

    with_name :
        (o : Option Distro)
        → find_key distros b.distribution ≡ o
        → with_distro b o ≡ ok c
        → IsDistribution c
    with_name none e k = absurd cc
    with_name (some d) e k = versioned d e (find_key d.versions b.version) refl k

pub check_base-IsBase : (b c : Base) → check_base b ≡ ok c → IsBase c
unfolding check_base
check_base-IsBase b c h =
    let (x, named, rest) = >>=-eq-ok (with_distribution b) check_source h in
    let (r, known, parsed, e) = check_source_ok x c rest in
    subst IsBase e (
      (r, refl, parsed),
      known_family-IsFamily x.family known,
      with_distribution-IsDistribution b x named,
    )
