-- ===== src/Core/Specification/Idempotent.antt =====
-- Validating a specification that was validated.
use layersmith.Prelude.{
  ◌+◌, ◌≡◌, ◌≢◌, refl, sym, ap, subst, true, false, Option, some, List, [], ◌∷◌, ltb, ◌==◌, nat_eq,
  list_eq, list_beq, length, contains, Bool-cases, inl, inr,
}
use layersmith.Prelude.Result.{
  Result, ok, err, >>=-eq-ok, ok-apart, map_ok, map_ok-map_ok, length-map_ok,
}
use layersmith.Prelude.Text.{Str, text}
use layersmith.Core.Patterns.{InvalidSpec, refused, check_path, or_text, max_entries}
use layersmith.Core.Patterns.Checked.{check_path-check_path}
use layersmith.Core.Catalog.{find_key, defined, architectures, presets_by_name}
use layersmith.Core.Specification.Entries.{
  Tool, check_packages, check_tool, check_file, check_script, check_variable, check_label,
  check_user, check_tests,
}
use layersmith.Core.Specification.Again.{
  tests_ok, check_packages-check_packages, check_tool-check_tool, check_file-check_file,
  check_tests-check_tests,
}
use layersmith.Core.Specification.Same.{
  check_script_same, check_label_same, check_variable_same, same_again, check_user-check_user,
}
use layersmith.Core.Specification.{
  Spec, check_base, check_architecture, check_preset, check_count, check_workdir, check_rest,
  validate_spec,
}
use layersmith.Core.Specification.Distribution.{check_base-check_base}

check_architecture-check_architecture :
    (o : Option Str) (a : Str) → check_architecture o ≡ ok a → check_architecture (some a) ≡ ok a
unfolding check_architecture list_beq
check_architecture-check_architecture o a h =
    elim (Bool-cases (contains architectures (or_text (text "amd64") o))) [
      | inr other ↦ absurd (no_error (rw other at h))
      | inl known ↦
          subst (λ x. check_architecture (some x) ≡ ok x) (ok-apart (rw known at h))
            (go (or_text (text "amd64") o) known)
    ]
  where
    no_error : {e : InvalidSpec} → ◌≢◌ {A = Result InvalidSpec Str} (err e) (ok a)
    no_error e = cc

    go : (x : Str) → contains architectures x ≡ true → check_architecture (some x) ≡ ok x
    go [] known = cc
    go (c ∷ s) known = rw known refl

pub check_preset_same : (x y : Str) → check_preset x ≡ ok y → x ≡ y
unfolding check_preset
check_preset_same x y h = elim (Bool-cases (defined (find_key presets_by_name x))) [
  | inl known ↦ ok-apart (rw known at h)
  | inr other ↦ absurd (no_error (rw other at h))
]
  where
    no_error : {e : InvalidSpec} → ◌≢◌ {A = Result InvalidSpec Str} (err e) (ok y)
    no_error e = cc

check_workdir-check_workdir : (w v : Str) → check_workdir w ≡ ok v → check_workdir v ≡ ok v
unfolding check_workdir
check_workdir-check_workdir w v h = elim (Bool-cases (w == [])) [
  | inl empty ↦ subst (λ x. check_workdir x ≡ ok x) (ok-apart (rw empty at h)) (rw empty refl)
  | inr given ↦ go (check_path-check_path (some w) (text "working directory") v (rw given at h))
]
  where
    go : check_path (some v) (text "working directory") ≡ ok v → check_workdir v ≡ ok v
    go again = elim (Bool-cases (v == [])) [ inl e ↦ rw e refl | inr e ↦ rw (e, again) refl ]

check_rest-check_rest : (s t : Spec) → check_rest s ≡ ok t → check_rest t ≡ ok t
unfolding check_rest
check_rest-check_rest s t h =
    let (files, h_files, h1) = >>=-eq-ok (map_ok check_file s.files) _ h in
    let (scripts, h_scripts, h2) = >>=-eq-ok (map_ok check_script s.scripts) _ h1 in
    let (env, h_env, h3) = >>=-eq-ok (map_ok check_variable s.env) _ h2 in
    let (labels, h_labels, h4) = >>=-eq-ok (map_ok check_label s.labels) _ h3 in
    let (user, h_user, h5) = >>=-eq-ok (check_user s.user) _ h4 in
    let (workdir, h_workdir, h6) = >>=-eq-ok (check_workdir s.workdir) _ h5 in
    let (tests, h_tests, h7) = >>=-eq-ok (check_tests s.tests) _ h6 in
    subst (λ (x : Spec). check_rest x ≡ ok x) (ok-apart h7)
      (again
        (record s {
          files = files;
          scripts = scripts;
          env = env;
          labels = labels;
          user = user;
          workdir = workdir;
          tests = tests;
        })
        (map_ok-map_ok check_file check_file-check_file s.files files h_files)
        (map_ok-map_ok check_script (same_again check_script check_script_same) s.scripts scripts
          h_scripts)
        (map_ok-map_ok check_variable (same_again check_variable check_variable_same) s.env env
          h_env)
        (map_ok-map_ok check_label (same_again check_label check_label_same) s.labels labels
          h_labels)
        (check_user-check_user s.user user h_user)
        (check_workdir-check_workdir s.workdir workdir h_workdir)
        (check_tests-check_tests s.tests tests h_tests))
  where
    again :
        (u : Spec)
        → map_ok check_file u.files ≡ ok u.files
        → map_ok check_script u.scripts ≡ ok u.scripts
        → map_ok check_variable u.env ≡ ok u.env
        → map_ok check_label u.labels ≡ ok u.labels
        → check_user u.user ≡ ok u.user
        → check_workdir u.workdir ≡ ok u.workdir
        → check_tests u.tests ≡ ok u.tests
        → check_rest u ≡ ok u
    again u a b c d e f g = rw (a, b, c, d, e, f, g) refl

pub check_count_ok :
    (s : Spec) (ts us : List Tool)
    → check_count s ts ≡ ok us
    → ltb max_entries (length s.files + length ts) ≡ false
check_count_ok s ts us h =
    (tests_ok false (ltb max_entries (length s.files + length ts)) (refused []) _ ts us h).1

-- What the checks of the second half leave alone
abbrev pub Keeps : Spec → Spec → Type 0
Keeps s t =
    (t.base ≡ s.base)
    × (t.architecture ≡ s.architecture)
    × (t.packages ≡ s.packages)
    × (t.extra_packages ≡ s.extra_packages)
    × (t.presets ≡ s.presets)
    × (t.tools ≡ s.tools)
    × (length t.files ≡ length s.files)

pub check_rest-Keeps : (s t : Spec) → check_rest s ≡ ok t → Keeps s t
unfolding check_rest
check_rest-Keeps s t h =
    let (files, h_files, h1) = >>=-eq-ok (map_ok check_file s.files) _ h in
    let (scripts, h_scripts, h2) = >>=-eq-ok (map_ok check_script s.scripts) _ h1 in
    let (env, h_env, h3) = >>=-eq-ok (map_ok check_variable s.env) _ h2 in
    let (labels, h_labels, h4) = >>=-eq-ok (map_ok check_label s.labels) _ h3 in
    let (user, h_user, h5) = >>=-eq-ok (check_user s.user) _ h4 in
    let (workdir, h_workdir, h6) = >>=-eq-ok (check_workdir s.workdir) _ h5 in
    let (tests, h_tests, h7) = >>=-eq-ok (check_tests s.tests) _ h6 in
    subst (Keeps s) (ok-apart h7)
      (refl, refl, refl, refl, refl, refl, length-map_ok check_file s.files files h_files)

-- Checks that all succeed without a change, for a specification whose architecture is set
validate_again :
    (t : Spec) (a : Str)
    → check_base t.base ≡ ok t.base
    → check_architecture (some a) ≡ ok a
    → check_packages t.packages ≡ ok t.packages
    → check_packages t.extra_packages ≡ ok t.extra_packages
    → map_ok check_preset t.presets ≡ ok t.presets
    → map_ok (check_tool a) t.tools ≡ ok t.tools
    → ltb max_entries (length t.files + length t.tools) ≡ false
    → check_rest (record t { architecture = some a }) ≡ ok (record t { architecture = some a })
    → validate_spec (record t { architecture = some a }) ≡ ok (record t { architecture = some a })
unfolding validate_spec
validate_again t a b c d e f g n h = rw (b, c, d, e, f, g, n) h

-- Validating what validation returned changes nothing.
pub validate_spec-validate_spec : (s t : Spec) → validate_spec s ≡ ok t → validate_spec t ≡ ok t
unfolding validate_spec
validate_spec-validate_spec s t h =
    let (base, h_base, h1) = >>=-eq-ok (check_base s.base) _ h in
    let (a, h_architecture, h2) = >>=-eq-ok (check_architecture s.architecture) _ h1 in
    let (packages, h_packages, h3) = >>=-eq-ok (check_packages s.packages) _ h2 in
    let (extra, h_extra, h4) = >>=-eq-ok (check_packages s.extra_packages) _ h3 in
    let (presets, h_presets, h5) = >>=-eq-ok (map_ok check_preset s.presets) _ h4 in
    let (tools, h_tools, h6) = >>=-eq-ok (map_ok (check_tool a) s.tools) _ h5 in
    let (counted, h_count, h7) = >>=-eq-ok (check_count s tools) _ h6 in
    let (k_base, k_a, k_packages, k_extra, k_presets, k_tools, k_files) = check_rest-Keeps _ t h7 in
    let same : t ≡ record t { architecture = some a } =
      ap (λ o. record t { architecture = o }) k_a in
    subst (λ x. validate_spec x ≡ ok x) (sym same)
      (validate_again t a
        (subst (λ x. check_base x ≡ ok x) (sym k_base) (check_base-check_base s.base base h_base))
        (check_architecture-check_architecture s.architecture a h_architecture)
        (subst (λ x. check_packages x ≡ ok x) (sym k_packages)
          (check_packages-check_packages s.packages packages h_packages))
        (subst (λ x. check_packages x ≡ ok x) (sym k_extra)
          (check_packages-check_packages s.extra_packages extra h_extra))
        (subst (λ x. map_ok check_preset x ≡ ok x) (sym k_presets)
          (map_ok-map_ok check_preset (same_again check_preset check_preset_same) s.presets presets
            h_presets))
        (subst (λ x. map_ok (check_tool a) x ≡ ok x) (sym k_tools)
          (map_ok-map_ok (check_tool a) (check_tool-check_tool a) s.tools tools h_tools))
        (rw (k_files, k_tools) (check_count_ok s tools counted h_count))
        (subst (λ x. check_rest x ≡ ok x) same (check_rest-check_rest _ t h7)))
