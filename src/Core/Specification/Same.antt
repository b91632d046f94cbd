-- ===== src/Core/Specification/Same.antt =====
-- Checks that return their argument, and the user.
use layersmith.Prelude.{
  ◌≡◌, refl, subst, true, false, some, [], ◌||◌, not, ltb, ◌==◌, nat_eq, list_eq, length, contains,
  Bool-cases, inl, inr,
}
use layersmith.Prelude.Result.{Result, ok, >>=-eq-ok, ok-apart}
use layersmith.Prelude.Text.{Str, text}
use layersmith.Core.Patterns.{
  InvalidSpec, refused, check, env_name_re, label_re, user_re, shell_re, script_keys, max_script,
}
use layersmith.Core.Specification.Entries.{
  Variable, User, check_script, check_variable, check_label, check_ids, bad_id, sensitive_re,
  user_shell, check_user,
}
use layersmith.Core.Specification.Again.{tests_ok}

-- A check that returns its own argument
pub check_script_same : (x y : Str × Str) → check_script x ≡ ok y → x ≡ y
unfolding check_script
check_script_same (key, body) y h =
    (tests_ok (not (contains script_keys key)) (ltb max_script (length body)) _ _ (key, body) y h).2

pub check_label_same : (x y : Str × Str) → check_label x ≡ ok y → x ≡ y
unfolding check_label
check_label_same (key, value) y h =
    let (_, named, rest) = >>=-eq-ok (check label_re (some key) (text "label name")) _ h in
    (tests_ok false (contains value 10) (refused []) _ (key, value) y rest).2

pub check_variable_same : (x y : Variable) → check_variable x ≡ ok y → x ≡ y
unfolding check_variable
check_variable_same x y h =
    let (_, named, rest) =
      >>=-eq-ok (check env_name_re (some x.name) (text "environment variable name")) _ h in
    (tests_ok (sensitive_re x.name) (contains x.value 10 || ltb 1000 (length x.value)) _ _ x y
      rest).2

pub same_again :
    {A : Type 0} (f : A → Result InvalidSpec A)
    → ((x y : A) → f x ≡ ok y → x ≡ y)
    → (x y : A) → f x ≡ ok y
    → f y ≡ ok y
same_again f same x y h = subst (λ z. f z ≡ ok y) (same x y h) h

-- The user that the checks make
abbrev with_shell : User → User
with_shell u = record u { shell = some (user_shell u) }

user_again :
    (u v : User) (x y : Str)
    → (u.name == []) ≡ false
    → check user_re (some u.name) (text "user name") ≡ ok x
    → check_ids u ≡ ok v
    → check shell_re (some (user_shell u)) (text "shell") ≡ ok y
    → check_user (with_shell u) ≡ ok (with_shell u)
unfolding check_user
user_again u v x y named checked ids shell = rw (named, checked, ids_again u v ids, shell) refl
  where
    ids_again : (u v : User) → check_ids u ≡ ok v → check_ids (with_shell u) ≡ ok (with_shell u)
    ids_again u v ids =
        let (good_uid, good_gid, e) = tests_ok (bad_id u.uid) (bad_id u.gid) _ _ u v ids in
        rw (good_uid, good_gid) refl

pub check_user-check_user : (u v : User) → check_user u ≡ ok v → check_user v ≡ ok v
unfolding check_user
check_user-check_user u v h = elim (Bool-cases (u.name == [])) [
  | inl empty ↦ subst (λ x. check_user x ≡ ok x) (ok-apart (rw empty at h)) (no_name u empty)
  | inr named ↦
      let (x, checked, h1) =
        >>=-eq-ok (check user_re (some u.name) (text "user name")) _ (rw named at h) in
      let (w, ids, h2) = >>=-eq-ok (check_ids u) _ h1 in
      let (y, shell, h3) = >>=-eq-ok (check shell_re (some (user_shell u)) (text "shell")) _ h2 in
      subst (λ x. check_user x ≡ ok x) (ok-apart h3) (user_again u w x y named checked ids shell)
]
  where
    no_name : (u : User) → (u.name == []) ≡ true → check_user u ≡ ok u
    no_name u e = rw e refl
