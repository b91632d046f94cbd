-- ===== src/Core/Containerfile/Quoted.antt =====
-- Reading a quoted value back.
use layersmith.Prelude.{
  ℕ, ◌≡◌, ◌⊎◌, refl, sym, ap, ◌∙◌, Bool, true, false, Option, none, some, [], ◌∷◌, ◌++◌,
  append_assoc, ◌==◌, ==_iff, nat_eq, if◌then◌else◌, Bool-cases, inl, inr,
}
use layersmith.Prelude.Text.{Str}
use layersmith.Prelude.Strings.{replace, cons_left}
use layersmith.Core.Containerfile.{quote}

-- A quoted text up to the quote that closes it, and what follows; the flag says that a backslash came before. A
-- dollar sign without a backslash would be the name of a variable, which is `none` here.
unfoldable read_on : Bool → Str → Option (Str × Str)
read_on escaped [] = none
read_on escaped (c ∷ s) =
    let plain = cons_left c (read_on false s) in
    let after_backslash = read_on true s in
    if escaped
    then plain
    else if c == 34
    then some ([], s)
    else if c == 92
    then after_backslash
    else if c == 36
    then none
    else plain

unfoldable pub read_quoted : Str → Option (Str × Str)
unfolding read_on
read_quoted [] = none
read_quoted (c ∷ s) = if c == 34 then read_on false s else none

-- The three replacements at once
abbrev escaped_char : ℕ → Str
escaped_char c =
    if c == 92
    then 92 ∷ 92 ∷ []
    else if c == 34
    then 92 ∷ 34 ∷ []
    else if c == 36
    then 92 ∷ 36 ∷ []
    else c ∷ []

escape : Str → Str
escape [] = []
escape (c ∷ s) = escaped_char c ++ escape s

replace-append :
    (old : ℕ) (new s t : Str) → replace old new (s ++ t) ≡ replace old new s ++ replace old new t
unfolding replace
replace-append old new [] t = refl
replace-append old new (c ∷ s) t = elim (Bool-cases (c == old)) [
  | inl same ↦ rw same (
      ap (λ x. new ++ x) (replace-append old new s t)
      ∙ sym (append_assoc new (replace old new s) (replace old new t)))
  | inr other ↦ rw other (ap (λ x. c ∷ x) (replace-append old new s t))
]

replace_cons :
    (old : ℕ) (new : Str) (c : ℕ) (s : Str)
    → replace old new (c ∷ s) ≡ replace old new (c ∷ []) ++ replace old new s
replace_cons old new c s = replace-append old new (c ∷ []) s

abbrev replaced : Str → Str
replaced s = replace 36 (92 ∷ 36 ∷ []) (replace 34 (92 ∷ 34 ∷ []) (replace 92 (92 ∷ 92 ∷ []) s))

replaced_cons : (c : ℕ) (s : Str) → replaced (c ∷ s) ≡ replaced (c ∷ []) ++ replaced s
replaced_cons c s =
    let dollar = 92 ∷ 36 ∷ [] in
    let mark = 92 ∷ 34 ∷ [] in
    let slash = 92 ∷ 92 ∷ [] in
    ap (λ x. replace 36 dollar (replace 34 mark x)) (replace_cons 92 slash c s)
    ∙ ap (replace 36 dollar)
        (replace-append 34 mark (replace 92 slash (c ∷ [])) (replace 92 slash s))
    ∙ replace-append 36 dollar (replace 34 mark (replace 92 slash (c ∷ [])))
        (replace 34 mark (replace 92 slash s))

-- A character is one of the three marks, or none of them.
abbrev Plain : ℕ → Type 0
Plain c = ((c == 92) ≡ false) × ((c == 34) ≡ false) × ((c == 36) ≡ false)

mark_cases : (c : ℕ) → ((c ≡ 92) ⊎ (c ≡ 34)) ⊎ ((c ≡ 36) ⊎ Plain c)
mark_cases c = elim (Bool-cases (c == 92)) [
  | inl e ↦ inl (inl ((==_iff c 92).0 e))
  | inr a ↦ elim (Bool-cases (c == 34)) [
    | inl e ↦ inl (inr ((==_iff c 34).0 e))
    | inr b ↦ elim (Bool-cases (c == 36)) [
      | inl e ↦ inr (inl ((==_iff c 36).0 e))
      | inr d ↦ inr (inr (a, b, d))
    ]
  ]
]

replaced_one : (c : ℕ) → replaced (c ∷ []) ≡ escaped_char c
unfolding replace
replaced_one c = elim (mark_cases c) [
  | inl (inl e) ↦ rw e refl
  | inl (inr e) ↦ rw e refl
  | inr (inl e) ↦ rw e refl
  | inr (inr (a, b, d)) ↦ rw (a, b, d) refl
]

replaced-escape : (s : Str) → replaced s ≡ escape s
unfolding replace escape
replaced-escape [] = refl
replaced-escape (c ∷ s) = replaced_cons c s ∙ rw (replaced_one c, replaced-escape s) refl

read_on_char :
    (c : ℕ) (s : Str) → read_on false (escaped_char c ++ s) ≡ cons_left c (read_on false s)
unfolding read_on
read_on_char c s = elim (mark_cases c) [
  | inl (inl e) ↦ rw e refl
  | inl (inr e) ↦ rw e refl
  | inr (inl e) ↦ rw e refl
  | inr (inr (a, b, d)) ↦ rw (a, b, d) (rw (a, b, d) refl)
]

read_on-escape : (s rest : Str) → read_on false (escape s ++ (34 ∷ rest)) ≡ some (s, rest)
unfolding read_on escape
read_on-escape [] rest = refl
read_on-escape (c ∷ s) rest =
    ap (read_on false) (append_assoc (escaped_char c) (escape s) (34 ∷ rest))
    ∙ read_on_char c (escape s ++ (34 ∷ rest))
    ∙ rw (read_on-escape s rest) refl

-- Whoever reads a quoted value up to the quote that closes it finds the value, and what follows it.
pub read_quoted-quote : (value rest : Str) → read_quoted (quote value ++ rest) ≡ some (value, rest)
unfolding read_quoted quote
read_quoted-quote value rest =
    ap (read_on false) (append_assoc (replaced value) (34 ∷ []) rest)
    ∙ ap (λ x. read_on false (x ++ (34 ∷ rest))) (replaced-escape value)
    ∙ read_on-escape value rest
