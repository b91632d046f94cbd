-- ===== src/Storage/Remembered.antt =====
-- What `save` stores.
use layersmith.Prelude.{
  ◌-◌, ◌≤◌, ◌≡◌, ◌≢◌, refl, sym, ap, subst, ◌∙◌, Bool, true, false, not, ◌||◌, Option, none, some,
  List, [], ◌∷◌, ◌==◌, ==_iff, nat_eq, list_eq, contains, length, length-drop, Bool-cases, inl, inr,
  ◌⊎◌, arith, All, if◌then◌else◌,
}
use layersmith.Prelude.Result.{Result, ok, err, if_ok, ok-apart}
use layersmith.Prelude.Text.{Str, text, starts_with}
use layersmith.Prelude.Map.{Map, put}
use layersmith.Storage.{
  StorageError, Host, validate, Stored, remember, save_path, save_then, save_each, keep_ten, save,
  any_prefix, movable_paths, refused_prefixes,
}

-- What a request asks for a field
abbrev asked : Str → List (Str × Str) → Option Str
asked k [] = none
asked k ((field, value) ∷ requested) = later (asked k requested)
  where
    later : Option Str → Option Str
    later (some w) = some w
    later none = if k == field then some value else none

-- The directories that can be moved
abbrev pub movable : List Str
unfolding text
movable =
    text "image_dir"
    ∷ text "build_dir"
    ∷ text "upload_dir"
    ∷ text "log_dir"
    ∷ text "tmp_dir"
    ∷ text "scan_dir"
    ∷ text "model_dir"
    ∷ []

-- The directories of the system, in which no path is stored
abbrev pub system : List Str
unfolding text
system =
    text "/proc"
    ∷ text "/sys"
    ∷ text "/dev"
    ∷ text "/boot"
    ∷ text "/etc"
    ∷ text "/bin"
    ∷ text "/sbin"
    ∷ text "/lib"
    ∷ text "/usr"
    ∷ []

-- An absolute path without "..", outside of the system's directories, that can be made and written to
pub record IsUsable (host : Host) (path : Str) : Type 0 where
  pub absolute : starts_with path (text "/") ≡ true
  pub no_dots : contains (host.parts path) (text "..") ≡ false
  pub not_root : path ≢ text "/"
  pub outside : All (λ prefix. starts_with path prefix ≡ false) system
  pub created : host.can_create path ≡ true
  pub written : host.can_write path ≡ true

not-false : (b : Bool) → not b ≡ false → b ≡ true
not-false true h = refl
not-false false h = absurd cc

or_false : (a b : Bool) → (a || b) ≡ false → (a ≡ false) × (b ≡ false)
or_false false b h = (refl, h)
or_false true b h = absurd cc

any_prefix-All :
    (s : Str) (ps : List Str) → any_prefix s ps ≡ false → All (λ p. starts_with s p ≡ false) ps
any_prefix-All s [] h = tt
any_prefix-All s (p ∷ ps) h =
    let (one, rest) = or_false (starts_with s p) (any_prefix s ps) h in
    (one, any_prefix-All s ps rest)

validate-IsUsable :
    (host : Host) (field value path : Str)
    → validate host field value ≡ ok path
    → (contains movable field ≡ true)
      × (host.normalise value ≡ path)
      × IsUsable host (host.normalise value)
unfolding validate movable_paths refused_prefixes text
validate-IsUsable host field value path h =
    let (known, h1) = if_ok _ _ _ h in
    let (rooted, h2) = if_ok _ _ _ h1 in
    let (plain, h3) = if_ok _ _ _ h2 in
    let (apart, h4) = if_ok _ _ _ h3 in
    let (made, h5) = if_ok _ _ _ h4 in
    let (writable, h6) = if_ok _ _ _ h5 in
    let (root, prefixes) = or_false (host.normalise value == text "/") _ apart in
    (
      not-false _ known,
      ok-apart h6,
      record {
        absolute = not-false _ rooted;
        no_dots = plain;
        not_root = λ e. absurd (true_false (sym ((==_iff _ _).1 e) ∙ root));
        outside = any_prefix-All (host.normalise value) system prefixes;
        created = not-false _ made;
        written = not-false _ writable;
      },
    )
  where
    true_false : true ≢ false
    true_false e = cc

module _ (host : Host) (pinned : List Str) where
  -- The field can be moved and is not set by the environment, and its path is the value's, which can be used.
  abbrev pub IsMoved : Map Str Str → Str → Str → Type 0
  IsMoved paths field value =
      (contains movable field ≡ true)
      × (contains pinned field ≡ false)
      × IsUsable host (host.normalise value)
      × (paths field ≡ some (host.normalise value))

  -- The path of a field is the value that the request asks for it, or, if it asks for none, as it was.
  abbrev pub IsKept : List (Str × Str) → Map Str Str → Map Str Str → Str → Type 0
  IsKept requested old new field =
      ((asked field requested ≡ none) × (new field ≡ old field))
      ⊎ ((value : Str) × (asked field requested ≡ some value) × IsMoved new field value)

  module _ (image_dir : Str) where
    save_each-IsKept :
        (requested : List (Str × Str)) (s t : Stored) (k : Str)
        → save_each host pinned image_dir requested s ≡ ok t
        → IsKept requested s.paths t.paths k
    unfolding save_each
    save_each-IsKept [] s t k h = inl (refl, ap (λ (x : Stored). x.paths k) (sym (ok-apart h)))
    save_each-IsKept ((field, value) ∷ requested) s t k h =
        let (free, h') = if_ok _ _ _ h in
        step (λ u. save_each-IsKept requested u t k) free (validate host field value) refl h'
      where
        step :
            ((u : Stored)
              → save_each host pinned image_dir requested u ≡ ok t
              → IsKept requested u.paths t.paths k)
            → contains pinned field ≡ false
            → (v : Result StorageError Str) → validate host field value ≡ v
            → save_then (save_each host pinned image_dir requested) (save_path image_dir field s v)
              ≡ ok t
            → IsKept ((field, value) ∷ requested) s.paths t.paths k
        step later free (err e) valid h = absurd cc
        step later free (ok path) valid h =
            let u : Stored = record {
              paths = put s.paths field path;
              previous = remember image_dir field path s.previous;
            } in
            let (movable_field, same_path, usable) =
              validate-IsUsable host field value path valid in
            elim (later u h) [
              | inr (w, told, moved) ↦ inr (w, rw told refl, moved)
              | inl (untold, same) ↦ elim (Bool-cases (k == field)) [
                | inr other ↦ inl (rw (untold, other) refl, same ∙ rw other refl)
                | inl mine ↦
                    let e : field ≡ k = sym ((==_iff k field).0 mine) in
                    inr (
                      value,
                      rw (untold, mine) refl,
                      (
                        subst (λ f. contains movable f ≡ true) e movable_field,
                        subst (λ f. contains pinned f ≡ false) e free,
                        usable,
                        same ∙ rw mine (ap (λ x. some x) (sym same_path)),
                      ),
                    )
              ]
            ]

    -- Where `save` succeeds, each field that the request names is one of the seven that can be moved, the
    -- environment does not set it, and the value asked for it, in its normal form, is stored: an absolute path
    -- without "..", not the root and not under a directory of the system, that the host can make and
    -- write to. Every other field is as it was stored before, and at most ten earlier image directories are kept.
    pub save_lem :
        (requested : List (Str × Str)) (s t : Stored)
        → save host pinned image_dir requested s ≡ ok t
        → ((field : Str) → IsKept requested s.paths t.paths field) × (length t.previous ≤ 10)
    unfolding save
    save_lem requested s t h = go (save_each host pinned image_dir requested s) refl h
      where
        go :
            (r : Result StorageError Stored)
            → save_each host pinned image_dir requested s ≡ r
            → keep_ten r ≡ ok t
            → ((field : Str) → IsKept requested s.paths t.paths field) × (length t.previous ≤ 10)
        go (err e) saved h = absurd cc
        go (ok u) saved h =
            subst
              (λ (x : Stored).
                ((field : Str) → IsKept requested s.paths x.paths field) × (length x.previous ≤ 10))
              (ok-apart h)
              (
                (λ field. save_each-IsKept requested s u field saved),
                omega (arith, length-drop (length u.previous - 10) u.previous),
              )
