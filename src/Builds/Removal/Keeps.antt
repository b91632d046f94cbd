-- ===== src/Builds/Removal/Keeps.antt =====
-- What a deletion leaves to other builds.
use layersmith.Prelude.{
  ◌≡◌, ◌≢◌, refl, sym, ap, subst, ◌∙◌, Bool, true, false, Option, none, some, List, [], ◌∷◌, ◌++◌,
  map, ◌==◌, ==_iff, ==_apart, nat_eq, list_eq, contains, if◌then◌else◌, Bool-cases, Option-cases,
  arith, inl, inr, ◌⊎◌,
}
use layersmith.Prelude.Result.{Result, ok, err}
use layersmith.Prelude.Text.{Str}
use layersmith.Builds.Removal.{
  Build, File, Store, is_active, present, paths_of, unique_onto, others_of, shared_paths,
  shared_refs, Note, Removal, any_root, unlink, unlink_file, Deleted, DeleteError, find,
  remove_image, remove_path, remove_paths, delete_found, delete, not_found, still_running,
}

contains-append_left :
    (xs ys : List Str) (a : Str) → contains xs a ≡ true → contains (xs ++ ys) a ≡ true
contains-append_left [] ys a h = absurd cc
contains-append_left (x ∷ xs) ys a h = elim (Bool-cases (a == x)) [
  | inl here ↦ rw here refl
  | inr there ↦ rw there (contains-append_left xs ys a (rw there at h))
]

contains-append_right :
    (xs ys : List Str) (a : Str) → contains ys a ≡ true → contains (xs ++ ys) a ≡ true
contains-append_right [] ys a h = h
contains-append_right (x ∷ xs) ys a h = ground (arith, contains-append_right xs ys a h)

pub falsity : false ≢ true
falsity e = cc

pub disk-unlink :
    (p q : Str) (r : Removal) (f : Option File)
    → (q == p) ≡ false
    → (unlink p r f).disk q ≡ r.disk q
disk-unlink p q r none differ = refl
disk-unlink p q r (some f) differ = go f.failure
  where
    go : (e : Option Str) → (unlink_file p r f.size e).disk q ≡ r.disk q
    go none = rw differ refl
    go (some e) = refl

module _ (resolve : Str → List Str) (roots : List (List Str)) (shared : List Str) where
  -- A path that is shared stays as it is.
  disk-remove_path :
      (r : Removal) (p q : Str)
      → contains shared q ≡ true
      → (remove_path resolve roots shared r p).disk q ≡ r.disk q
  disk-remove_path r p q h = elim (Bool-cases (contains shared p)) [
    | inl kept ↦ rw kept refl
    | inr mine ↦ rw mine (elim (Bool-cases (any_root (resolve p) roots)) [
      | inl inside ↦ rw inside (disk-unlink p q r (r.disk p) (apart p mine))
      | inr outside ↦ rw outside refl
    ])
  ]
    where
      apart : (p : Str) → contains shared p ≡ false → (q == p) ≡ false
      apart p mine = elim (Bool-cases (q == p)) [
        | inl same ↦ absurd (falsity (sym mine ∙ rw (← (==_iff q p).0 same) h))
        | inr differ ↦ differ
      ]

  disk-remove_paths :
      (ps : List Str) (r : Removal) (q : Str)
      → contains shared q ≡ true
      → (remove_paths resolve roots shared r ps).disk q ≡ r.disk q
  unfolding remove_paths
  disk-remove_paths [] r q h = refl
  disk-remove_paths (p ∷ ps) r q h =
      disk-remove_paths ps (remove_path resolve roots shared r p) q h ∙ disk-remove_path r p q h

-- A build of the table
abbrev pub Among : Build → List Build → Type 0
Among other [] = ⊥
Among other (b ∷ bs) = (other ≡ b) ⊎ Among other bs

others_of-Among :
    (id : Str) (other : Build) (bs : List Build)
    → Among other bs
    → other.id ≢ id
    → Among other (others_of id bs)
others_of-Among id other [] m ne = elim m [ ]
others_of-Among id other (b ∷ bs) m ne = elim (Bool-cases (b.id == id)) [
  | inl same ↦ rw same (elim m [
    | inl here ↦ absurd (ne (ap (λ (x : Build). x.id) here ∙ (==_iff b.id id).0 same))
    | inr there ↦ others_of-Among id other bs there ne
  ])
  | inr differ ↦
      rw differ
        (elim m [ inl here ↦ inl here | inr there ↦ inr (others_of-Among id other bs there ne) ])
]

shared_paths-Among :
    (other : Build) (bs : List Build) (q : Str)
    → Among other bs
    → contains (paths_of other) q ≡ true
    → contains (shared_paths bs) q ≡ true
shared_paths-Among other [] q m h = elim m [ ]
shared_paths-Among other (b ∷ bs) q m h = elim m [
  | inl here ↦ contains-append_left (paths_of b) (shared_paths bs) q (rw here at h)
  | inr there ↦
      contains-append_right (paths_of b) (shared_paths bs) q (shared_paths-Among other bs q there h)
]

shared_refs-Among :
    (other : Build) (bs : List Build) (ref : Str)
    → Among other bs
    → contains (present (other.image_ref ∷ [])) ref ≡ true
    → contains (shared_refs bs) ref ≡ true
shared_refs-Among other [] q m h = elim m [ ]
shared_refs-Among other (b ∷ bs) q m h = elim m [
  | inl here ↦ contains-append_left (present (b.image_ref ∷ [])) (shared_refs bs) q (rw here at h)
  | inr there ↦
      contains-append_right (present (b.image_ref ∷ [])) (shared_refs bs) q
        (shared_refs-Among other bs q there h)
]

find_id : (id : Str) (bs : List Build) (b : Build) → find id bs ≡ some b → b.id ≡ id
find_id id [] b h = absurd cc
find_id id (x ∷ bs) b h = elim (Bool-cases (x.id == id)) [
  | inl same ↦
      let e : some x ≡ some b = rw same at h in
      sym (ap (λ (y : Build). y.id) (some-injective e)) ∙ (==_iff x.id id).0 same
  | inr differ ↦ find_id id bs b (rw differ at h)
]
  where
    some-injective : {x y : Build} → some x ≡ some y → x ≡ y
    some-injective e = cc

image-remove_image :
    (refs wanted : List Str) (notes : List Note) (ref : Str)
    → (remove_image refs wanted notes).0 ≡ some ref
    → contains refs ref ≡ false
image-remove_image refs [] notes ref e = cc
image-remove_image refs (r ∷ more) notes ref e = elim (Bool-cases (contains refs r)) [
  | inl shared ↦ absurd (none_some (rw shared at e))
  | inr mine ↦
      let same : some r ≡ some ref = rw mine at e in
      subst (λ x. contains refs x ≡ false) (injective same) mine
]
  where
    none_some : none ≢ some ref
    none_some e = cc

    injective : some r ≡ some ref → r ≡ ref
    injective e = cc

abbrev pub Outcome : Type 0
Outcome = Result DeleteError (Store × Deleted)

-- What `delete` leaves of what belongs to another build
abbrev Leaves : Store → Build → Store × Deleted → Type 0
Leaves s other (t, d) =
    Among other t.builds
    × ((path : Str) → contains (paths_of other) path ≡ true → t.disk path ≡ s.disk path)
    × (t.logs other.id ≡ s.logs other.id)
    × ((ref : Str) → d.image ≡ some ref → contains (present (other.image_ref ∷ [])) ref ≡ false)

not_shared :
    (other : Build) (bs : List Build) (ref : Str)
    → Among other bs
    → contains (shared_refs bs) ref ≡ false
    → contains (present (other.image_ref ∷ [])) ref ≡ false
not_shared other bs ref m h = elim (Bool-cases (contains (present (other.image_ref ∷ [])) ref)) [
  | inl used ↦ absurd (falsity (sym h ∙ shared_refs-Among other bs ref m used))
  | inr unused ↦ unused
]

module _ (resolve : Str → List Str) where
  found-Leaves :
      (s : Store) (allowed_dirs : List Str) (with_image : Bool) (b other : Build)
      (r : Store × Deleted)
      → delete_found resolve s allowed_dirs with_image b ≡ ok r
      → Among other s.builds
      → other.id ≢ b.id
      → Leaves s other r
  found-Leaves s allowed_dirs with_image b other r e m ne = elim (Bool-cases (is_active b)) [
    | inl active ↦ absurd (err_ok r (rw active at e))
    | inr idle ↦
        let others = others_of b.id s.builds in
        let kept = others_of-Among b.id other s.builds m ne in
        let values = unique_onto [] (paths_of b) in
        let wanted = if with_image then present (b.image_ref ∷ []) else [] in
        let start : Removal = record { disk = s.disk; freed = 0; notes = [] } in
        let removed =
          remove_paths resolve (map resolve allowed_dirs) (shared_paths others) start values in
        let apart : (other.id == b.id) ≡ false = ==_apart other.id b.id ne in
        subst (Leaves s other) (ok-injective (rw idle at e)) (
          kept,
          (λ path h.
              disk-remove_paths resolve (map resolve allowed_dirs) (shared_paths others) values
                start path (shared_paths-Among other others path kept h)),
          rw apart refl,
          λ ref h.
              not_shared other others ref kept
                (image-remove_image (shared_refs others) wanted removed.notes ref h),
        )
  ]
    where
      err_ok : (r : Store × Deleted) → ◌≢◌ {A = Outcome} (err still_running) (ok r)
      err_ok r e = cc

      ok-injective : {x y : Store × Deleted} → ◌≡◌ {A = Outcome} (ok x) (ok y) → x ≡ y
      ok-injective e = cc

  -- A deletion that is carried out leaves every other build of the table there, with its log; each
  -- file that such a build refers to stays as it was, and the image that the backend is told to
  -- remove, if any, is none that such a build refers to.
  pub delete-KeepsOthers :
      (s : Store) (build_id : Str) (allowed_dirs : List Str) (with_image : Bool) (t : Store)
      (d : Deleted) (other : Build)
      → delete resolve s build_id allowed_dirs with_image ≡ ok (t, d)
      → Among other s.builds
      → other.id ≢ build_id
      → Among other t.builds
        × ((path : Str) → contains (paths_of other) path ≡ true → t.disk path ≡ s.disk path)
        × (t.logs other.id ≡ s.logs other.id)
        × ((ref : Str) → d.image ≡ some ref → contains (present (other.image_ref ∷ [])) ref ≡ false)
  unfolding delete
  delete-KeepsOthers s build_id allowed_dirs with_image t d other e m ne =
      elim (Option-cases (find build_id s.builds)) [
        | inl missing ↦ absurd (err_ok (rw missing at e))
        | inr (b, found) ↦
            found-Leaves s allowed_dirs with_image b other (t, d) (rw found at e) m
              (λ same. ne (same ∙ find_id build_id s.builds b found))
      ]
    where
      err_ok : ◌≢◌ {A = Outcome} (err not_found) (ok (t, d))
      err_ok e = cc
