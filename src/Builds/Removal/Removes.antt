-- ===== src/Builds/Removal/Removes.antt =====
-- What a deletion takes away.
use layersmith.Prelude.{
  ◌≡◌, ◌≢◌, refl, subst, ◌∙◌, Bool, true, false, none, some, List, [], ◌∷◌, map, ◌==◌, ==_iff,
  nat_eq, list_eq, contains, Bool-cases, inl, inr,
}
use layersmith.Prelude.Result.{ok, err}
use layersmith.Prelude.Text.{Str}
use layersmith.Builds.Removal.{
  Build, File, Store, is_active, paths_of, unique_onto, others_of, shared_paths, Removal, any_root,
  Deleted, find, remove_path, remove_paths, delete_found, delete, still_running,
}
use layersmith.Builds.Removal.Keeps.{Outcome, falsity, disk-unlink}

module _ (resolve : Str → List Str) (roots : List (List Str)) (shared : List Str) where
  -- A path that is gone stays away.
  gone-remove_path :
      (r : Removal) (p q : Str)
      → r.disk q ≡ none
      → (remove_path resolve roots shared r p).disk q ≡ none
  gone-remove_path r p q h = elim (Bool-cases (contains shared p)) [
    | inl kept ↦ rw kept h
    | inr mine ↦ rw mine (elim (Bool-cases (any_root (resolve p) roots)) [
      | inl inside ↦ rw inside (elim (Bool-cases (q == p)) [
        | inl same ↦
            let e = (==_iff q p).0 same in
            let away : r.disk p ≡ none = subst (λ x. r.disk x ≡ none) e h in rw away h
        | inr differ ↦ disk-unlink p q r (r.disk p) differ ∙ h
      ])
      | inr outside ↦ rw outside h
    ])
  ]

  gone-remove_paths :
      (ps : List Str) (r : Removal) (q : Str)
      → r.disk q ≡ none
      → (remove_paths resolve roots shared r ps).disk q ≡ none
  unfolding remove_paths
  gone-remove_paths [] r q h = h
  gone-remove_paths (p ∷ ps) r q h =
      gone-remove_paths ps (remove_path resolve roots shared r p) q (gone-remove_path r p q h)

  unlinked :
      (r : Removal) (q : Str) (f : File)
      → contains shared q ≡ false
      → any_root (resolve q) roots ≡ true
      → r.disk q ≡ some f
      → f.failure ≡ none
      → (remove_path resolve roots shared r q).disk q ≡ none
  unlinked r q f mine inside there fine =
      let self : (q == q) ≡ true = (==_iff q q).1 refl in
      rw (mine, inside, there, fine) (rw self refl)

  other_path :
      (r : Removal) (p q : Str)
      → (q == p) ≡ false
      → (remove_path resolve roots shared r p).disk q ≡ r.disk q
  other_path r p q differ = elim (Bool-cases (contains shared p)) [
    | inl kept ↦ rw kept refl
    | inr mine ↦ rw mine (elim (Bool-cases (any_root (resolve p) roots)) [
      | inl inside ↦ rw inside (disk-unlink p q r (r.disk p) differ)
      | inr outside ↦ rw outside refl
    ])
  ]

  removed :
      (ps : List Str) (r : Removal) (q : Str) (f : File)
      → contains ps q ≡ true
      → contains shared q ≡ false
      → any_root (resolve q) roots ≡ true
      → r.disk q ≡ some f
      → f.failure ≡ none
      → (remove_paths resolve roots shared r ps).disk q ≡ none
  unfolding remove_paths
  removed [] r q f m mine inside there fine = absurd (falsity m)
  removed (p ∷ ps) r q f m mine inside there fine = elim (Bool-cases (q == p)) [
    | inl same ↦
        let gone = unlinked r q f mine inside there fine in
        gone-remove_paths ps (remove_path resolve roots shared r p) q (
          subst (λ x. (remove_path resolve roots shared r x).disk q ≡ none) ((==_iff q p).0 same)
            gone)
    | inr differ ↦
        removed ps (remove_path resolve roots shared r p) q f (rw differ at m) mine inside
          (other_path r p q differ ∙ there) fine
  ]

unique_onto-contains :
    (seen xs : List Str) (q : Str)
    → contains xs q ≡ true
    → contains seen q ≡ false
    → contains (unique_onto seen xs) q ≡ true
unique_onto-contains seen [] q h new = absurd (falsity h)
unique_onto-contains seen (x ∷ xs) q h new = elim (Bool-cases (q == x)) [
  | inl same ↦
      let unseen : contains seen x ≡ false =
        subst (λ y. contains seen y ≡ false) ((==_iff q x).0 same) new in
      rw unseen (rw same refl)
  | inr differ ↦ elim (Bool-cases (contains seen x)) [
    | inl old ↦ rw old (unique_onto-contains seen xs q (rw differ at h) new)
    | inr fresh ↦
        rw fresh (rw differ (unique_onto-contains (x ∷ seen) xs q (rw differ at h) (rw differ new)))
  ]
]

find-others_of : (id : Str) (bs : List Build) → find id (others_of id bs) ≡ none
find-others_of id [] = refl
find-others_of id (b ∷ bs) = elim (Bool-cases (b.id == id)) [
  | inl same ↦ rw same (find-others_of id bs)
  | inr differ ↦ rw differ (rw differ (find-others_of id bs))
]

module _ (resolve : Str → List Str) (s : Store) (allowed_dirs : List Str) (b : Build) where
  abbrev Gone : Store × Deleted → Type 0
  Gone (t, d) =
      (find b.id t.builds ≡ none)
      × (t.logs b.id ≡ none)
      × (t.contexts b.id ≡ none)
      × ((path : Str) (f : File)
          → contains (paths_of b) path ≡ true
          → contains (shared_paths t.builds) path ≡ false
          → any_root (resolve path) (map resolve allowed_dirs) ≡ true
          → s.disk path ≡ some f
          → f.failure ≡ none
          → t.disk path ≡ none)

  found-Gone :
      (with_image : Bool) (r : Store × Deleted)
      → delete_found resolve s allowed_dirs with_image b ≡ ok r
      → Gone r
  found-Gone with_image r e = elim (Bool-cases (is_active b)) [
    | inl active ↦ absurd (err_ok (rw active at e))
    | inr idle ↦
        let others = others_of b.id s.builds in
        let start : Removal = record { disk = s.disk; freed = 0; notes = [] } in
        let self : (b.id == b.id) ≡ true = (==_iff b.id b.id).1 refl in
        subst Gone (ok-injective (rw idle at e)) (
          find-others_of b.id s.builds,
          rw self refl,
          rw self refl,
          λ path f m mine inside there fine.
              removed resolve (map resolve allowed_dirs) (shared_paths others)
                (unique_onto [] (paths_of b)) start path f
                (unique_onto-contains [] (paths_of b) path m refl) mine inside there fine,
        )
  ]
    where
      err_ok : ◌≢◌ {A = Outcome} (err still_running) (ok r)
      err_ok e = cc

      ok-injective : {x y : Store × Deleted} → ◌≡◌ {A = Outcome} (ok x) (ok y) → x ≡ y
      ok-injective e = cc

-- After a deletion that is carried out the build is gone from the table, with its log and its
-- context. Each of its files that no other build refers to, that lies in an allowed directory and
-- that can be unlinked is gone.
pub delete-Removes :
    (resolve : Str → List Str) (s : Store) (allowed_dirs : List Str) (with_image : Bool) (b : Build)
    (t : Store) (d : Deleted)
    → find b.id s.builds ≡ some b
    → delete resolve s b.id allowed_dirs with_image ≡ ok (t, d)
    → (find b.id t.builds ≡ none)
      × (t.logs b.id ≡ none)
      × (t.contexts b.id ≡ none)
      × ((path : Str) (f : File)
          → contains (paths_of b) path ≡ true
          → contains (shared_paths t.builds) path ≡ false
          → any_root (resolve path) (map resolve allowed_dirs) ≡ true
          → s.disk path ≡ some f
          → f.failure ≡ none
          → t.disk path ≡ none)
unfolding delete
delete-Removes resolve s allowed_dirs with_image b t d found e =
    found-Gone resolve s allowed_dirs b with_image (t, d) (rw found at e)
