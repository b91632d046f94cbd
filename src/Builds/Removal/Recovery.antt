-- ===== src/Builds/Removal/Recovery.antt =====
-- What a restart does to builds that it interrupted.
use layersmith.Prelude.{
  ◌≡◌, ◌≢◌, refl, subst, Bool, false, some, List, [], ◌∷◌, map, ◌==◌, nat_eq, list_eq, list_beq,
  Bool-cases, Option-cases, inl, inr,
}
use layersmith.Prelude.Result.{err}
use layersmith.Prelude.Text.{Str, text}
use layersmith.Builds.Removal.{
  Build, Store, active_states, is_active, fail_interrupted, recover_interrupted, find, delete,
  still_running,
}
use layersmith.Builds.Removal.Keeps.{Among}

fail_interrupted-is_active : (b : Build) → is_active (fail_interrupted b) ≡ false
unfolding active_states text list_beq
fail_interrupted-is_active b = elim (Bool-cases (is_active b)) [
  | inl active ↦ rw active refl
  | inr idle ↦ rw idle idle
]

find-recovered :
    (id : Str) (bs : List Build) (b : Build)
    → find id (map fail_interrupted bs) ≡ some b
    → is_active b ≡ false
find-recovered id [] b h = absurd cc
find-recovered id (x ∷ bs) b h = elim (Bool-cases ((fail_interrupted x).id == id)) [
  | inl same ↦
      let e : some (fail_interrupted x) ≡ some b = rw same at h in
      subst (λ y. is_active y ≡ false) (injective e) (fail_interrupted-is_active x)
  | inr differ ↦ find-recovered id bs b (rw differ at h)
]
  where
    injective : {x y : Build} → some x ≡ some y → x ≡ y
    injective e = cc

idle-Among :
    (b : Build) (bs : List Build)
    → Among b bs
    → is_active b ≡ false
    → Among b (map fail_interrupted bs)
idle-Among b [] m idle = elim m [ ]
idle-Among b (x ∷ bs) m idle = elim m [
  | inl here ↦ inl (rw (← here, idle) refl)
  | inr there ↦ inr (idle-Among b bs there idle)
]

-- After a restart every build can be deleted: `delete` refuses none as still running. A build that
-- was not active keeps its row.
recover_interrupted-delete :
    (resolve : Str → List Str) (s : Store) (build_id : Str) (allowed_dirs : List Str)
    (with_image : Bool)
    → let t = (recover_interrupted s).0 in
      (delete resolve t build_id allowed_dirs with_image ≢ err still_running)
      × ((b : Build) → Among b s.builds → is_active b ≡ false → Among b t.builds)
unfolding recover_interrupted delete
recover_interrupted-delete resolve s build_id allowed_dirs with_image =
    let bs = map fail_interrupted s.builds in
    (
      elim (Option-cases (find build_id bs)) [
        | inl missing ↦ rw missing (λ e. cc)
        | inr (b, found) ↦ rw (found, find-recovered build_id s.builds b found) (λ e. cc)
      ],
      λ b m idle. idle-Among b s.builds m idle,
    )
