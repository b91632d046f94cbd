-- ===== src/Split/Script/Delivery.antt =====
-- The assemble script on parts that arrived intact.
use layersmith.Prelude.{
  ℕ, ◌+◌, ◌≤◌, ◌<◌, ◌≡◌, refl, subst, ap, ◌∙◌, true, false, none, some, List, [], ◌∷◌, arith, ◌==◌,
  ==_iff, nat_eq, list_eq, length, take, drop, map, concat, length-take, length-drop,
}
use layersmith.Prelude.Text.{Str}
use layersmith.Prelude.Map.{put}
use layersmith.Prelude.Result.{ok}
use layersmith.Split.Plan.{Range, plan}
use layersmith.Split.Plan.Tiling.{Tiles, plan-Tiles}
use layersmith.Split.Stream.{Bytes}
use layersmith.Split.Hash.{part_of}
use layersmith.Split.Hash.Whole.{describe}
use layersmith.Split.Manifest.{Manifest}
use layersmith.Split.Assemble.{concat-slices}
use layersmith.Split.Script.{
  Directory, Host, Options, exit, is_original, any_incomplete, any_corrupt, cat, too_full, restore,
  after_restore, assemble,
}

module _ (sha256 : Bytes → Str) (archive : Str) (count : ℕ) (bytes : Bytes) (dir : Directory) where
  -- The directory holds the bytes of every range under the name of its part.
  abbrev Arrived : ℕ → List Range → Type 0
  Arrived i [] = Unit
  Arrived i (r ∷ rs) =
      let slice = take r.size (drop r.offset bytes) in
      (dir (part_of sha256 archive count i r r.size slice).name ≡ some slice) × Arrived (i + 1) rs

  long_enough : (n start : ℕ) → start + n ≤ length bytes → length (take n (drop start bytes)) ≡ n
  long_enough n start h = omega (arith, length-take n (drop start bytes), length-drop start bytes)

  same : (a : Str) → (a == a) ≡ true
  same a = (==_iff a a).1 refl

  arrived :
      (i start : ℕ) (rs : List Range)
      → Tiles start (length bytes) rs
      → Arrived i rs
      → let ps = describe sha256 archive count bytes i rs in
        (start ≤ length bytes)
        × (any_incomplete sha256 dir ps ≡ false)
        × (any_corrupt sha256 dir ps ≡ false)
        × (cat sha256 dir ps ≡ concat (map (λ (r : Range). take r.size (drop r.offset bytes)) rs))
  unfolding any_incomplete any_corrupt cat
  arrived i start [] t _ = (omega arith, refl, refl, refl)
  arrived i start (r ∷ rs) (at, t) (here, there) =
      let (below, complete, sound, joined) = arrived (i + 1) (start + r.size) rs t there in
      let slice = take r.size (drop r.offset bytes) in
      let long : (length slice == r.size) ≡ true =
        ground (arith, long_enough r.size r.offset (omega arith), ==_iff (length slice) r.size) in
      (
        omega arith,
        rw (here, long) complete,
        rw (here, same (sha256 slice)) sound,
        rw (here, joined) refl,
      )

-- Where the archive is absent, every part of the plan for an archive arrived under its name, the
-- manifest describes that archive, and the host has the space and does its writes, the script
-- restores exactly the archive's bytes before `--remove-parts` and `--load` are looked at.
pub assemble-delivered :
    (sha256 : Bytes → Str) (m : Manifest) (host : Host) (o : Options) (dir : Directory)
    (file : Bytes) (size : ℕ) (rs : List Range)
    → 0 < size
    → plan (length file) size ≡ ok rs
    → m.parts ≡ describe sha256 m.archive (length rs) file 0 rs
    → m.archive_size ≡ length file
    → m.archive_sha256 ≡ sha256 file
    → Arrived sha256 m.archive (length rs) file dir 0 rs
    → dir m.archive ≡ none
    → too_full sha256 host.free m.archive_size ≡ false
    → host.writes ≡ true
    → host.renames ≡ true
    → assemble sha256 m host o dir ≡ after_restore sha256 m o (exit 0 (put dir m.archive file))
unfolding assemble restore
assemble-delivered sha256 m host o dir file size rs pos planned parts long sum here absent space
      writes renames =
    let (rs', planned', tiles, full, sizes) = plan-Tiles (length file) size pos in
    let equal : rs' ≡ rs = cc in
    let t : Tiles 0 (length file) rs = subst (Tiles 0 (length file)) equal tiles in
    let (_, complete, sound, joined) =
      arrived sha256 m.archive (length rs) file dir 0 0 rs t here in
    let whole = joined ∙ concat-slices file 0 rs t in
    let good : is_original sha256 m file ≡ true =
      ground (arith, ==_iff (sha256 file) m.archive_sha256, ==_iff (length file) m.archive_size) in
    let restored : restore sha256 m host dir ≡ exit 0 (put dir m.archive file) =
      rw (parts, complete, sound, space, writes, whole) (rw (good, renames) refl) in
    rw absent (ap (after_restore sha256 m o) restored)
