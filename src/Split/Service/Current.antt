-- ===== src/Split/Service/Current.antt =====
-- When a stored manifest is the current one.
use layersmith.Prelude.{
  ℕ, ◌<◌, ◌≡◌, refl, sym, Bool, true, false, Option, none, some, inl, inr, arith, Bool-cases,
  ==_iff, nat_eq, list_eq, option_eq, ◌&&◌, length,
}
use layersmith.Prelude.Result.{ok}
use layersmith.Prelude.Text.{Str}
use layersmith.Split.Plan.{part_size}
use layersmith.Split.Manifest.{
  File, Disk, Manifest, Build, archive_name, is_current, check_manifest, current_manifest, is_set,
  or_empty, base_name, stored_manifest, host_install_of,
}
use layersmith.Split.Service.{Service}

-- A manifest is reported as ready only if it belongs to the file on disk: the row's archive name and checksum,
-- and the file's size and time.
abbrev pub DescribesFile : Service → Build → Manifest → Type 0
DescribesFile s b m =
    (f : File) × (s.disk (or_empty b.export_path) ≡ some f)
    × (m.archive ≡ base_name (or_empty b.export_path))
    × (some m.archive_sha256 ≡ b.export_sha256)
    × (m.archive_size ≡ length f.bytes)
    × (m.archive_mtime_ns ≡ f.mtime_ns)

pub current_sound :
    (s : Service) (b : Build) (m : Manifest)
    → current_manifest s.disk b ≡ some m
    → DescribesFile s b m
unfolding current_manifest
current_sound s b m h = stored b.export_parts h
  where
    checked :
        (k : Manifest) (f : Option File)
        → s.disk (or_empty b.export_path) ≡ f
        → check_manifest b k f ≡ some m
        → DescribesFile s b m
    checked k none e h = cc
    checked k (some f) e h = (
      f,
      e,
      ground (arith, ==_iff k.archive (base_name (or_empty b.export_path))),
      ground (arith, ==_iff (some k.archive_sha256) b.export_sha256),
      ground arith,
      ground arith,
    )

    stored : (k : Option Manifest) → stored_manifest s.disk b k ≡ some m → DescribesFile s b m
    stored none h = cc
    stored (some k) h = elim (Bool-cases (is_set b.export_path)) [
      | inl good ↦ checked k (s.disk (or_empty b.export_path)) refl (rw good at h)
      | inr bad ↦ cc (rw bad at h)
    ]

pub is_set-some : (o : Option Str) → is_set o ≡ true → o ≡ some (or_empty o)
is_set-some none h = cc
is_set-some (some s) h = refl

pub archive_name_ok :
    (b : Build) (a : Str) → archive_name b ≡ ok a → a ≡ base_name (or_empty b.export_path)
unfolding archive_name
archive_name_ok b a h = ground arith

-- A manifest that agrees with the row and the file is current.
pub current_complete :
    (disk : Disk) (b : Build) (k : Manifest) (f : File)
    → b.export_parts ≡ some k
    → is_set b.export_path ≡ true
    → disk (or_empty b.export_path) ≡ some f
    → is_current b k f ≡ true
    → current_manifest disk b ≡ some (record k { host_install = host_install_of b })
unfolding current_manifest
current_complete disk b k f stored set found same = rw (stored, set, found, same) refl

pub is_current-still :
    (b : Build) (k : Manifest) (f : File)
    → k.archive ≡ base_name (or_empty b.export_path)
    → b.export_sha256 ≡ some k.archive_sha256
    → k.archive_size ≡ length f.bytes
    → k.archive_mtime_ns ≡ f.mtime_ns
    → is_current b k f ≡ true
is_current-still b k f name sum size time =
    rw ((==_iff k.archive (base_name (or_empty b.export_path))).1 name) (
      rw ((==_iff (some k.archive_sha256) b.export_sha256).1 (sym sum)) (
        rw ((==_iff k.archive_size (length f.bytes)).1 size)
          ((==_iff k.archive_mtime_ns f.mtime_ns).1 time)))

pub and_false : (b : Bool) → (b && false) ≡ false
and_false true = refl
and_false false = refl

pub part_size-pos : (configured : ℕ) → 0 < part_size configured
unfolding part_size
part_size-pos configured = ground arith
