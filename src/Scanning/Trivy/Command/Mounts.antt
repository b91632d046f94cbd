-- ===== src/Scanning/Trivy/Command/Mounts.antt =====
-- What the Trivy container can see.
use layersmith.Prelude.{◌≡◌, true, List, [], ◌∷◌, ◌==◌, nat_eq, list_eq, if◌then◌else◌, ◌⊎◌}
use layersmith.Prelude.Text.{Str, text}
use layersmith.Scanning.Trivy.Command.{
  Trivy, Archive, cache_path, colon, host_path, cache_path, input_path,
}

-- The values of the options `-v` of a command
unfoldable pub volumes : List Str → List Str
volumes [] = []
volumes (a ∷ []) = []
volumes (a ∷ b ∷ rest) =
    let found = b ∷ volumes rest in
    let more = volumes (b ∷ rest) in if a == text "-v" then found else more

-- The archive as it is mounted, in the volume that holds the data directory or by itself, and the path
-- that Trivy is given
abbrev pub IsVisible : Trivy → Archive → Str → Type 0
IsVisible t a mount =
    ((a.inside ≡ true)
      × (mount ≡ colon t.data_volume (colon t.data_dir t.mount_flags))
      × (input_path t a ≡ a.path))
    ⊎ (mount ≡ colon (host_path t a) (colon (input_path t a) t.mount_flags))
