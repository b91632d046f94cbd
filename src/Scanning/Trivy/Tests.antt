-- ===== src/Scanning/Trivy/Tests.antt =====
-- A Trivy report and a command of Trivy.
use layersmith.Prelude.{
  ◌≡◌, length, refl, true, false, none, some, [], ◌∷◌, list_beq, ◌==◌, ==_iff, nat_eq, list_eq,
  Bool-cases, inl, inr, if◌then◌else◌,
}
use layersmith.Prelude.Text.{Str, text}
use layersmith.Prelude.Map.{put}
use layersmith.Scanning.Trivy.{
  Value, null, boolean, number, string, compound, truthy, str, Row, Report, scan_result,
}
use layersmith.Scanning.Trivy.Secrets.{change_report, scan_result-change_report}
use layersmith.Scanning.Trivy.Command.{Trivy, Archive}

abbrev no_row : Row
no_row k = none

abbrev secret_row : Row
secret_row =
    put (put no_row (text "RuleID") (string (text "aws-key"))) (text "Match") (string (text "AKIA"))

abbrev report : Report
report = record {
  results =
      record {
        target = string (text "app/.env");
        vulnerabilities = [];
        secrets = secret_row ∷ [];
        misconfigurations = [];
        others = no_row;
      }
      ∷ [];
  metadata = some (put no_row (text "ImageConfig") (string (text "RUN login s3cret")));
  others = no_row;
}

-- Another value of the same length where the value is the match
abbrev other_value : Row → Str → Value → Value
unfolding text
other_value row k (string s) = if s == text "AKIA" then string (text "BBBB") else string s
other_value row k v = v

same_size :
    (row : Row) (v : Value)
    → (truthy (other_value row (text "Match") v) ≡ truthy v)
      × (length (str (other_value row (text "Match") v)) ≡ length (str v))
unfolding text list_beq
same_size row null = (refl, refl)
same_size row (boolean b) = (refl, refl)
same_size row (number n) = (refl, refl)
same_size row (compound filled s) = (refl, refl)
same_size row (string s) = elim (Bool-cases (s == text "AKIA")) [
  | inl e ↦ rw ((==_iff s (text "AKIA")).0 e) (refl, refl)
  | inr e ↦ rw e (refl, refl)
]

scan_result-change_report_example :
    scan_result (λ s. s) (change_report other_value report) ≡ scan_result (λ s. s) report
scan_result-change_report_example = scan_result-change_report other_value (λ s. s) same_size report

abbrev trivy : Trivy
trivy = record {
  mode = text "container";
  binary = text "trivy";
  has_binary = false;
  image = text "trivy:1";
  runtime = text "podman";
  cache_volume = text "db";
  network = [];
  mount_flags = text "ro";
  offline = true;
  data_volume = text "data";
  host_data_dir = [];
  data_dir = text "/data";
  timeout = 600;
}

abbrev archive : Archive
archive = record {
  path = text "/data/exports/a.tar";
  relative = some (text "exports/a.tar");
  inside = true;
}
