-- ===== src/Scanning/Trivy.antt =====
-- scanners/trivy.py and scanners/base.py: a Trivy report as findings, what of it is stored, and the command that
-- runs Trivy. A JSON object is a table of values; an array or object inside a row is what `str` makes of it.
-- `lower` is `str.lower`, and numbers are natural.
mod Tests
pub mod Secrets
pub mod Command
use layersmith.Prelude.{
  ℕ, ◌+◌, Bool, true, false, Option, none, some, List, [], ◌∷◌, ◌++◌, ◌&&◌, ◌||◌, not, map, ◌==◌,
  nat_eq, list_eq, contains, if◌then◌else◌, length, take,
}
use layersmith.Prelude.Text.{Str, text, show}
use layersmith.Prelude.Map.{Map, put}

pub data Value : Type 0 where
  null : Value
  boolean : Bool → Value
  number : ℕ → Value
  string : Str → Value
  -- an array or an object: whether it has entries, and its text
  compound : Bool → Str → Value

-- `bool(v)`, `str(v)`, and `row.get(k)` of a missing key
abbrev pub truthy : Value → Bool
truthy null = false
truthy (boolean b) = b
truthy (number n) = not (n == 0)
truthy (string s) = not (s == [])
truthy (compound filled s) = filled

abbrev pub str : Value → Str
str null = text "None"
str (boolean b) = if b then text "True" else text "False"
str (number n) = show n
str (string s) = s
str (compound filled s) = s

abbrev pub Row : Type 0
Row = Map Str Value

abbrev pub or_null : Option Value → Value
or_null none = null
or_null (some v) = v

abbrev pub get : Row → Str → Value
get row k = or_null (row k)

-- `a or b`
abbrev or_else : Value → Value → Value
or_else a b = if truthy a then a else b

-- An entry of `Results`, with the keys that are not read here as `others`. A list that is missing is empty.
pub record ScanTarget : Type 0 where
  pub target : Value
  pub vulnerabilities : List Row
  pub secrets : List Row
  pub misconfigurations : List Row
  pub others : Row

-- A report: `Metadata` if it is an object, and the other keys
pub record Report : Type 0 where
  pub results : List ScanTarget
  pub metadata : Option Row
  pub others : Row

-- SEVERITIES
unfoldable pub severities : List Str
unfolding text
severities = text "critical" ∷ text "high" ∷ text "medium" ∷ text "low" ∷ text "unknown" ∷ []

pub record Finding : Type 0 where
  pub kind : Str
  pub severity : Str
  pub identifier : Str
  pub title : Str
  pub target : Str
  pub package_name : Value
  pub installed_version : Value
  pub fixed_version : Value
  pub url : Value
  pub masked_match : Option Str

-- `Finding.__post_init__`
abbrev known_severity : (Str → Str) → Str → Str
known_severity lower severity =
    let s = lower (if severity == [] then text "unknown" else severity) in
    if contains severities s then s else text "unknown"

-- `_mask(match)`
unfoldable pub mask : Value → Option Str
unfolding text show
mask match =
    if truthy match
    then some (text "redacted, " ++ (show (length (str match)) ++ text " characters"))
    else none

-- SECRET_VALUE_FIELDS and REDACTED
unfoldable pub secret_value_fields : List Str
unfolding text
secret_value_fields = text "Match" ∷ text "Code" ∷ text "Lines" ∷ []

unfoldable pub redacted : Value
unfolding text
redacted = string (text "[redacted by LayerSmith]")

module _ (lower : Str → Str) where
  abbrev severity_of : Row → Str
  severity_of row =
      known_severity lower (str (or_else (get row (text "Severity")) (string (text "unknown"))))

  abbrev short_title : Value → Str
  short_title v = take 500 (str v)

  abbrev pub vulnerability : Str → Row → Finding
  vulnerability target row = record {
    kind = text "vulnerability";
    severity = severity_of row;
    identifier = str (or_else (get row (text "VulnerabilityID")) (string []));
    title =
        short_title
          (or_else (or_else (get row (text "Title")) (get row (text "Description"))) (string []));
    target = target;
    package_name = get row (text "PkgName");
    installed_version = get row (text "InstalledVersion");
    fixed_version = or_else (get row (text "FixedVersion")) null;
    url = get row (text "PrimaryURL");
    masked_match = none;
  }

  abbrev pub secret : Str → Row → Finding
  secret target row = record {
    kind = text "secret";
    severity = severity_of row;
    identifier = str (or_else (get row (text "RuleID")) (string (text "secret")));
    title = short_title (or_else (get row (text "Title")) (string []));
    target =
        if truthy (get row (text "StartLine"))
        then target ++ (58 ∷ str (get row (text "StartLine")))
        else target;
    package_name = null;
    installed_version = null;
    fixed_version = null;
    url = null;
    masked_match = mask (get row (text "Match"));
  }

  abbrev pub misconfiguration : Str → Row → Finding
  misconfiguration target row = record {
    kind = text "misconfiguration";
    severity = severity_of row;
    identifier = str (or_else (get row (text "ID")) (string []));
    title = short_title (or_else (get row (text "Title")) (string []));
    target = target;
    package_name = null;
    installed_version = null;
    fixed_version = null;
    url = get row (text "PrimaryURL");
    masked_match = none;
  }

  abbrev findings_of : ScanTarget → List Finding
  findings_of r =
      let target = str (or_else r.target (string [])) in
      map (vulnerability target) r.vulnerabilities
      ++ (map (secret target) r.secrets ++ map (misconfiguration target) r.misconfigurations)

  abbrev pub findings_all : List ScanTarget → List Finding
  findings_all [] = []
  findings_all (r ∷ rs) = findings_of r ++ findings_all rs

  -- `list(_findings(report))`
  unfoldable pub findings : Report → List Finding
  unfolding severities mask text show
  findings report = findings_all report.results

-- `if field in row: row[field] = REDACTED`
abbrev pub overwrite : Row → Str → Option Value → Row
overwrite row field none = row
overwrite row field (some v) = put row field redacted

unfoldable pub redact_fields : List Str → Row → Row
unfolding redacted text
redact_fields [] row = row
redact_fields (field ∷ fields) row = redact_fields fields (overwrite row field (row field))

abbrev pub redact_row : Row → Row
redact_row row = redact_fields secret_value_fields row

abbrev pub redact_target : ScanTarget → ScanTarget
redact_target r = record r { secrets = map redact_row r.secrets }

abbrev pub redact_metadata : Option Row → Option Row
redact_metadata none = none
redact_metadata (some m) = some (redact_fields (text "ImageConfig" ∷ []) m)

-- `_redact(report)`
unfoldable pub redact : Report → Report
unfolding redact_fields secret_value_fields text
redact report = record report {
  results = map redact_target report.results;
  metadata = redact_metadata report.metadata;
}

-- What `scan_image` keeps of a report: the findings, taken first, and the redacted report
unfoldable pub scan_result : (Str → Str) → Report → List Finding × Report
unfolding findings redact
scan_result lower report = (findings lower report, redact report)
