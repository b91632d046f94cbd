-- ===== src/Core/Specification/Tests.antt =====
-- A specification, its packages and its Containerfile.
use layersmith.Prelude.{
  ◌≡◌, ◌≢◌, refl, false, Option, none, some, [], ◌∷◌, ◌++◌, list_beq, nat_eq, list_eq, replicate,
}
use layersmith.Prelude.Result.{ok}
use layersmith.Prelude.Text.{Str, text}
use layersmith.Prelude.Strings.{is_space}
use layersmith.Core.Reference.{Reference}
use layersmith.Core.Specification.Entries.{User}
use layersmith.Core.Specification.{Spec, validate_spec}
use layersmith.Core.Specification.Idempotent.{validate_spec-validate_spec}
use layersmith.Core.Specification.Valid.{IsValid, validate_spec-IsValid}
use layersmith.Core.Packages.{only_in_epel, resolve_packages}
use layersmith.Core.Containerfile.{quote, base_repository}
use layersmith.Core.Containerfile.Quoted.{read_quoted, read_quoted-quote}

abbrev sum : Str
sum = replicate 64 97

abbrev no_user : User
no_user = record { name = []; uid = none; gid = none; shell = none }

-- As it comes from the wizard
abbrev given_spec : Spec
given_spec = record {
  base = record {
    distribution = text "AlmaLinux";
    version = text "10";
    source = none;
    family = none;
  };
  architecture = none;
  packages = text " jq " ∷ text "htop" ∷ text "g++" ∷ text " " ∷ [];
  extra_packages = text "zsh" ∷ [];
  presets = text "Ansible" ∷ [];
  tools =
      record {
        name = text "oc";
        sha256 = sum;
        install_path = none;
        mode = none;
        architecture = none;
      }
      ∷ [];
  files = record { sha256 = sum; destination = text "/etc/motd"; mode = none } ∷ [];
  scripts = (text "pre_build", text "true") ∷ [];
  env = record { name = text "LANG"; value = text "C" } ∷ [];
  labels = (text "team", text "infra") ∷ [];
  user = record no_user { name = text "app" };
  workdir = text "/srv";
  tests = text " id " ∷ text "" ∷ [];
  tag_latest = false;
  enable_epel = false;
}

-- As validation returns it
abbrev valid_spec : Spec
valid_spec = record given_spec {
  base = record {
    distribution = text "AlmaLinux";
    version = text "10";
    source = some (text "docker.io/library/almalinux:10");
    family = some (text "rpm");
  };
  architecture = some (text "amd64");
  packages = text "jq" ∷ text "htop" ∷ text "g++" ∷ [];
  tools =
      record {
        name = text "oc";
        sha256 = sum;
        install_path = some (text "/usr/local/bin/oc");
        mode = some (text "0755");
        architecture = some (text "amd64");
      }
      ∷ [];
  files = record { sha256 = sum; destination = text "/etc/motd"; mode = some (text "0644") } ∷ [];
  user = record no_user { name = text "app"; shell = some (text "/bin/sh") };
  tests = text "id" ∷ [];
}

validated : validate_spec given_spec ≡ ok valid_spec
unfolding validate_spec list_beq text is_space
validated = refl

validate_spec-validate_spec_example : validate_spec valid_spec ≡ ok valid_spec
validate_spec-validate_spec_example = validate_spec-validate_spec given_spec valid_spec validated

validate_spec-IsValid_example : IsValid valid_spec
validate_spec-IsValid_example = validate_spec-IsValid given_spec valid_spec validated

-- `htop` needs EPEL, and the packages of the preset come first.
resolved :
    resolve_packages valid_spec
    ≡ ok (
      text "python3"
          ∷ text "python3-pip"
          ∷ text "git"
          ∷ text "openssh-clients"
          ∷ text "ansible-core"
          ∷ text "rsync"
          ∷ text "jq"
          ∷ text "vim-enhanced"
          ∷ text "gcc-c++"
          ∷ text "zsh"
          ∷ [],
      only_in_epel (text "htop") ∷ [],
    )
unfolding resolve_packages list_beq text is_space
resolved = refl

abbrev dollar : Str
dollar = text "cost: $5"

read_quoted-quote_example : read_quoted (quote dollar ++ text " x") ≡ some (dollar, text " x")
read_quoted-quote_example = read_quoted-quote dollar (text " x")

abbrev almalinux : Reference
almalinux = record {
  registry = some (text "docker.io");
  repository = text "library/almalinux";
  tag = some (text "10");
  digest = none;
  source = text "docker.io/library/almalinux:10";
}

abbrev digest : Str
digest = text "sha256:" ++ sum

has_tag : ◌≢◌ {A = Option Str} (some (text "10")) none
has_tag e = cc

-- Without a tag, the port of the registry is taken for one.
port_taken : base_repository (text "registry.local:5000/base") ≡ text "registry.local"
unfolding base_repository text
port_taken = refl
