-- ===== src/Core/Catalog.antt =====
-- core/catalog.py: families, distributions, packages and presets. A dictionary is a list of pairs.
use layersmith.Prelude.{
  Bool, true, false, Option, none, some, List, [], ◌∷◌, ◌==◌, nat_eq, list_eq, if◌then◌else◌,
}
use layersmith.Prelude.Text.{Str, text}

-- `table.get(key)`
abbrev pub find_key {ℓ} : {A : Type ℓ} → List (Str × A) → Str → Option A
find_key [] key = none
find_key ((k, v) ∷ table) key = let rest = find_key table key in if k == key then some v else rest

abbrev pub defined {ℓ} : {A : Type ℓ} → Option A → Bool
defined none = false
defined (some a) = true

-- FAMILIES and ARCHITECTURES
unfoldable pub families : List (Str × Str)
unfolding text
families = (text "rpm", text "dnf") ∷ (text "deb", text "apt") ∷ (text "apk", text "apk") ∷ []

unfoldable pub architectures : List Str
unfolding text
architectures = text "amd64" ∷ text "arm64" ∷ []

-- An entry of DISTROS; `el` is false where the key is missing.
pub record Distro : Type 0 where
  pub family : Str
  pub el : Bool
  pub versions : List (Str × Str)

abbrev distro : Str → Bool → List (Str × Str) → Distro
distro family el versions = record { family = family; el = el; versions = versions }

unfoldable pub distros : List (Str × Distro)
unfolding text
distros =
    (
      text "AlmaLinux",
      distro (text "rpm") true (
          (text "10", text "docker.io/library/almalinux:10")
          ∷ (text "9", text "docker.io/library/almalinux:9")
          ∷ []),
    )
    ∷ (
      text "Rocky Linux",
      distro (text "rpm") true (
          (text "10", text "docker.io/library/rockylinux:10")
          ∷ (text "9", text "docker.io/library/rockylinux:9")
          ∷ []),
    )
    ∷ (
      text "CentOS Stream",
      distro (text "rpm") true (
          (text "10", text "quay.io/centos/centos:stream10")
          ∷ (text "9", text "quay.io/centos/centos:stream9")
          ∷ []),
    )
    ∷ (
      text "Fedora",
      distro (text "rpm") false (
          (text "44", text "registry.fedoraproject.org/fedora:44")
          ∷ (text "43", text "registry.fedoraproject.org/fedora:43")
          ∷ []),
    )
    ∷ (
      text "Ubuntu",
      distro (text "deb") false (
          (text "24.04", text "docker.io/library/ubuntu:24.04")
          ∷ (text "22.04", text "docker.io/library/ubuntu:22.04")
          ∷ []),
    )
    ∷ (
      text "Debian",
      distro (text "deb") false (
          (text "13", text "docker.io/library/debian:13")
          ∷ (text "12", text "docker.io/library/debian:12")
          ∷ []),
    )
    ∷ (
      text "Alpine",
      distro (text "apk") false (
          (text "3.22", text "docker.io/library/alpine:3.22")
          ∷ (text "3.21", text "docker.io/library/alpine:3.21")
          ∷ []),
    )
    ∷ []

-- An entry of PACKAGE_MAP: the package of each family, or none
pub record Names : Type 0 where
  pub rpm : Option Str
  pub deb : Option Str
  pub apk : Option Str

abbrev names : Str → Str → Str → Names
names rpm deb apk = record { rpm = some rpm; deb = some deb; apk = some apk }

-- `names.get(family, name)`
unfoldable pub in_family : Str → Names → Str → Option Str
unfolding text
in_family name n family =
    if family == text "rpm"
    then n.rpm
    else if family == text "deb"
    then n.deb
    else if family == text "apk"
    then n.apk
    else some name

unfoldable pub package_map : List (Str × Names)
unfolding text
package_map =
    (text "iproute", names (text "iproute") (text "iproute2") (text "iproute2"))
    ∷ (text "ping", names (text "iputils") (text "iputils-ping") (text "iputils"))
    ∷ (text "traceroute", names (text "traceroute") (text "traceroute") (text "traceroute"))
    ∷ (text "dns-tools", names (text "bind-utils") (text "dnsutils") (text "bind-tools"))
    ∷ (text "netcat", names (text "nmap-ncat") (text "netcat-openbsd") (text "netcat-openbsd"))
    ∷ (
      text "ssh-client",
      names (text "openssh-clients") (text "openssh-client") (text "openssh-client"),
    )
    ∷ (text "g++", names (text "gcc-c++") (text "g++") (text "g++"))
    ∷ (text "pip", names (text "python3-pip") (text "python3-pip") (text "py3-pip"))
    ∷ (text "python3", names (text "python3") (text "python3") (text "python3"))
    ∷ (text "python3-devel", names (text "python3-devel") (text "python3-dev") (text "python3-dev"))
    ∷ (text "venv", record { rpm = none; deb = some (text "python3-venv"); apk = none })
    ∷ (text "nodejs", names (text "nodejs") (text "nodejs") (text "nodejs"))
    ∷ (text "npm", names (text "nodejs") (text "npm") (text "npm"))
    ∷ (text "shellcheck", names (text "ShellCheck") (text "shellcheck") (text "shellcheck"))
    ∷ (text "procps", names (text "procps-ng") (text "procps") (text "procps"))
    ∷ (text "which", names (text "which") (text "debianutils") (text "which"))
    ∷ (text "mtr", names (text "mtr") (text "mtr-tiny") (text "mtr"))
    ∷ (text "vim", names (text "vim-enhanced") (text "vim") (text "vim"))
    ∷ (text "sysstat", names (text "sysstat") (text "sysstat") (text "sysstat"))
    ∷ (text "build-essentials", names (text "make") (text "build-essential") (text "build-base"))
    ∷ (
      text "bash-completion",
      names (text "bash-completion") (text "bash-completion") (text "bash-completion"),
    )
    ∷ (text "iotop", names (text "iotop-c") (text "iotop") (text "iotop"))
    ∷ (text "tcpdump", names (text "tcpdump") (text "tcpdump") (text "tcpdump"))
    ∷ (text "nmap", names (text "nmap") (text "nmap") (text "nmap"))
    ∷ (text "iperf3", names (text "iperf3") (text "iperf3") (text "iperf3"))
    ∷ (text "socat", names (text "socat") (text "socat") (text "socat"))
    ∷ (text "ethtool", names (text "ethtool") (text "ethtool") (text "ethtool"))
    ∷ (text "strace", names (text "strace") (text "strace") (text "strace"))
    ∷ (text "lsof", names (text "lsof") (text "lsof") (text "lsof"))
    ∷ (text "htop", names (text "htop") (text "htop") (text "htop"))
    ∷ (text "ansible-core", names (text "ansible-core") (text "ansible-core") (text "ansible-core"))
    ∷ []

unfoldable pub epel_only : List Str
unfolding text
epel_only = text "shellcheck" ∷ text "htop" ∷ []

-- An entry of PRESETS: its packages, and its tools
pub record Preset : Type 0 where
  pub packages : List Str
  pub tools : List Str

abbrev preset : List Str → List Str → Preset
preset packages tools = record { packages = packages; tools = tools }

-- PRESETS_BY_NAME
unfoldable pub presets_by_name : List (Str × Preset)
unfolding text
presets_by_name =
    (
      text "Basic Linux",
      preset
          (text "git"
            ∷ text "vim"
            ∷ text "nano"
            ∷ text "curl"
            ∷ text "wget"
            ∷ text "jq"
            ∷ text "tar"
            ∷ text "gzip"
            ∷ text "unzip"
            ∷ text "rsync"
            ∷ text "tmux"
            ∷ text "less"
            ∷ text "file"
            ∷ text "which"
            ∷ [])
          ([]),
    )
    ∷ (
      text "Network Tools",
      preset
          (text "iproute"
            ∷ text "ping"
            ∷ text "traceroute"
            ∷ text "tcpdump"
            ∷ text "nmap"
            ∷ text "dns-tools"
            ∷ text "netcat"
            ∷ text "socat"
            ∷ text "ethtool"
            ∷ text "mtr"
            ∷ text "curl"
            ∷ text "wget"
            ∷ text "iperf3"
            ∷ [])
          ([]),
    )
    ∷ (
      text "Development",
      preset
          (text "git"
            ∷ text "gcc"
            ∷ text "g++"
            ∷ text "make"
            ∷ text "cmake"
            ∷ text "python3"
            ∷ text "pip"
            ∷ text "nodejs"
            ∷ text "npm"
            ∷ text "shellcheck"
            ∷ text "jq"
            ∷ [])
          ([]),
    )
    ∷ (
      text "Linux Admin",
      preset
          (text "lsof"
            ∷ text "strace"
            ∷ text "procps"
            ∷ text "sysstat"
            ∷ text "tree"
            ∷ text "htop"
            ∷ text "iotop"
            ∷ text "rsync"
            ∷ text "tmux"
            ∷ text "vim"
            ∷ text "curl"
            ∷ text "wget"
            ∷ text "jq"
            ∷ text "tar"
            ∷ text "gzip"
            ∷ text "unzip"
            ∷ text "ssh-client"
            ∷ [])
          ([]),
    )
    ∷ (
      text "Ansible",
      preset
          (text "python3"
            ∷ text "pip"
            ∷ text "git"
            ∷ text "ssh-client"
            ∷ text "ansible-core"
            ∷ text "rsync"
            ∷ text "jq"
            ∷ text "vim"
            ∷ [])
          ([]),
    )
    ∷ (
      text "Kubernetes",
      preset
          (text "bash-completion" ∷ text "git" ∷ text "curl" ∷ text "jq" ∷ text "ssh-client" ∷ [])
          (text "kubectl" ∷ text "helm" ∷ text "kustomize" ∷ []),
    )
    ∷ (
      text "OpenShift",
      preset (text "bash-completion" ∷ text "git" ∷ text "curl" ∷ text "jq" ∷ [])
          (text "oc" ∷ text "kubectl" ∷ text "helm" ∷ []),
    )
    ∷ []
