-- ===== src/Policy/Path/Tables.antt =====
-- path.go: the compiled tables of the path policy.
use scheck.Prelude.{String, List, [], ◌∷◌}

-- `sensitiveKind`.
pub data Kind : Type 0 where
  match_full match_base match_component : Kind

-- `sensitiveRule`.
pub record SensitiveRule : Type 0 where
  pub name : String
  pub kind : Kind
  pub pattern : String

abbrev full : String → String → SensitiveRule
full n p = record { name = n; kind = match_full; pattern = p }

abbrev base_name : String → String → SensitiveRule
base_name n p = record { name = n; kind = match_base; pattern = p }

abbrev component : String → String → SensitiveRule
component n p = record { name = n; kind = match_component; pattern = p }

-- `allowedPrefixes`.
unfoldable pub allowed_prefixes : List String
allowed_prefixes =
    "/etc" ∷ "/usr/local/etc" ∷ "/opt/*/etc" ∷ "/usr/lib/systemd" ∷ "/lib/systemd" ∷ "/run/systemd"
    ∷ "/proc/sys" ∷ "/Library/LaunchDaemons" ∷ "/Library/LaunchAgents" ∷ "/Library/Preferences"
    ∷ "/System/Library/LaunchDaemons" ∷ "/System/Library/LaunchAgents" ∷ []

-- `metadataPrefixes`.
unfoldable pub metadata_prefixes : List (String × String)
metadata_prefixes =
    ("/var/log", "path.log_metadata")
    ∷ ("/home", "path.home_metadata")
    ∷ ("/root", "path.home_metadata")
    ∷ ("/Users", "path.home_metadata")
    ∷ ("/var/root", "path.home_metadata")
    ∷ []

-- `sensitiveRules`.
unfoldable pub sensitive_rules : List SensitiveRule
sensitive_rules =
    full "shadow" "/etc/shadow"
    ∷ full "shadow" "/etc/shadow-"
    ∷ full "shadow" "/etc/gshadow"
    ∷ full "shadow" "/etc/gshadow-"
    ∷ full "master_passwd" "/etc/master.passwd"
    ∷ full "ssh_host_key" "/etc/ssh/ssh_host_*_key"
    ∷ base_name "ssh_identity" "id_*"
    ∷ base_name "key_file" "*.key"
    ∷ base_name "pem_file" "*.pem"
    ∷ base_name "p12_file" "*.p12"
    ∷ base_name "pfx_file" "*.pfx"
    ∷ base_name "keytab" "*.keytab"
    ∷ base_name "netrc" ".netrc"
    ∷ base_name "git_credentials" ".git-credentials"
    ∷ component "ssh_dir" ".ssh"
    ∷ component "aws_dir" ".aws"
    ∷ component "gnupg_dir" ".gnupg"
    ∷ full "wireguard" "/etc/wireguard/*"
    ∷ full "sssd_secrets" "/var/lib/sss/secrets/*"
    ∷ []
