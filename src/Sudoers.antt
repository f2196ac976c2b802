-- ===== src/Sudoers.antt =====
-- internal/sudoers/sudoers.go: the fragment that grants the elevated checks of a platform.
pub mod Words
use Prim.Native.Char.{Char, code}
use Prim.Native.String
use Prim.Native.String.{compare}
use Prim.Native.Nat.{Ordering}
use scheck.Prelude.{
  String, Bool, true, false, not, ◌&&◌, ◌||◌, Option, none, some, List, [], ◌∷◌, ◌++◌, any, map,
  map_get, ◌==◌, string_eq, nat_eq, if◌then◌else◌,
}
use scheck.Prelude.Sort.{sort_stable}
use scheck.Prelude.Strings.{◌+◌, has_prefix, join}
use scheck.Check.Catalog.{Check, Platform, macos, linux, any_platform, for_platform}
use scheck.Check.Bind.{placeholder}
use scheck.Finding.Severity.{hardened}

-- `binaryPaths`; `none` is a platform without an entry.
binary_paths : Platform → Option (List (String × String))
binary_paths linux = some (
    ("sshd", "/usr/sbin/sshd")
    ∷ ("cat", "/usr/bin/cat")
    ∷ ("grep", "/usr/bin/grep")
    ∷ ("stat", "/usr/bin/stat")
    ∷ ("find", "/usr/bin/find")
    ∷ ("ufw", "/usr/sbin/ufw")
    ∷ ("nft", "/usr/sbin/nft")
    ∷ ("aa-status", "/usr/sbin/aa-status")
    ∷ ("passwd", "/usr/bin/passwd")
    ∷ ("firewall-cmd", "/usr/bin/firewall-cmd")
    ∷ ("iptables", "/usr/sbin/iptables")
    ∷ ("auditctl", "/usr/sbin/auditctl")
    ∷ ("journalctl", "/usr/bin/journalctl")
    ∷ ("ss", "/usr/bin/ss")
    ∷ [])
binary_paths macos = some (
    ("sshd", "/usr/sbin/sshd")
    ∷ ("cat", "/bin/cat")
    ∷ ("grep", "/usr/bin/grep")
    ∷ ("stat", "/usr/bin/stat")
    ∷ ("find", "/usr/bin/find")
    ∷ ("systemsetup", "/usr/sbin/systemsetup")
    ∷ ("fdesetup", "/usr/bin/fdesetup")
    ∷ ("softwareupdate", "/usr/sbin/softwareupdate")
    ∷ ("socketfilterfw", "/usr/libexec/ApplicationFirewall/socketfilterfw")
    ∷ ("launchctl", "/bin/launchctl")
    ∷ ("log", "/usr/bin/log")
    ∷ ("defaults", "/usr/bin/defaults")
    ∷ ("dscl", "/usr/bin/dscl")
    ∷ ("csrutil", "/usr/bin/csrutil")
    ∷ ("spctl", "/usr/sbin/spctl")
    ∷ ("pfctl", "/sbin/pfctl")
    ∷ ("security", "/usr/bin/security")
    ∷ ("profiles", "/usr/bin/profiles")
    ∷ ("tmutil", "/usr/bin/tmutil")
    ∷ ("kextstat", "/usr/sbin/kextstat")
    ∷ ("systemextensionsctl", "/usr/bin/systemextensionsctl")
    ∷ [])
binary_paths any_platform = none

-- `alsoAt[p][bin]`.
also_at : Platform → String → List String
also_at linux bin = if bin == "ss" then "/usr/sbin/ss" ∷ [] else []
also_at _ bin = []

-- The characters that `escape` protects.
pub is_special : Char → Bool
is_special c =
    code c == b'\\'
    || code c == b','
    || code c == b':'
    || code c == b'='
    || code c == b' '
    || code c == b'#'

pub escape_chars : String → String
escape_chars String.[] = String.[]
escape_chars (String.◌∷◌ c s) =
    let rest = String.◌∷◌ c (escape_chars s) in if is_special c then String.◌∷◌ "\\" rest else rest

-- `escape`.
pub escape : String → String
escape tok = if tok == "" then "\"\"" else escape_chars tok

-- A token in a line: any text for a placeholder.
argument : String → String
argument tok = if placeholder tok == "" then escape tok else escape "*"

-- The arguments of a line.
pub arguments : List String → String
arguments toks = join (map argument toks) " "

command : String → List String → String
command path [] = path + " \"\""
command path (tok ∷ toks) = path + " " + arguments (tok ∷ toks)

-- The absolute path of a binary.
pub absolute : List (String × String) → String → Option String
absolute paths bin = if has_prefix bin "/" then some bin else known (map_get paths bin)
  where
    known : Option String → Option String
    known none = none
    known (some p) = if p == "" then none else some p

lines_of : String → String → List String → List String → List String
lines_of user id toks [] = []
lines_of user id toks (path ∷ paths) =
    (user + " ALL=(root) NOPASSWD: " + command path toks + "  # " + id)
    ∷ lines_of user id toks paths

lines_at : Platform → String → Check → String → List String → Option String → Option (List String)
lines_at p user c bin toks none = none
lines_at p user c bin toks (some abs) = some (lines_of user c.id toks (abs ∷ also_at p bin))

lines_by : Platform → List (String × String) → String → Check → List String → Option (List String)
lines_by p paths user c [] = none
lines_by p paths user c (bin ∷ toks) = lines_at p user c bin toks (absolute paths bin)

-- The lines of one elevated check; `none` where its binary has no known path.
check_lines : Platform → List (String × String) → String → Check → Option (List String)
check_lines p paths user c = lines_by p paths user c c.argv

both : Option (List String) → Option (List String) → Option (List String)
both (some xs) (some ys) = some (xs ++ ys)
both _ _ = none

-- The loop over the checks.
all_lines : Platform → List (String × String) → String → List Check → Option (List String)
all_lines p paths user [] = some []
all_lines p paths user (c ∷ cs) =
    let rest = all_lines p paths user cs in
    if c.elevated then both (check_lines p paths user c) rest else rest

-- The ids of the checks whose lines hold a wildcard, once for each of its placeholders.
wildcards_of : String → List String → List String
wildcards_of id [] = []
wildcards_of id (tok ∷ toks) =
    let rest = wildcards_of id toks in if placeholder tok == "" then rest else id ∷ rest

tail_of : List String → List String
tail_of [] = []
tail_of (x ∷ xs) = xs

wildcards : List Check → List String
wildcards [] = []
wildcards (c ∷ cs) =
    let rest = wildcards cs in
    if c.elevated then wildcards_of c.id (tail_of c.argv) ++ rest else rest

-- `dedupe`, behind the element before.
dedupe_after : String → List String → List String
dedupe_after last [] = []
dedupe_after last (v ∷ vs) = let rest = dedupe_after v vs in if v == last then rest else v ∷ rest

dedupe : List String → List String
dedupe [] = []
dedupe (v ∷ vs) = v ∷ dedupe_after v vs

less : String → String → Bool
less s t = elim (compare s t) [ Ordering.lt ↦ true | _ ↦ false ]

platform_name : Platform → String
platform_name macos = "macos"
platform_name linux = "linux"
platform_name any_platform = "any"

wildcard_note : List String → String
wildcard_note [] = ""
wildcard_note (w ∷ ws) =
    "# Parameterised checks ("
    + join (dedupe (sort_stable less (w ∷ ws))) ", "
    + ") use a sudoers wildcard for the parameter; scheck itself\n"
    + "# restricts the value to the parameter's charset and path policy before calling sudo.\n"

line_texts : List String → String
line_texts [] = ""
line_texts (l ∷ ls) = l + "\n" + line_texts ls

fragment : Platform → String → List String → List String → String
fragment p user ws lines =
    "# scheck elevated checks for "
    + user
    + " on "
    + platform_name p
    + " — generated from the compiled catalog.\n"
    + "# Review, then install with: visudo -cf - < fragment && install -m 440 fragment /etc/sudoers.d/scheck\n"
    + "# Every line grants exactly one read-only command with fixed flags; scheck runs them as `sudo -n -- ...`.\n"
    + wildcard_note ws
    + "Defaults:"
    + user
    + " !requiretty\n"
    + line_texts (sort_stable less lines)

with_lines : Platform → String → List Check → Option (List String) → Option String
with_lines p user cs none = none
with_lines p user cs (some lines) = some (fragment p user (wildcards cs) lines)

with_paths : List Check → Platform → String → Option (List (String × String)) → Option String
with_paths cs p user none = none
with_paths cs p user (some paths) = with_lines p user cs (all_lines p paths user cs)

-- `Generate`, over the entries of the catalog; `none` is an error.
generate : List Check → Platform → String → Option String
generate entries p user = with_paths (for_platform entries p hardened) p user (binary_paths p)
