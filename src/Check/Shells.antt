-- ===== src/Check/Shells.antt =====
-- internal/check/shells.go: which login shells refuse a login, and which are interactive.
use scheck.Prelude.{String, Bool, ◌||◌, List, [], ◌∷◌, contains, ◌==◌, string_eq}
use scheck.Prelude.Strings.{trim_space}
use scheck.Policy.Clean.{base}

-- `noLoginShells`.
unfoldable no_login_shells : List String
no_login_shells =
    "/usr/sbin/nologin" ∷ "/sbin/nologin" ∷ "/usr/bin/nologin" ∷ "/bin/false" ∷ "/usr/bin/false"
    ∷ "/bin/true" ∷ "/usr/bin/true" ∷ "/dev/null" ∷ "/bin/sync" ∷ "/usr/bin/sync" ∷ "/sbin/shutdown"
    ∷ "/usr/sbin/shutdown" ∷ "/sbin/halt" ∷ "/usr/sbin/halt" ∷ []

-- `RefusesLogin`.
pub refuses_login : String → Bool
refuses_login shell = contains no_login_shells (trim_space shell)

-- `interactiveShells`.
unfoldable interactive_shells : List String
interactive_shells =
    "sh" ∷ "bash" ∷ "dash" ∷ "zsh" ∷ "ksh" ∷ "mksh" ∷ "fish" ∷ "tcsh" ∷ "csh" ∷ "ash" ∷ "busybox"
    ∷ "rbash" ∷ "git-shell" ∷ []

-- `InteractiveShell`.
pub interactive_shell : String → Bool
interactive_shell shell =
    let s = trim_space shell in s == "" || contains interactive_shells (base s)
