-- ===== src/Policy/Glob.antt =====
-- Go's `path.Match`, which internal/policy/path.go calls. Of its syntax the patterns of that file use
-- the star alone (`Samples.Paths.sensitive_rules-no_class`), so this is `path.Match` for the patterns that hold no
-- `?`, `[` or backslash.
pub mod Laws
use Prim.Native.Char.{Char, code}
use Prim.Native.String
use scheck.Prelude.{
  String, Bool, true, false, not, ◌&&◌, ◌||◌, ◌==◌, nat_eq, string_eq, if◌then◌else◌,
}

-- A star takes any run of characters that are not slashes; `rest` matches what follows.
pub star : (String → Bool) → String → Bool
star rest String.[] = rest String.[]
star rest (String.◌∷◌ c s) = rest (String.◌∷◌ c s) || (not (code c == b'/') && star rest s)

-- A character of a pattern that is no star takes the same character.
pub one : Char → (String → Bool) → String → Bool
one c rest String.[] = false
one c rest (String.◌∷◌ d s) = code c == code d && rest s

-- `path.Match`.
unfoldable pub glob : String → String → Bool
unfolding star one
glob String.[] s = s == ""
glob (String.◌∷◌ c p) s = if code c == b'*' then star (glob p) s else one c (glob p) s
