-- ===== src/Check/Rows.antt =====
-- internal/check/typed.go: the loop that the parsers share, and what they use to take a line apart.
use Prim.Native.Char.{Char, code}
use scheck.Prelude.{
  String, ℕ, suc, Bool, false, Option, none, some, List, [], ◌∷◌, get_elem?, ◌==◌, string_eq,
  nat_eq, if◌then◌else◌,
}
use scheck.Prelude.Strings.{trim_prefix}
use scheck.Check.Record.{Record}

-- What a parser makes of a line: nothing, a line that it does not recognize, or a record.
pub data Line : Type 0 where
  skipped unparsed : Line
  row : Record → Line

unfoldable pub count : Line → List Record × ℕ → List Record × ℕ
count skipped rest = rest
count unparsed rest = (rest.0, suc rest.1)
count (row r) rest = (r ∷ rest.0, rest.1)

-- The loop that the parsers share.
unfoldable pub read_rows : (String → Line) → List String → List Record × ℕ
read_rows read [] = ([], 0)
read_rows read (l ∷ ls) = count (read l) (read_rows read ls)

-- `f[i]`, where the code has made sure of its presence.
pub text_at : List String → ℕ → String
text_at f i = or_empty (get_elem? f i)
  where
    or_empty : Option String → String
    or_empty none = ""
    or_empty (some s) = s

-- The text before the last of a separator, and the text behind it.
pub last_sep : ℕ → String → Option (String × String)
last_sep sep String.[] = none
last_sep sep (String.◌∷◌ c s) = further c s (last_sep sep s)
  where
    further : Char → String → Option (String × String) → Option (String × String)
    further c s (some (host, port)) = some (String.◌∷◌ c host, port)
    further c s none = if code c == sep then some ("", s) else none

-- `baseName`.
pub base_name : String → String
base_name p = behind p (last_sep b'/' p)
  where
    behind : String → Option (String × String) → String
    behind p none = p
    behind p (some (dir, name)) = name

pub without_last : String → String
without_last String.[] = String.[]
without_last (String.◌∷◌ c s) =
    let rest = String.◌∷◌ c (without_last s) in if s == "" then s else rest

pub ends_with : Char → String → Bool
ends_with d String.[] = false
ends_with d (String.◌∷◌ c s) = if s == "" then code c == code d else ends_with d s

-- `strings.TrimSuffix` of one character.
pub trim_last : Char → String → String
trim_last d s = if ends_with d s then without_last s else s

-- `splitHostPort`.
pub split_host_port : String → String × String
split_host_port s = at_colon s (last_sep b':' s)
  where
    at_colon : String → Option (String × String) → String × String
    at_colon s none = (s, "")
    at_colon s (some (host, port)) = (trim_last "]" (trim_prefix host "["), port)
