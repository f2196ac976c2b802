-- ===== src/Check/Parse.antt =====
-- internal/check/parse.go: from the text of an output to the value of its fact. The expressions `kvAssign` and
-- `kvColon`, and the decoder of JSON, are parameters.
pub mod Keys
use Prim.Native.Char.{Char, code}
use Prim.Native.String
use scheck.Prelude.{
  String, ℕ, Bool, true, false, not, ◌&&◌, ◌||◌, Option, none, some, List, [], ◌∷◌, ◌++◌, keep, map,
  map_get, is_some, ltb, ◌==◌, string_eq, nat_eq, if◌then◌else◌,
}
use scheck.Prelude.Strings.{has_prefix, trim_space, to_lower, split}
use scheck.Check.Catalog.{
  Check, Parser, parse_raw, parse_lines, parse_kv, parse_json, parse_listeners, parse_accounts,
  parse_passwd_status, parse_units, parse_updates, parse_launchd, parse_file_mode, other_parser,
}
use scheck.Check.Record.{Records, Parsed, kv, raw, lines, records, is_marker_line}
use scheck.Check.Typed.{Patterns, parse_records}

-- What the two expressions find in a line: the key and the value.
pub record KvPatterns : Type 0 where
  pub assign : String → Option (String × String)
  pub colon : String → Option (String × String)

all_returns : String → Bool
all_returns String.[] = true
all_returns (String.◌∷◌ c s) = code c == 13 && all_returns s

-- `strings.TrimRight(l, "\r")`.
trim_returns : String → String
trim_returns String.[] = String.[]
trim_returns (String.◌∷◌ c s) =
    let rest = trim_returns s in
    if all_returns (String.◌∷◌ c s) then String.[] else String.◌∷◌ c rest

-- `parseLines`.
pub lines_of : String → List String
lines_of text = keep (λ l. not (trim_space l == "")) (map trim_returns (split text 10))

is_blank : Char → Bool
is_blank c = code c == 32 || code c == 9

-- `strings.IndexAny(l, " \t")`: what stands before the first blank, and behind it.
cut_blank : String → Option (String × String)
cut_blank String.[] = none
cut_blank (String.◌∷◌ c s) =
    let rest = behind c (cut_blank s) in if is_blank c then some ("", s) else rest
  where
    behind : Char → Option (String × String) → Option (String × String)
    behind c none = none
    behind c (some (before, after)) = some (String.◌∷◌ c before, after)

-- `strings.TrimLeft(v, "=:")`.
trim_seps : String → String
trim_seps String.[] = String.[]
trim_seps (String.◌∷◌ c s) =
    let rest = trim_seps s in if code c == b'=' || code c == b':' then rest else String.◌∷◌ c s

-- The third form of a line; a line that starts with the separator has no key.
by_blank : Option (String × String) → Option (String × String)
by_blank none = none
by_blank (some (k, v)) = if k == "" then none else some (k, trim_seps (trim_space v))

or_else : Option (String × String) → Option (String × String) → Option (String × String)
or_else none later = later
or_else (some found) later = some found

ends_in : Char → String → Bool
ends_in q String.[] = false
ends_in q (String.◌∷◌ c s) = if s == "" then code c == code q else ends_in q s

without_last : String → String
without_last String.[] = String.[]
without_last (String.◌∷◌ c s) =
    let rest = String.◌∷◌ c (without_last s) in if s == "" then s else rest

-- The value without quotes around it.
unquote : String → String
unquote String.[] = String.[]
unquote (String.◌∷◌ c s) =
    if (code c == 34 || code c == 39) && ends_in c s then without_last s else String.◌∷◌ c s

clean_pair : Option (String × String) → Option (String × String)
clean_pair none = none
clean_pair (some (k, v)) = some (to_lower (trim_space k), unquote (trim_space v))

-- One turn of the loop of `parseKV`: the key and the value of a line, if it has them.
pub kv_line : KvPatterns → String → Option (String × String)
kv_line pats line =
    let l = trim_space line in
    if has_prefix l "#" || is_marker_line l
    then none
    else clean_pair (or_else (pats.assign l) (or_else (pats.colon l) (by_blank (cut_blank l))))

-- A repeated key keeps its first value.
pub add_pair : List (String × String) → Option (String × String) → List (String × String)
add_pair out none = out
add_pair out (some (k, v)) = if is_some (map_get out k) then out else out ++ (k, v) ∷ []

pub add_lines : KvPatterns → List (String × String) → List String → List (String × String)
add_lines pats out [] = out
add_lines pats out (l ∷ ls) = add_lines pats (add_pair out (kv_line pats l)) ls

-- `parseKV`.
pub pairs_of : KvPatterns → String → List (String × String)
pairs_of pats text = add_lines pats [] (lines_of text)

first_token : List String → String
first_token [] = ""
first_token (bin ∷ rest) = bin

typed : Option Records → Option Parsed
typed none = none
typed (some recs) = some (records recs)

by_parser :
    Patterns → KvPatterns → (String → Option Parsed) → Parser → String → String → Option Parsed
by_parser pats kvs json parse_raw bin text = some (raw text)
by_parser pats kvs json parse_lines bin text = some (lines (lines_of text))
by_parser pats kvs json parse_kv bin text = some (kv (pairs_of kvs text))
by_parser pats kvs json parse_json bin text = if trim_space text == "" then none else json text
by_parser pats kvs json other_parser bin text = none
by_parser pats kvs json shape bin text = typed (parse_records pats shape bin (lines_of text))

-- `bytes.TrimPrefix` of the byte order mark.
trim_bom : String → String
trim_bom String.[] = String.[]
trim_bom (String.◌∷◌ c s) = if code c == 0xfeff then s else String.◌∷◌ c s

-- `Parse`; `none` is its error.
pub parse : Patterns → KvPatterns → (String → Option Parsed) → Check → String → Option Parsed
parse pats kvs json c text = by_parser pats kvs json c.parser (first_token c.argv) (trim_bom text)
