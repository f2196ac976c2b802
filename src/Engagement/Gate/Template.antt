-- ===== src/Engagement/Gate/Template.antt =====
-- internal/engagement/gate/op.go: the parts of a URL template, and its placeholders.
use Prim.Native.Char.{code}
use scheck.Prelude.{
  String, ℕ, Bool, false, ◌&&◌, ◌||◌, Option, none, some, List, [], ◌∷◌, is_some, leb, ◌==◌, nat_eq,
  string_eq, if◌then◌else◌,
}
use scheck.Prelude.Strings.{◌+◌, has_prefix, trim_prefix}

add_before : String → Option (String × String) → Option (String × String)
add_before c none = none
add_before c (some (s, t)) = some (c + s, t)

-- `strings.Cut`, at a separator that is not empty.
pub cut : String → String → Option (String × String)
cut String.[] sep = none
cut (String.◌∷◌ c s) sep =
    let later = add_before (String.◌∷◌ c String.[]) (cut s sep) in
    if has_prefix (String.◌∷◌ c s) sep then some ("", trim_prefix (String.◌∷◌ c s) sep) else later

pub whole_if_none : String → Option (String × String) → String × String
whole_if_none s none = (s, "")
whole_if_none s (some parts) = parts

at_slash : String → Option (String × String) → String × String
at_slash s none = (s, "")
at_slash s (some (h, p)) = (h, "/" + p)

-- The characters of a placeholder's name.
in_name : ℕ → Bool
in_name c = (leb b'a' c && leb c b'z') || c == b'_'

-- The names in `{name}`, in their order: inside a brace with the name so far, or outside.
names_from : Option String → String → List String
names_from acc String.[] = []
names_from none (String.◌∷◌ c s) = names_from (if code c == b'{' then some "" else none) s
names_from (some acc) (String.◌∷◌ c s) =
    let inside = names_from (some (acc + String.◌∷◌ c String.[])) s in
    let again = names_from (some "") s in
    let outside = names_from none s in
    if code c == b'}'
    then (if acc == "" then outside else acc ∷ outside)
    else if in_name (code c)
    then inside
    else if code c == b'{'
    then again
    else outside

-- `placeholder.FindAllStringSubmatch`.
pub placeholders : String → List String
placeholders s = names_from none s

first_is : String → List String → Bool
first_is s [] = false
first_is s (n ∷ ns) = s == ("{" + (n + "}"))

-- Whether a text is one placeholder.
pub is_placeholder : String → Bool
is_placeholder s = first_is s (placeholders s)

-- The parts of a URL template, and whether it has a scheme.
pub record Template : Type 0 where
  pub has_scheme : Bool
  pub scheme : String
  pub host : String
  pub path : String
  pub query : String

host_and_rest : String → String × String
host_and_rest rest =
    if has_prefix rest "{host}"
    then ("{host}", trim_prefix rest "{host}")
    else at_slash rest (cut rest "/")

-- `parseTemplate`, as far as it takes the template apart.
pub template : String → Template
template url =
    let (scheme, rest) = whole_if_none url (cut url "://") in
    let (host, path_query) = host_and_rest rest in
    let (path, query) = whole_if_none path_query (cut path_query "?") in
    record {
      has_scheme = is_some (cut url "://");
      scheme = scheme;
      host = host;
      path = path;
      query = query;
    }
