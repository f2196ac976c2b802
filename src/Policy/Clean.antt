-- ===== src/Policy/Clean.antt =====
-- Go's `path.Clean` and `path.Base`, which internal/policy/path.go calls.
pub mod Elements
pub mod Idempotent
use mathlib.Core.List.{reverse}
use scheck.Prelude.{
  String, Bool, true, false, not, ◌||◌, List, [], ◌∷◌, keep, ◌==◌, string_eq, if◌then◌else◌,
}
use scheck.Prelude.Strings.{◌+◌, has_prefix, split, join}

-- `..` takes the last element away; a rooted path has none above its root.
unfoldable pub pop : Bool → List String → List String
pop rooted [] = if rooted then [] else ".." ∷ []
pop rooted (t ∷ stack) = if t == ".." then ".." ∷ t ∷ stack else stack

-- One element of a path, on the elements so far with the last at the head.
unfoldable pub push : Bool → List String → String → List String
push rooted stack seg =
    if seg == "" || seg == "." then stack else if seg == ".." then pop rooted stack else seg ∷ stack

unfoldable pub push_all : Bool → List String → List String → List String
push_all rooted stack [] = stack
push_all rooted stack (seg ∷ segs) = push_all rooted (push rooted stack seg) segs

-- The elements of a cleaned path.
unfoldable pub elements : String → List String
elements p = reverse (push_all (has_prefix p "/") [] (split p b'/'))

unfoldable pub relative : List String → String
relative [] = "."
relative (s ∷ rest) = join (s ∷ rest) "/"

-- `path.Clean`.
unfoldable pub clean : String → String
clean p =
    if p == ""
    then "."
    else if has_prefix p "/"
    then "/" + join (elements p) "/"
    else relative (elements p)

unfoldable pub last_or : String → List String → String
last_or d [] = d
last_or d (s ∷ rest) = last_or s rest

-- `path.Base`.
unfoldable pub base : String → String
base p = if p == "" then "." else last_or "/" (keep (λ s. not (s == "")) (split p b'/'))
