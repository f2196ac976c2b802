-- ===== src/Check/Record.antt =====
-- internal/check/typed.go: what a parsed capture looks like to a posture rule. A fact is one of the shapes that a parser returns, and `absent` where
-- Go has nil.
use scheck.Prelude.{String, Bool, ◌||◌, Option, none, some, List, map_get}
use scheck.Prelude.Strings.{has_prefix, has_infix, trim_space}

-- `Record`: a map from the field's name to its value.
abbrev pub Record : Type 0
Record = List (String × String)

-- `Records`, less its kind and note.
pub record Records : Type 0 where
  pub items : List Record
  pub is_partial : Bool

-- The shapes of a fact.
pub data Parsed : Type 0 where
  kv : List (String × String) → Parsed
  raw : String → Parsed
  lines : List String → Parsed
  records : Records → Parsed
  absent : Parsed

-- A read of a Go map that has the empty text where the key is missing.
value_or_empty : Option String → String
value_or_empty none = ""
value_or_empty (some v) = v

pub field : Record → String → String
field rec name = value_or_empty (map_get rec name)

-- `isMarkerLine`.
pub is_marker_line : String → Bool
is_marker_line l = let t = trim_space l in has_prefix t "[TRUNCATED:" || has_prefix t "[REDACTED:"

-- `hasMarker`.
pub has_marker : String → Bool
has_marker s = has_infix s "[REDACTED:" || has_infix s "[TRUNCATED:"
