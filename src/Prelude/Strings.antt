-- ===== src/Prelude/Strings.antt =====
-- What the program uses of Go's package `strings`, over texts. Case folding is that of ASCII, and
-- white space is Go's `unicode.IsSpace`.
pub mod Order
use Prim.Native.Nat.{ℕ, zero, suc, ◌/◌, ◌%◌}
use Prim.Native.Char.{Char, code}
use Prim.Native.String
use Prim.Native.String.{String}
use mathlib.Core.Logic.{◌≢◌}
use mathlib.Core.Bool.{Bool, true, false, ◌&&◌, ◌||◌}
use mathlib.Core.List.{List, [], ◌∷◌}
use scheck.Prelude.Tests.{leb, ◌==◌, nat_eq, string_eq, if◌then◌else◌}

-- Concatenation.
infixr 65 ◌+◌
abbrev pub ◌+◌ : String → String → String
s + t = String.◌++◌ s t

-- The character of `tos` that stands where `c` stands in `froms`.
translate : String → String → Char → Char
translate (String.◌∷◌ u us) (String.◌∷◌ l ls) c = if code u == code c then l else translate us ls c
translate _ _ c = c

map_chars : (Char → Char) → String → String
map_chars f String.[] = String.[]
map_chars f (String.◌∷◌ c s) = String.◌∷◌ (f c) (map_chars f s)

-- `strings.ToLower`.
unfoldable pub to_lower : String → String
unfolding translate map_chars
to_lower = map_chars (translate "ABCDEFGHIJKLMNOPQRSTUVWXYZ" "abcdefghijklmnopqrstuvwxyz")

-- `strings.EqualFold`.
unfoldable pub equal_fold : String → String → Bool
unfolding to_lower
equal_fold s t = to_lower s == to_lower t

-- `strings.HasPrefix`.
unfoldable pub has_prefix : String → String → Bool
has_prefix s String.[] = true
has_prefix String.[] (String.◌∷◌ d t) = false
has_prefix (String.◌∷◌ c s) (String.◌∷◌ d t) = code c == code d && has_prefix s t

-- `strings.Contains`.
unfoldable pub has_infix : String → String → Bool
unfolding has_prefix
has_infix String.[] t = has_prefix String.[] t
has_infix (String.◌∷◌ c s) t = has_prefix (String.◌∷◌ c s) t || has_infix s t

-- `strings.HasSuffix`.
unfoldable pub has_suffix : String → String → Bool
has_suffix String.[] t = String.[] == t
has_suffix (String.◌∷◌ c s) t = String.◌∷◌ c s == t || has_suffix s t

drop_prefix : String → String → String
drop_prefix s String.[] = s
drop_prefix String.[] (String.◌∷◌ d t) = String.[]
drop_prefix (String.◌∷◌ c s) (String.◌∷◌ d t) = drop_prefix s t

-- `strings.TrimPrefix`.
unfoldable pub trim_prefix : String → String → String
unfolding has_prefix drop_prefix
trim_prefix s t = if has_prefix s t then drop_prefix s t else s

is_space : ℕ → Bool
is_space c =
    (leb 9 c && leb c 13)
    || c == 32
    || c == 0x85
    || c == 0xA0
    || c == 0x1680
    || (leb 0x2000 c && leb c 0x200a)
    || c == 0x2028
    || c == 0x2029
    || c == 0x202f
    || c == 0x205f
    || c == 0x3000

trim_left : String → String
trim_left String.[] = String.[]
trim_left (String.◌∷◌ c s) =
    let rest = trim_left s in if is_space (code c) then rest else String.◌∷◌ c s

all_space : String → Bool
all_space String.[] = true
all_space (String.◌∷◌ c s) = is_space (code c) && all_space s

trim_right : String → String
trim_right String.[] = String.[]
trim_right (String.◌∷◌ c s) =
    if all_space (String.◌∷◌ c s) then String.[] else String.◌∷◌ c (trim_right s)

-- `strings.TrimSpace`.
unfoldable pub trim_space : String → String
unfolding is_space trim_left all_space trim_right
trim_space s = trim_right (trim_left s)

-- `strings.Fields`, from the letters of the field being read.
fields_from : String → String → List String
fields_from acc String.[] = if acc == "" then [] else acc ∷ []
fields_from acc (String.◌∷◌ c s) =
    let next = fields_from "" s in
    let same = fields_from (String.◌++◌ acc (String.◌∷◌ c String.[])) s in
    if is_space (code c) then (if acc == "" then next else acc ∷ next) else same

-- `strings.Fields`.
unfoldable pub fields : String → List String
unfolding fields_from is_space
fields s = fields_from "" s

-- `strings.Join`.
unfoldable pub join : List String → String → String
join [] sep = ""
join (s ∷ []) sep = s
join (s ∷ t ∷ rest) sep = String.◌++◌ s (String.◌++◌ sep (join (t ∷ rest) sep))

unfoldable pub cons_head : Char → List String → List String
cons_head c [] = String.◌∷◌ c String.[] ∷ []
cons_head c (s ∷ rest) = String.◌∷◌ c s ∷ rest

-- `strings.Split` at a separator of one character: always at least one part.
unfoldable pub split : String → ℕ → List String
split String.[] sep = "" ∷ []
split (String.◌∷◌ c s) sep = if code c == sep then "" ∷ split s sep else cons_head c (split s sep)

-- A decimal digit.
digit : ℕ → Char
digit d = nth "0123456789" d
  where
    nth : String → ℕ → Char
    nth String.[] i = "0"
    nth (String.◌∷◌ c s) zero = c
    nth (String.◌∷◌ c s) (suc i) = nth s i

decimal_from : ℕ → ℕ → String → String
decimal_from zero n acc = acc
decimal_from (suc fuel) n acc =
    let rest = decimal_from fuel (n / 10) (String.◌∷◌ (digit (n % 10)) acc) in
    if leb n 9 then String.◌∷◌ (digit n) acc else rest

-- `fmt.Sprint` of a number. A number has no more digits than its value and one.
unfoldable pub decimal : ℕ → String
unfolding digit decimal_from
decimal n = decimal_from (suc n) n ""

-- No character of the text is `sep`.
abbrev pub Free : ℕ → String → Type 0
Free sep String.[] = Unit {0}
Free sep (String.◌∷◌ c s) = (code c ≢ sep) × Free sep s

-- The code points of a text: its bytes, if it is ASCII.
abbrev pub codes : String → List ℕ
codes String.[] = []
codes (String.◌∷◌ c s) = code c ∷ codes s
