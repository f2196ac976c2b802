-- ===== src/Check/Bind.antt =====
-- internal/check/bind.go: the parameters of a check, put in the places of its argument list. An error is one of
-- the constructors of `BindError`, without its text.
pub mod Valid
use Prim.Native.Char.{Char, code}
use Prim.Native.Nat.{◌-◌, ◌^◌, ◌*◌}
use Prim.Native.String
use scheck.Prelude.{
  String, ℕ, ◌+◌, Bool, true, false, not, ◌&&◌, ◌||◌, Option, none, some, List, [], ◌∷◌, ◌++◌, any,
  map_get, is_some, ltb, leb, ◌==◌, string_eq, nat_eq, contains, if◌then◌else◌,
}
use scheck.Prelude.Int.{ℤ, pos, negsuc, ltb_ℤ, sub_ℕ}
use scheck.Prelude.Strings.{has_prefix, split}
use scheck.Check.Catalog.{
  Check, Param, Kind, kind_path, kind_enum, kind_int, kind_ident, other_kind,
}

-- What is wrong with the parameters, or with the value of one.
pub data BindError : Type 0 where
  unknown_param missing_param bad_chars not_absolute traversal not_integer outside not_listed
        unknown_kind :
      BindError

-- A result with an error.
pub data Bound {ℓ} (A : Type ℓ) : Type ℓ where
  bound : A → Bound A
  failed : BindError → Bound A

infixl 10 ◌>>=◌
abbrev pub ◌>>=◌ {ℓ κ} : {A : Type ℓ} {B : Type κ} → Bound A → (A → Bound B) → Bound B
bound a >>= f = f a
failed e >>= f = failed e

lower_letter : ℕ → Bool
lower_letter c = leb b'a' c && leb c b'z'

digit_byte : ℕ → Bool
digit_byte c = leb b'0' c && leb c b'9'

-- The rest of a placeholder's name, up to the brace that ends the token.
name_tail : String → Option String
name_tail String.[] = none
name_tail (String.◌∷◌ c s) =
    let rest = name_tail s in
    if code c == b'}' && s == ""
    then some ""
    else if lower_letter (code c) || digit_byte (code c) || code c == b'_'
    then prepend c rest
    else none
  where
    prepend : Char → Option String → Option String
    prepend c none = none
    prepend c (some t) = some (String.◌∷◌ c t)

name_of : String → String
name_of String.[] = ""
name_of (String.◌∷◌ c s) =
    if lower_letter (code c) then or_empty (name_tail (String.◌∷◌ c s)) else ""
  where
    or_empty : Option String → String
    or_empty none = ""
    or_empty (some t) = t

-- `Placeholder`: the name in a token that is `{name}`, and the empty text for a literal.
pub placeholder : String → String
placeholder String.[] = ""
placeholder (String.◌∷◌ c s) = if code c == b'{' then name_of s else ""

ident_byte : ℕ → Bool
ident_byte c =
    (leb b'A' c && leb c b'Z')
    || lower_letter c
    || digit_byte c
    || c == b'.'
    || c == b'_'
    || c == b'-'

every : (ℕ → Bool) → String → Bool
every p String.[] = true
every p (String.◌∷◌ c s) = p (code c) && every p s

-- `pathCharsRe` and `identCharsRe`.
pub path_chars : String → Bool
path_chars s = not (s == "") && every (λ c. ident_byte c || c == b'/') s

pub ident_chars : String → Bool
ident_chars s = not (s == "") && every ident_byte s

-- `validatePath`.
pub validate_path : String → Bound Bool
validate_path val =
    if not (path_chars val)
    then failed bad_chars
    else if not (has_prefix val "/")
    then failed not_absolute
    else if contains (split val b'/') ".."
    then failed traversal
    else bound true

digits_from : ℕ → String → Option ℕ
digits_from n String.[] = some n
digits_from n (String.◌∷◌ c s) =
    let rest = digits_from (n * 10 + (code c - b'0')) s in
    if digit_byte (code c) then rest else none

some_digits : String → Option ℕ
some_digits s = if s == "" then none else digits_from 0 s

up_to : ℕ → Option ℕ → Option ℕ
up_to limit none = none
up_to limit (some n) = if leb n limit then some n else none

positive : Option ℕ → Option ℤ
positive none = none
positive (some n) = some (pos n)

negative : Option ℕ → Option ℤ
negative none = none
negative (some n) = some (sub_ℕ 0 n)

-- `strconv.Atoi`: a sign or none, then decimal digits, in the range of 64 bits.
pub atoi : String → Option ℤ
atoi String.[] = none
atoi (String.◌∷◌ c s) =
    if code c == b'-'
    then negative (up_to (2 ^ 63) (some_digits s))
    else if code c == b'+'
    then positive (up_to (2 ^ 63 - 1) (some_digits s))
    else positive (up_to (2 ^ 63 - 1) (some_digits (String.◌∷◌ c s)))

within : Param → Option ℤ → Bound Bool
within p none = failed not_integer
within p (some n) = if ltb_ℤ n p.lowest || ltb_ℤ p.highest n then failed outside else bound true

by_kind : Kind → Param → String → Bound Bool
by_kind kind_path p val = validate_path val
by_kind kind_ident p val = if ident_chars val then bound true else failed bad_chars
by_kind kind_int p val = within p (atoi val)
by_kind kind_enum p val = if contains p.values val then bound true else failed not_listed
by_kind other_kind p val = failed unknown_kind

-- `ValidateParam`; a nil error is `bound true`.
pub validate_param : Param → String → Bound Bool
validate_param p val = by_kind p.kind p val

-- The loop that fills `byName`: a later parameter of a name takes the place of an earlier one.
by_name : List (String × Param) → List Param → List (String × Param)
by_name m [] = m
by_name m (p ∷ ps) = by_name ((p.name, p) ∷ m) ps

-- `Param{}`, which a missing key reads as.
zero_param : Param
zero_param = record { name = ""; kind = other_kind; values = []; lowest = pos 0; highest = pos 0 }

or_zero : Option Param → Param
or_zero none = zero_param
or_zero (some p) = p

-- The parameter that a check declares under a name.
pub declared : Check → String → Param
declared c name = or_zero (map_get (by_name [] c.params) name)

pub is_declared : Check → String → Bool
is_declared c name = is_some (map_get (by_name [] c.params) name)

given_value : Param → Option String → Bound String
given_value p none = failed missing_param
given_value p (some val) = do ok ← validate_param p val; bound val

-- One token of the argument list.
pub bind_token : Check → List (String × String) → String → Bound String
bind_token c params tok =
    let name = placeholder tok in
    if name == "" then bound tok else given_value (declared c name) (map_get params name)

pub bind_tokens : Check → List (String × String) → List String → Bound (List String)
bind_tokens c params [] = bound []
bind_tokens c params (tok ∷ toks) = do
  val ← bind_token c params tok
  vals ← bind_tokens c params toks
  bound (val ∷ vals)

-- `Check.Bind`; `params` is a map, so that no name stands in it twice.
pub bind : Check → List (String × String) → Bound (List String)
bind c params =
    if any (λ nv. not (is_declared c nv.0)) params
    then failed unknown_param
    else bind_tokens c params c.argv
