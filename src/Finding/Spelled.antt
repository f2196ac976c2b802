-- ===== src/Finding/Spelled.antt =====
-- internal/finding/store.go: the words of a candidate, as validation reads them.
use Prim.Native.Char.{Char, code}
use scheck.Prelude.{
  String, ℕ, suc, Bool, false, ◌&&◌, ◌||◌, Option, none, some, leb, ◌==◌, string_eq, nat_eq,
  if◌then◌else◌,
}
use scheck.Prelude.Strings.{has_prefix, trim_prefix}
use scheck.Check.Catalog.{platform_eq}
use scheck.Finding.Severity.{Severity, critical, high, medium, low, info}
use scheck.Finding.Report.{Confidence, confidence_high, confidence_medium, confidence_low}

-- The values of `Confidence`.
pub parse_confidence : String → Option Confidence
parse_confidence s =
    if s == "high"
    then some confidence_high
    else if s == "medium"
    then some confidence_medium
    else if s == "low"
    then some confidence_low
    else none

-- The texts whose `Rank` is not negative.
pub parse_severity : String → Option Severity
parse_severity s =
    if s == "critical"
    then some critical
    else if s == "high"
    then some high
    else if s == "medium"
    then some medium
    else if s == "low"
    then some low
    else if s == "info"
    then some info
    else none

-- The letters of a custom id behind its first: `[a-z0-9_-]`.
pub slug_char : Char → Bool
slug_char c =
    (leb b'a' (code c) && leb (code c) b'z')
    || (leb b'0' (code c) && leb (code c) b'9')
    || code c == b'_'
    || code c == b'-'

pub slug_tail : ℕ → String → Bool
slug_tail n String.[] = leb 2 n && leb n 63
slug_tail n (String.◌∷◌ c s) = slug_char c && slug_tail (suc n) s

pub slug_head : String → Bool
slug_head String.[] = false
slug_head (String.◌∷◌ c s) =
    ((leb b'a' (code c) && leb (code c) b'z') || (leb b'0' (code c) && leb (code c) b'9'))
    && slug_tail 0 s

-- `customSlug`: `^custom:[a-z0-9][a-z0-9_-]{2,63}$`.
pub custom_slug : String → Bool
custom_slug id = has_prefix id "custom:" && slug_head (trim_prefix id "custom:")

pub or_tcp : String → String
or_tcp p = if p == "" then "tcp" else p
