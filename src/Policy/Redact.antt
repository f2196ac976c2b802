-- ===== src/Policy/Redact.antt =====
-- internal/policy/redact.go: the one pass that replaces every matched span by a marker. What a rule's
-- regular expression finds is a parameter, since Go's regexp engine is not modelled: a rule carries
-- the submatches that `FindAllSubmatchIndex` returns and the tests of its `keepIf` and `skipKey`.
pub mod Pieces
mod Order
pub mod Hidden
pub mod Overlap
use scheck.Prelude.{
  ℕ, zero, suc, ◌+◌, ◌-◌, String, Bool, true, false, not, ◌&&◌, ◌||◌, Option, none, some, List, [],
  ◌∷◌, ◌++◌, map, take, slice, length, ltb, leb, ◌==◌, nat_eq, if◌then◌else◌,
}
use scheck.Prelude.Sort.{sort_stable}
use scheck.Prelude.Strings.{◌+◌ as concat, decimal, codes}

abbrev pub Bytes : Type 0
Bytes = List ℕ

-- `Hit`.
pub record Hit : Type 0 where
  pub rule : String
  pub bytes : ℕ

-- One match: where the rule's group stands, and its key group; `none` where a group did not take part.
pub record Submatch : Type 0 where
  pub group : Option (ℕ × ℕ)
  pub key : Option (ℕ × ℕ)

-- `redactRule`, its regular expressions as functions.
pub record RedactRule : Type 0 where
  pub name : String
  pub find_all : Bytes → List Submatch
  pub keep_if : Option (Bytes → Bool)
  pub skip_key : Option (Bytes → Bool)

-- `span`.
pub record Span : Type 0 where
  pub start : ℕ
  pub stop : ℕ
  pub order : ℕ
  pub rule : String

-- `Marker`.
pub marker : String → ℕ → Bytes
marker rule n =
    codes (concat "[REDACTED:" (concat rule (concat ":" (concat (decimal n) " bytes]"))))

kept : Option (Bytes → Bool) → Bytes → Bool
kept none text = false
kept (some test) text = test text

skipped : Option (Bytes → Bool) → Option (ℕ × ℕ) → Bytes → Bool
skipped none key b = false
skipped (some test) none b = false
skipped (some test) (some (s, e)) b = test (slice b s e)

-- The span of a group.
span_at : Bytes → ℕ → RedactRule → Option (ℕ × ℕ) → Option (ℕ × ℕ) → List Span
span_at b order rule key none = []
span_at b order rule key (some (s, e)) =
    if leb e s || kept rule.keep_if (slice b s e) || skipped rule.skip_key key b
    then []
    else record { start = s; stop = e; order = order; rule = rule.name } ∷ []

-- The span of one match, if the rule does not leave it.
span_of : Bytes → ℕ → RedactRule → Submatch → List Span
span_of b order rule m = span_at b order rule m.key m.group

spans_of : Bytes → ℕ → RedactRule → List Submatch → List Span
spans_of b order rule [] = []
spans_of b order rule (m ∷ ms) = span_of b order rule m ++ spans_of b order rule ms

-- The spans of every rule, in the rules' order.
pub collect : Bytes → ℕ → List RedactRule → List Span
collect b order [] = []
collect b order (rule ∷ rules) =
    spans_of b order rule (rule.find_all b) ++ collect b (suc order) rules

-- The order of `sort.Slice`: by start, and then by the rules' order.
pub before : Span → Span → Bool
before x y = ltb x.start y.start || (x.start == y.start && ltb x.order y.order)

-- What is left behind the last span.
pub rest_of : Bytes → ℕ → ℕ → Bytes
rest_of b up_to last = if ltb last up_to then slice b last up_to else []

-- The loop over the sorted spans, from the end of the last one that was written.
pub write_out : Bytes → ℕ → ℕ → List Span → Bytes × List Hit
write_out b up_to last [] = (rest_of b up_to last, [])
write_out b up_to last (sp ∷ spans) =
    let skip = write_out b up_to last spans in
    let (out, hits) = write_out b up_to sp.stop spans in
    if ltb sp.start last then skip else if leb up_to sp.start then (rest_of b up_to last, []) else (
      slice b last sp.start ++ (marker sp.rule (sp.stop - sp.start) ++ out),
      record { rule = sp.rule; bytes = sp.stop - sp.start } ∷ hits,
    )

pub redact_spans : Bytes → ℕ → List Span → Bytes × List Hit
redact_spans b up_to [] = (take up_to b, [])
redact_spans b up_to (sp ∷ spans) = write_out b up_to 0 (sort_stable before (sp ∷ spans))

-- `Redactor.redactUpTo`.
unfoldable pub redact_up_to : List RedactRule → Bytes → ℕ → Bytes × List Hit
redact_up_to rules b up_to = redact_spans b up_to (collect b 0 rules)

-- `Redactor.Redact`.
unfoldable pub redact : List RedactRule → Bytes → Bytes × List Hit
redact rules b = redact_up_to rules b (length b)
