-- ===== src/Finding/Predicate.antt =====
-- internal/finding/rule.go: the verdict of a posture rule's predicate over one fact. A regular
-- expression is a function from texts to Bool, since Go's regexp engine is not modelled.
pub mod Fields
pub mod Lines
use scheck.Prelude.{
  String, ℕ, ◌-◌, Bool, true, false, not, ◌&&◌, ◌||◌, Option, none, some, List, [], ◌∷◌, any,
  length, ltb, map_get, ◌==◌, string_eq, nat_eq, if◌then◌else◌,
}
use scheck.Prelude.Strings.{◌+◌, to_lower, equal_fold, trim_space, join, fields, decimal}
use scheck.Check.Record.{
  Record, Records, Parsed, kv, raw, lines, records, absent, field, is_marker_line, has_marker,
}

-- The assessment statuses.
pub data Status : Type 0 where
  matched not_matched not_applicable not_assessed : Status

-- `Verdict`.
pub record Verdict : Type 0 where
  pub status : Status
  pub reason : String
  pub excerpt : String
  pub with_excerpt : String

abbrev pub matched_verdict : String → String → Verdict
matched_verdict why text = record {
  status = matched;
  reason = why;
  excerpt = text;
  with_excerpt = "";
}

abbrev pub not_matched_verdict : String → String → Verdict
not_matched_verdict why text = record {
  status = not_matched;
  reason = why;
  excerpt = text;
  with_excerpt = "";
}

abbrev pub not_assessed_verdict : String → Verdict
not_assessed_verdict why = record {
  status = not_assessed;
  reason = why;
  excerpt = "";
  with_excerpt = "";
}

-- `known`.
pub known : String → List String → Bool
known v set = any (λ k. equal_fold v k) set

-- `excerptFields`.
unfoldable excerpt_fields : List String
excerpt_fields =
    "name" ∷ "label" ∷ "status" ∷ "state" ∷ "version" ∷ "mode" ∷ "symbolic" ∷ "user" ∷ "group"
    ∷ "uid" ∷ "shell" ∷ "protocol" ∷ "address" ∷ "port" ∷ "process" ∷ "pid" ∷ []

excerpt_parts : Record → List String → List String
excerpt_parts rec [] = []
excerpt_parts rec (f ∷ fs) =
    let rest = excerpt_parts rec fs in
    let v = field rec f in if v == "" then rest else (f + "=" + v) ∷ rest

excerpt_of : List String → String
excerpt_of [] = "(empty record)"
excerpt_of (p ∷ ps) = join (p ∷ ps) " "

-- `recordExcerpt`.
pub record_excerpt : Record → String
record_excerpt rec = excerpt_of (excerpt_parts rec excerpt_fields)

squeeze : String → String
squeeze s = join (fields s) " "

-- `KeyEquals`.
pub record KeyEquals : Type 0 where
  pub key : String
  pub value : String
  pub known_values : List String

key_value : KeyEquals → Option String → Verdict
key_value p none = not_assessed_verdict "key-absent"
key_value p (some v) =
    let got = to_lower (trim_space v) in
    if has_marker v
    then not_assessed_verdict "value-redacted-or-truncated"
    else if got == to_lower p.value
    then matched_verdict "recognized-matching-value" (p.key + " " + v)
    else if not (known got p.known_values)
    then not_assessed_verdict "unrecognized-value"
    else not_matched_verdict "recognized-other-value" (p.key + " " + v)

-- `KeyEquals.Eval`.
pub eval_key_equals : KeyEquals → Parsed → Verdict
eval_key_equals p (kv m) = key_value p (map_get m p.key)
eval_key_equals p _ = not_assessed_verdict "unexpected-parsed-shape"

-- `RawMatch`; the empty `Requires` is `none`.
pub record RawMatch : Type 0 where
  pub matches : String → Bool
  requires : Option (String → Bool)

recognized : Option (String → Bool) → String → Bool
recognized none line = true
recognized (some re) line = re line

-- `RawMatch.Eval`.
pub eval_raw_match : RawMatch → Parsed → Verdict
eval_raw_match p (raw s) =
    let line = squeeze s in
    if has_marker s
    then not_assessed_verdict "value-redacted-or-truncated"
    else if not (recognized p.requires line)
    then not_assessed_verdict "unrecognized-state"
    else if p.matches line
    then matched_verdict "recognized-matching-state" line
    else not_matched_verdict "recognized-other-state" line
eval_raw_match p _ = not_assessed_verdict "unexpected-parsed-shape"

-- The loop of `AnyLine.Eval`, with its flag.
pub any_line_loop : (String → Bool) → Bool → List String → Verdict
any_line_loop re true [] = not_assessed_verdict "partial-output"
any_line_loop re false [] = not_matched_verdict "no-matching-line" ""
any_line_loop re is_part (l ∷ ls) =
    let cut = any_line_loop re true ls in
    let rest = any_line_loop re (is_part || has_marker l) ls in
    if is_marker_line l
    then cut
    else if re l
    then matched_verdict "matching-line" (squeeze l)
    else rest

-- `AnyLine.Eval`.
pub eval_any_line : (String → Bool) → Parsed → Verdict
eval_any_line re (lines ls) = any_line_loop re false ls
eval_any_line re _ = not_assessed_verdict "unexpected-parsed-shape"

-- `FieldEquals`.
pub record FieldEquals : Type 0 where
  pub name : String
  pub value : String
  pub known_values : List String

-- The loop of `FieldEquals.Eval`, with whether the population is partial and the flag `unrecognized`.
pub field_equals_loop : FieldEquals → Bool → Bool → List Record → Verdict
field_equals_loop p true odd [] = not_assessed_verdict "partial-output"
field_equals_loop p false true [] = not_assessed_verdict "unrecognized-value"
field_equals_loop p false false [] = not_matched_verdict "no-matching-record" ""
field_equals_loop p is_part odd (rec ∷ recs) =
    let v = trim_space (field rec p.name) in
    let unread = field_equals_loop p is_part true recs in
    let rest = field_equals_loop p is_part (odd || not (known (to_lower v) p.known_values)) recs in
    if v == "" || has_marker v
    then unread
    else if equal_fold v p.value
    then matched_verdict "recognized-matching-record" (record_excerpt rec)
    else rest

-- `FieldEquals.Eval`.
pub eval_field_equals : FieldEquals → Parsed → Verdict
eval_field_equals p (records r) = field_equals_loop p r.is_partial false r.items
eval_field_equals p _ = not_assessed_verdict "unexpected-parsed-shape"

count_note : Bool → ℕ → String
count_note true n = " (at least " + decimal n + ")"
count_note false n = if ltb 1 n then " (+" + decimal (n - 1) + " more)" else ""

pub any_record_of : Bool → List Record → Verdict
any_record_of true [] = not_assessed_verdict "partial-output"
any_record_of false [] = not_matched_verdict "no-records" ""
any_record_of is_part (rec ∷ recs) =
    matched_verdict "records-present"
      (record_excerpt rec + count_note is_part (length (rec ∷ recs)))

-- `AnyRecord.Eval`.
pub eval_any_record : Parsed → Verdict
eval_any_record (records r) = any_record_of r.is_partial r.items
eval_any_record _ = not_assessed_verdict "unexpected-parsed-shape"

-- `FieldOutside`.
pub record FieldOutside : Type 0 where
  pub name : String
  pub allowed : List String
  pub recognize : String → Bool

-- The loop of `FieldOutside.Eval`, with the excerpt of the first record.
pub field_outside_loop : FieldOutside → String → List Record → Verdict
field_outside_loop p first [] = not_matched_verdict "recognized-expected-value" first
field_outside_loop p first (rec ∷ recs) =
    let v = trim_space (field rec p.name) in
    let rest = field_outside_loop p first recs in
    if v == "" || has_marker v || not (p.recognize v)
    then not_assessed_verdict "unrecognized-value"
    else if not (known v p.allowed)
    then matched_verdict "recognized-value-outside-expected-set" (record_excerpt rec)
    else rest

pub field_outside_of : FieldOutside → List Record → Verdict
field_outside_of p [] = not_assessed_verdict "no-records"
field_outside_of p (rec ∷ recs) = field_outside_loop p (record_excerpt rec) (rec ∷ recs)

-- `FieldOutside.Eval`.
pub eval_field_outside : FieldOutside → Parsed → Verdict
eval_field_outside p (records r) = field_outside_of p r.items
eval_field_outside p _ = not_assessed_verdict "unexpected-parsed-shape"
