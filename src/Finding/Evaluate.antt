-- ===== src/Finding/Evaluate.antt =====
-- internal/finding/evaluate.go: the posture rules over a fact sheet. The table of rules is an argument,
-- and so are the two catalogs.
pub mod Order
pub mod Coverage
pub mod Reported
use Prim.Native.String.{compare}
use Prim.Native.Nat.{Ordering}
use scheck.Prelude.{
  String, ℕ, zero, suc, Bool, true, false, not, ◌&&◌, ◌||◌, Option, none, some, List, [], ◌∷◌, ◌++◌,
  any, keep, map, length, map_get, contains, ltb, leb, Eq, ◌==◌, string_eq, nat_eq, if◌then◌else◌,
  ◌↔◌, ◌≡◌, arith,
}
use scheck.Prelude.Strings.{◌+◌}
use scheck.Prelude.Sort.{sort_stable}
use scheck.Check.Catalog.{Check, Platform, any_platform, applies_to, platform_eq}
use scheck.Check.Catalog as Checks
use scheck.Finding.Posture.{Rule, FactSheet, Reading, eval_rule}
use scheck.Check.Record.{Parsed, absent}
use scheck.Finding.Severity.{
  Severity, critical, high, medium, low, info, rank, at_least, severity_eq,
}
use scheck.Finding.Catalog.{Catalog, Def, lookup}
use scheck.Finding.Report.{
  Finding, Evidence, evidence_beq, open_status, from_rule, confidence_high, is_open,
}
use scheck.Finding.Predicate.{
  Status, matched, not_matched, not_applicable, not_assessed, Verdict, not_assessed_verdict,
  KeyEquals, RawMatch, FieldEquals, FieldOutside, eval_key_equals, eval_raw_match, eval_any_line,
  eval_field_equals, eval_any_record, eval_field_outside,
}
use scheck.Finding.Join.{StatusWithLoginShell, decide}

-- `Assessment`.
pub record Assessment : Type 0 where
  pub observation : String
  pub finding : String
  pub check : String
  pub second : String
  pub second_observation : String
  pub status : Status
  pub reason : String

observed : Option Reading → String
observed none = ""
observed (some r) = r.observation

-- The assessment of one rule, from its verdict.
assessment_of : Rule → FactSheet → Verdict → Assessment
assessment_of rule sheet v = record {
  observation = observed (map_get sheet.results rule.check);
  finding = rule.finding;
  check = rule.check;
  second = rule.second;
  second_observation =
      if rule.second == "" then "" else observed (map_get sheet.results rule.second);
  status = v.status;
  reason = v.reason;
}

-- The evidence of a matched rule.
evidence_of : Rule → Assessment → Verdict → List Evidence
evidence_of rule a v =
    record { observation = a.observation; check = rule.check; excerpt = v.excerpt }
    ∷ (if rule.second == "" || v.with_excerpt == ""
        then []
        else record {
          observation = a.second_observation;
          check = rule.second;
          excerpt = v.with_excerpt;
        }
          ∷ [])

-- `appendEvidence`.
unfoldable pub append_evidence : List Evidence → Evidence → List Evidence
append_evidence have ev = if any (λ e. evidence_beq e ev) have then have else have ++ ev ∷ []

pub append_all : List Evidence → List Evidence → List Evidence
append_all have [] = have
append_all have (ev ∷ evs) = append_all (append_evidence have ev) evs

-- `res.Findings[i].Evidence = ...`.
add_evidence : List Finding → ℕ → List Evidence → List Finding
add_evidence [] i evs = []
add_evidence (f ∷ fs) zero evs = record f { evidence = append_all f.evidence evs } ∷ fs
add_evidence (f ∷ fs) (suc i) evs = f ∷ add_evidence fs i evs

pub platform_text : Platform → String
platform_text Checks.macos = "macos"
platform_text Checks.linux = "linux"
platform_text any_platform = "any"

pub finding_of : Def → Platform → List Evidence → Finding
finding_of def p evs = record {
  id = def.id;
  title = def.title;
  category = def.category;
  severity_base = def.base_severity;
  severity = def.base_severity;
  adjustments = [];
  status = open_status;
  accepted_reason = "";
  source = from_rule;
  confidence = confidence_high;
  platform = platform_text p;
  evidence = evs;
  impact = def.impact;
  remediation = def.remediation;
  context_note = "";
  service = none;
  custom = false;
  capped_by = "";
}

-- The findings so far, and `byID`: the index of each finding id among them.
pub record Found : Type 0 where
  pub findings : List Finding
  pub by_id : List (String × ℕ)

add_found : Found → String → Def → Platform → List Evidence → Option ℕ → Found
add_found s id def p evs none = record {
  findings = s.findings ++ finding_of def p evs ∷ [];
  by_id = (id, length s.findings) ∷ s.by_id;
}
add_found s id def p evs (some i) = record {
  findings = add_evidence s.findings i evs;
  by_id = s.by_id;
}

with_def : Found → Rule → Platform → List Evidence → Option Def → Found
with_def s rule p evs none = s
with_def s rule p evs (some def) = add_found s rule.finding def p evs (map_get s.by_id rule.finding)

on_status : Status → Found → Catalog → Rule → Platform → List Evidence → Found
on_status matched s defs rule p evs = with_def s rule p evs (lookup defs rule.finding)
on_status _ s defs rule p evs = s

-- `Result`.
pub record Result : Type 0 where
  pub findings : List Finding
  pub assessments : List Assessment

pub on_platform : Platform → Rule → Bool
on_platform p rule = rule.platform == any_platform || rule.platform == p

module _ (checks : List Check) (defs : Catalog) (disabled : List String) (sheet : FactSheet) where
  -- The assessment of one rule.
  pub assess : Rule → Assessment
  assess rule = assessment_of rule sheet (eval_rule checks rule sheet.platform disabled sheet)

  add_rule : Found → Rule → Found
  add_rule s rule =
      let v = eval_rule checks rule sheet.platform disabled sheet in
      on_status v.status s defs rule sheet.platform
        (evidence_of rule (assessment_of rule sheet v) v)

  -- The loop over the rules.
  pub evaluate_rules : Found → List Assessment → List Rule → Found × List Assessment
  evaluate_rules s done [] = (s, done)
  evaluate_rules s done (rule ∷ rules) =
      let skip = evaluate_rules s done rules in
      let rest = evaluate_rules (add_rule s rule) (done ++ assess rule ∷ []) rules in
      if on_platform sheet.platform rule then rest else skip

pub string_less : String → String → Bool
string_less s t = elim (compare s t) [ Ordering.lt ↦ true | _ ↦ false ]

-- The order of the findings: the most serious first, and then by id.
pub finding_less : Finding → Finding → Bool
finding_less a b =
    if a.severity == b.severity
    then string_less a.id b.id
    else ltb (rank b.severity) (rank a.severity)

-- The order of `Rules`.
rule_less : Rule → Rule → Bool
rule_less a b =
    if a.finding == b.finding then string_less a.check b.check else string_less a.finding b.finding

-- `Rules`.
pub sorted_rules : List Rule → List Rule
sorted_rules rules = sort_stable rule_less rules

-- `Evaluate`; `none` is a nil sheet.
pub evaluate : List Check → Catalog → List Rule → List String → Option FactSheet → Result
evaluate checks defs rules disabled none = record { findings = []; assessments = [] }
evaluate checks defs rules disabled (some sheet) =
    let (found, done) =
      evaluate_rules checks defs disabled sheet (record { findings = []; by_id = [] }) []
        (sorted_rules rules) in
    record { findings = sort_stable finding_less found.findings; assessments = done }

-- `OpenAtOrAbove`.
open_at_or_above : List Finding → Severity → ℕ
open_at_or_above fs t = length (keep (λ f. is_open f.status && at_least f.severity t) fs)

-- `CountBySeverity`: the severities that occur, the most serious first, each with how often.
tally : List Finding → List Severity → List (Severity × ℕ)
tally fs [] = []
tally fs (s ∷ rest) =
    let n = length (keep (λ f. f.severity == s) fs) in
    let others = tally fs rest in if ltb 0 n then (s, n) ∷ others else others

count_by_severity : List Finding → List (Severity × ℕ)
count_by_severity fs = tally fs (critical ∷ high ∷ medium ∷ low ∷ info ∷ [])
