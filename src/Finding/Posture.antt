-- ===== src/Finding/Posture.antt =====
-- internal/finding/rule.go and evaluate.go: a posture rule, and its verdict over a fact sheet.
pub mod Unusable
use Prim.Native.String.{compare}
use Prim.Native.Nat.{Ordering}
use scheck.Prelude.{
  String, ℕ, zero, suc, Bool, true, false, not, ◌&&◌, ◌||◌, Option, none, some, List, [], ◌∷◌, ◌++◌,
  any, keep, map, length, map_get, contains, ltb, leb, Eq, ◌==◌, string_eq, nat_eq, if◌then◌else◌,
  ◌↔◌, ◌≡◌, arith,
}
use scheck.Prelude.Strings.{◌+◌}
use scheck.Prelude.Sort.{sort_stable}
use scheck.Check.Catalog.{Check, Platform, any_platform, applies_to, platform_eq}
use scheck.Check.Catalog as Checks
use scheck.Check.Record.{Parsed, absent}
use scheck.Finding.Severity.{
  Severity, critical, high, medium, low, info, rank, at_least, severity_eq,
}
use scheck.Finding.Catalog.{Catalog, Def, lookup}
use scheck.Finding.Report.{
  Finding, Evidence, evidence_beq, open_status, from_rule, confidence_high, is_open,
}
use scheck.Finding.Predicate.{
  Status, matched, not_matched, not_applicable, not_assessed, Verdict, not_assessed_verdict,
  KeyEquals, RawMatch, FieldEquals, FieldOutside, eval_key_equals, eval_raw_match, eval_any_line,
  eval_field_equals, eval_any_record, eval_field_outside,
}
use scheck.Finding.Join.{StatusWithLoginShell, decide}

-- `Predicate`, by its implementations.
pub data Predicate : Type 0 where
  key_equals : KeyEquals → Predicate
  raw_match : RawMatch → Predicate
  any_line : (String → Bool) → Predicate
  field_equals : FieldEquals → Predicate
  any_record : Predicate
  field_outside : FieldOutside → Predicate
  login_shell : StatusWithLoginShell → Predicate

-- `Predicate.Eval`.
eval : Predicate → Parsed → Verdict
eval (key_equals p) x = eval_key_equals p x
eval (raw_match p) x = eval_raw_match p x
eval (any_line re) x = eval_any_line re x
eval (field_equals p) x = eval_field_equals p x
eval any_record x = eval_any_record x
eval (field_outside p) x = eval_field_outside p x
eval (login_shell p) x = (decide p x absent).verdict

-- `JoinPredicate.EvalWith`; `none` where the predicate is no join.
pub eval_with : Predicate → Parsed → Parsed → Option Verdict
eval_with (login_shell p) x y = some ((decide p x y).verdict)
eval_with _ x y = none

-- `Rule`; the empty `With` is "".
pub record Rule : Type 0 where
  pub finding : String
  pub check : String
  pub platform : Platform
  pub when : Predicate
  pub second : String

-- `runner.Status`.
pub data RunStatus : Type 0 where
  ok unavailable denied : RunStatus

-- `runner.Result`, what evaluation reads of it.
pub record Reading : Type 0 where
  pub observation : String
  pub status : RunStatus
  pub reason_code : String
  pub parsed : Parsed

-- `baseline.FactSheet`.
pub record FactSheet : Type 0 where
  pub platform : Platform
  pub results : List (String × Reading)

-- `reasonCode`.
unfoldable pub reason_code : Reading → String
reason_code r = if r.reason_code == "" then "unknown" else r.reason_code

-- A usable result, or why there is none.
pub data Usable : Type 0 where
  fact : Reading → Usable
  no_fact : String → Usable

unfoldable pub by_status : RunStatus → Reading → Usable
by_status ok r = fact r
by_status denied r = no_fact ("check-denied:" + reason_code r)
by_status unavailable r = no_fact ("check-unavailable:" + reason_code r)

unfoldable pub of_result : Option Reading → Usable
of_result none = no_fact "check-not-run"
of_result (some r) = by_status r.status r

-- `usable`.
unfoldable pub usable : String → List String → FactSheet → Usable
usable id disabled sheet =
    if contains disabled id
    then no_fact "check-disabled-by-config"
    else of_result (map_get sheet.results id)

with_reason : Verdict → String → Verdict
with_reason v why = record {
  status = v.status;
  reason = why;
  excerpt = v.excerpt;
  with_excerpt = v.with_excerpt;
}

is_not_assessed : Status → Bool
is_not_assessed not_assessed = true
is_not_assessed _ = false

-- A verdict that wanted the second check, with that check's own reason.
blame_second : Verdict → String → Verdict
blame_second v why =
    if is_not_assessed v.status && v.reason == "with-unread"
    then with_reason v ("with-" + why)
    else v

or_no_join : Option Verdict → Verdict
or_no_join none = not_assessed_verdict "rule-with-check-needs-join-predicate"
or_no_join (some v) = v

blamed : String → Option Verdict → Verdict
blamed why none = not_assessed_verdict "rule-with-check-needs-join-predicate"
blamed why (some v) = blame_second v why

on_second : Predicate → Parsed → Usable → Verdict
on_second p x (fact w) = or_no_join (eval_with p x w.parsed)
on_second p x (no_fact why) = blamed why (eval_with p x absent)

on_first : Rule → List String → FactSheet → Usable → Verdict
on_first rule disabled sheet (no_fact why) = not_assessed_verdict why
on_first rule disabled sheet (fact r) =
    if rule.second == ""
    then eval rule.when r.parsed
    else on_second rule.when r.parsed (usable rule.second disabled sheet)

in_catalog : Platform → Option Check → Bool
in_catalog p none = false
in_catalog p (some c) = applies_to c p

-- `evalRule`.
pub eval_rule : List Check → Rule → Platform → List String → FactSheet → Verdict
eval_rule checks rule p disabled sheet =
    if in_catalog p (Checks.lookup checks rule.check p)
    then on_first rule disabled sheet (usable rule.check disabled sheet)
    else record {
      status = not_applicable;
      reason = "check-not-in-platform-catalog";
      excerpt = "";
      with_excerpt = "";
    }
