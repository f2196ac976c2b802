-- ===== src/Finding/Posture/Unusable.antt =====
-- What a rule's verdict rests on: the checks that were read.
use scheck.Prelude.{
  String, false, Option, none, some, List, map_get, contains, ◌≡◌, ◌≢◌, refl, ◌⊎◌, inl, inr, arith,
  ◌==◌, string_eq, Bool-cases,
}
use scheck.Check.Catalog.{Check, Platform}
use scheck.Check.Catalog as Checks
use scheck.Check.Record.{Parsed, absent}
use scheck.Finding.Predicate.{Status, matched, not_matched, not_applicable, not_assessed, Verdict}
use scheck.Finding.Join.{decide}
use scheck.Finding.Join.Absent.{decide-absent}
use scheck.Finding.Posture.{
  Predicate, key_equals, raw_match, any_line, field_equals, any_record, field_outside, login_shell,
  eval_with, Reading, RunStatus, ok, denied, unavailable, by_status, of_result, Rule, FactSheet,
  Usable, fact, no_fact, usable, eval_rule, on_first, on_second, blamed, blame_second, with_reason,
  in_catalog,
}

-- The check is not disabled, and the sheet holds a result of it that ended well.
abbrev pub WasRead : String → List String → FactSheet → Type 0
WasRead id disabled sheet =
    (contains disabled id ≡ false)
    × ((r : Reading) × (map_get sheet.results id ≡ some r) × (r.status ≡ ok))

usable_by_status : (st : RunStatus) (r x : Reading) → by_status st r ≡ fact x → st ≡ ok
unfolding by_status
usable_by_status ok r x h = refl
usable_by_status denied r x h = cc
usable_by_status unavailable r x h = cc

of_result-fact :
    (o : Option Reading) (x : Reading)
    → of_result o ≡ fact x
    → (r : Reading) × (o ≡ some r) × (r.status ≡ ok)
unfolding of_result
of_result-fact none x h = cc
of_result-fact (some r) x h = (r, refl, usable_by_status r.status r x h)

usable-WasRead :
    (id : String) (disabled : List String) (sheet : FactSheet) (x : Reading)
    → usable id disabled sheet ≡ fact x
    → WasRead id disabled sheet
unfolding usable
usable-WasRead id disabled sheet x h = elim (Bool-cases (contains disabled id)) [
  | inl e ↦ absurd (no-fact (rw e at h))
  | inr e ↦ (e, of_result-fact (map_get sheet.results id) x (rw e at h))
]
  where
    no-fact : no_fact "check-disabled-by-config" ≢ fact x
    no-fact e = cc

blame_second-status : (v : Verdict) (why : String) → (blame_second v why).status ≡ v.status
unfolding blame_second with_reason
blame_second-status v why = ground arith

on_second-no_fact :
    (when : Predicate) (x : Parsed) (why : String)
    → (on_second when x (no_fact why)).status ≢ matched
unfolding on_second eval_with blamed
on_second-no_fact (login_shell p) x why h =
    decide-absent p x (rw⁻¹ (blame_second-status (decide p x absent).verdict why) h)
on_second-no_fact (key_equals p) x why h = cc
on_second-no_fact (raw_match p) x why h = cc
on_second-no_fact (any_line p) x why h = cc
on_second-no_fact (field_equals p) x why h = cc
on_second-no_fact any_record x why h = cc
on_second-no_fact (field_outside p) x why h = cc

on_first-no_second :
    (rule : Rule) (disabled : List String) (sheet : FactSheet) (u : Usable) (why : String)
    → (rule.second == "") ≡ false
    → usable rule.second disabled sheet ≡ no_fact why
    → (on_first rule disabled sheet u).status ≢ matched
unfolding on_first
on_first-no_second rule disabled sheet (no_fact w) why e h m = cc
on_first-no_second rule disabled sheet (fact r) why e h m =
    on_second-no_fact rule.when r.parsed why (rw (e, h) at m)

-- What a verdict of a rule rests on.
abbrev pub RestsOn : Rule → List String → FactSheet → Status → Type 0
RestsOn rule disabled sheet matched =
    WasRead rule.check disabled sheet × ((rule.second ≡ "") ⊎ WasRead rule.second disabled sheet)
RestsOn rule disabled sheet not_matched = WasRead rule.check disabled sheet
RestsOn rule disabled sheet not_assessed = Unit {0}
RestsOn rule disabled sheet not_applicable = Unit {0}

second-WasRead :
    (rule : Rule) (disabled : List String) (sheet : FactSheet) (r : Reading) (u : Usable)
    → usable rule.second disabled sheet ≡ u
    → (on_first rule disabled sheet (fact r)).status ≡ matched
    → (rule.second ≡ "") ⊎ WasRead rule.second disabled sheet
second-WasRead rule disabled sheet r (fact x) e h =
    inr (usable-WasRead rule.second disabled sheet x e)
second-WasRead rule disabled sheet r (no_fact why) e h = elim (Bool-cases (rule.second == "")) [
  | inl b ↦ inl ((string_eq.beq_iff rule.second "").0 b)
  | inr b ↦ absurd (on_first-no_second rule disabled sheet (fact r) why b e h)
]

fact-RestsOn :
    (rule : Rule) (disabled : List String) (sheet : FactSheet) (r : Reading) (st : Status)
    → usable rule.check disabled sheet ≡ fact r
    → (on_first rule disabled sheet (fact r)).status ≡ st
    → RestsOn rule disabled sheet st
fact-RestsOn rule disabled sheet r matched e h = (
  usable-WasRead rule.check disabled sheet r e,
  second-WasRead rule disabled sheet r (usable rule.second disabled sheet) refl h,
)
fact-RestsOn rule disabled sheet r not_matched e h = usable-WasRead rule.check disabled sheet r e
fact-RestsOn rule disabled sheet r not_assessed e h = tt
fact-RestsOn rule disabled sheet r not_applicable e h = tt

on_first-RestsOn :
    (rule : Rule) (disabled : List String) (sheet : FactSheet) (u : Usable)
    → usable rule.check disabled sheet ≡ u
    → RestsOn rule disabled sheet (on_first rule disabled sheet u).status
on_first-RestsOn rule disabled sheet (no_fact why) e = unfold on_first in tt
on_first-RestsOn rule disabled sheet (fact r) e = fact-RestsOn rule disabled sheet r _ e refl

-- A rule fires only if its check was not disabled and the sheet holds a result of it that ended well, and, if the
-- rule joins a second check to it, only if the same holds of that one. It says that what it looks for is not there
-- only if this holds of its first check.
pub eval_rule-RestsOn :
    (checks : List Check) (rule : Rule) (p : Platform) (disabled : List String) (sheet : FactSheet)
    → RestsOn rule disabled sheet (eval_rule checks rule p disabled sheet).status
unfolding eval_rule
eval_rule-RestsOn checks rule p disabled sheet =
    elim (Bool-cases (in_catalog p (Checks.lookup checks rule.check p))) [
      | inl c ↦ rw c (on_first-RestsOn rule disabled sheet (usable rule.check disabled sheet) refl)
      | inr c ↦ rw c tt
    ]
