-- ===== src/Finding/Store.antt =====
-- internal/finding/store.go: the store, which owns the findings of a run. Its two operations, `Report` and
-- `RuleOut`, answer the new store with what the Go methods return; a refusal answers no store, since the Go
-- methods then leave theirs as it was.
pub mod Run
pub mod Sound
pub mod Refined
pub mod Curated
pub mod Sorted
use scheck.Finding.Lapsed.{
  risk_evidence, expired_finding, expired_findings, of_def, expired_acceptances,
}
use scheck.Prelude.{
  String, ℕ, zero, suc, Bool, true, false, not, ◌&&◌, ◌||◌, Option, none, some, List, [], ◌∷◌, ◌++◌,
  any, keep, map, map_get, is_some, length, get_elem?, ltb, Eq, ◌==◌, string_eq, nat_eq,
  if◌then◌else◌,
}
use scheck.Prelude.Strings.{◌+◌, trim_space, has_infix, has_prefix}
use scheck.Prelude.Sort.{sort_stable}
use scheck.Check.Catalog.{Check, Platform, any_platform}
use scheck.Finding.Severity.{Severity, rank, severity_eq}
use scheck.Finding.Catalog.{Catalog, Def, lookup}
use scheck.Finding.Report.{
  Finding, Evidence, ServiceRef, Confidence, confidence_high, confidence_medium, confidence_low,
  Origin, from_rule, from_model, open_status, is_open,
}
use scheck.Finding.Posture.{Rule, FactSheet}
use scheck.Finding.Evaluate.{
  Assessment, append_all, append_evidence, evaluate, Result, finding_of, finding_less, string_less,
}
use scheck.Finding.Cited.{
  Invalid, bad_slug, unknown_id, is_finding, no_note, Checked, accepted, refused, ◌>>=◌, Output,
  evidence,
}
use scheck.Finding.Candidate.{Candidate, Session, validate, host_def, text_of}
use scheck.Finding.Spelled.{custom_slug}
use scheck.Finding.Grader.{grade}
use scheck.Finding.Adjustments.{Grader, Structured, Risk, expired}
use scheck.Finding.Missing.{Missing, expected_missing}

-- `RuledOut`.
pub record RuledOut : Type 0 where
  pub id : String
  pub note : String
  pub evidence : List Evidence

-- `Store`, with the tables that its methods read.
pub record Store : Type 0 where
  pub defs : Catalog
  pub rules : List Rule
  pub grader : Grader
  pub output : Option (String → Option Output)
  pub sheet : Option FactSheet
  pub findings : List Finding
  pub assessments : List Assessment
  pub by_id : List (String × ℕ)
  pub ruled_out : List RuledOut

-- The loop that fills `byID`: a later index comes to stand before an earlier one.
pub index_from : ℕ → List (String × ℕ) → List Finding → List (String × ℕ)
index_from i index [] = index
index_from i index (f ∷ fs) = index_from (suc i) ((f.id, i) ∷ index) fs

-- `NewStore`.
pub new_store :
    List Check
    → Catalog
    → List Rule
    → List String
    → Option FactSheet
    → Grader
    → Option (String → Option Output)
    → Store
new_store checks defs rules disabled sheet grader output =
    let res = evaluate checks defs rules disabled sheet in
    record {
      defs = defs;
      rules = rules;
      grader = grader;
      output = output;
      sheet = sheet;
      findings = res.findings;
      assessments = res.assessments;
      by_id = index_from 0 [] res.findings;
      ruled_out = [];
    }

-- `Input.platform`.
platform_of : Option FactSheet → Option Platform
platform_of none = none
platform_of (some sheet) = some sheet.platform

pub session : Store → Session
session s = record {
  defs = s.defs;
  rules = s.rules;
  output = s.output;
  platform = platform_of s.sheet;
  assessments = s.assessments;
  seeded = λ id. is_some (map_get s.by_id id);
}

-- `Rank` of a confidence level.
confidence_rank : Confidence → ℕ
confidence_rank confidence_high = 2
confidence_rank confidence_medium = 1
confidence_rank confidence_low = 0

merge_note : String → String → String
merge_note have note =
    if not (note == "") && not (has_infix have note)
    then (if have == "" then "" else have + " ") + "model: " + note
    else have

service_or : Option ServiceRef → Option ServiceRef → Option ServiceRef
service_or none other = other
service_or (some s) other = some s

pub merge_confidence : Origin → Confidence → Confidence → Confidence
merge_confidence from_rule have given = have
merge_confidence from_model have given =
    if ltb (confidence_rank have) (confidence_rank given) then given else have

-- `merge`.
pub merge : Finding → Finding → Finding
merge have given = record have {
  evidence = append_all have.evidence given.evidence;
  context_note = merge_note have.context_note given.context_note;
  service = service_or have.service given.service;
  confidence = merge_confidence have.source have.confidence given.confidence;
}

-- `s.findings[i] = merge(s.findings[i], f)`.
pub merge_at : List Finding → ℕ → Finding → List Finding
merge_at [] i f = []
merge_at (h ∷ hs) zero f = merge h f ∷ hs
merge_at (h ∷ hs) (suc i) f = h ∷ merge_at hs i f

pub is_ruled : String → RuledOut → Bool
is_ruled id r = r.id == id

-- The store after a candidate was validated.
pub file : Store → Finding → Option ℕ → Store
file s f (some i) = record s { findings = merge_at s.findings i f }
file s f none = record s {
  findings = s.findings ++ f ∷ [];
  by_id = (f.id, length s.findings) ∷ s.by_id;
  ruled_out = keep (λ r. not (is_ruled f.id r)) s.ruled_out;
}

reported : Finding → Option ℕ → List Finding → Finding
reported f none fs = f
reported f (some i) fs = or_given f (get_elem? fs i)
  where
    or_given : Finding → Option Finding → Finding
    or_given f none = f
    or_given f (some h) = merge h f

-- `Store.Report`: the store, and the graded finding.
pub report : Store → Candidate → Checked (Store × Finding)
report s c = do
  f ← validate (session s) c
  accepted (
    file s f (map_get s.by_id f.id),
    (grade s.grader (reported f (map_get s.by_id f.id) s.findings)).0,
  )

-- The check of a ruled-out id.
pub ruled_id : Store → String → Checked Bool
ruled_id s id =
    if has_prefix id "custom:"
    then (if custom_slug id then accepted true else refused bad_slug)
    else if is_some (host_def (lookup s.defs id))
    then accepted true
    else refused unknown_id

merge_ruled : RuledOut → RuledOut → RuledOut
merge_ruled have r = record {
  id = have.id;
  note = if has_infix have.note r.note then have.note else have.note + " " + r.note;
  evidence = append_all have.evidence r.evidence;
}

-- The entries with the new one: merged into the first of its id, or at the end.
pub add_ruled : List RuledOut → RuledOut → List RuledOut
add_ruled [] r = r ∷ []
add_ruled (have ∷ rest) r =
    let others = add_ruled rest r in
    if have.id == r.id then merge_ruled have r ∷ rest else have ∷ others

pub unless : Bool → Invalid → Checked Bool
unless true why = refused why
unless false why = accepted true

-- `Store.RuleOut`.
pub rule_out : Store → Candidate → Checked Store
rule_out s c = do
  known ← ruled_id s c.id
  open_id ← unless (is_some (map_get s.by_id c.id)) is_finding
  noted ← unless (trim_space c.note == "") no_note
  evs ← evidence s.output [] c.evidence
  accepted (record s {
    ruled_out =
        add_ruled s.ruled_out (record { id = c.id; note = trim_space c.note; evidence = evs });
  })

-- `Store.Findings`.
pub graded : Grader → List Finding → List Finding
graded g fs = map (λ f. (grade g f).0) fs

-- The order of the report: open findings first, then the most serious first, and then by id.
pub result_less : Finding → Finding → Bool
result_less a b =
    if is_open a.status && not (is_open b.status)
    then true
    else if not (is_open a.status) && is_open b.status
    then false
    else finding_less a b

one_more : Option Assessment → List Assessment
one_more none = []
one_more (some a) = a ∷ []

-- `Store.Result`: the findings, the assessments, and what was ruled out.
pub result : Store → List Finding × List Assessment × List RuledOut
result s =
    let missing = expected_missing s.defs s.sheet s.grader.context in
    (
      sort_stable result_less (
          graded s.grader s.findings
          ++ (graded s.grader missing.findings
              ++ graded s.grader
                  (expired_acceptances s.defs s.grader (platform_of s.sheet) s.grader.context))),
      s.assessments ++ one_more missing.assessment,
      s.ruled_out,
    )
