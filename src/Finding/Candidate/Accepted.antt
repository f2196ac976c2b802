-- ===== src/Finding/Candidate/Accepted.antt =====
-- What holds of a finding that validation accepts.
use scheck.Prelude.{
  ◌≤◌, ◌≡◌, refl, true, not, ◌||◌, Option, none, some, List, [], ◌==◌, string_eq, Bool-cases, inl,
  inr, arith,
}
use scheck.Prelude.Strings.{has_prefix}
use scheck.Finding.Severity.{Severity, rank}
use scheck.Finding.Catalog.{Def, lookup}
use scheck.Finding.Report.{Finding, Evidence, ServiceRef, Confidence, from_model}
use scheck.Finding.Cited.{evidence, Ensures, Ensures-bind, Invalid}
use scheck.Finding.Candidate.{
  Candidate, Session, validate, identify, with_severity, with_allowed, with_def, model_finding,
  cap_medium, host_def, rule_allows, check_confidence, some_evidence, check_service, has_summary,
}
use scheck.Finding.Spelled.{parse_severity, parse_confidence, custom_slug}

-- The finding is the model's, under the candidate's id, and a custom one is rated medium at most.
pub record IsModels (c : Candidate) (f : Finding) : Type 0 where
  pub id : f.id ≡ c.id
  pub source : f.source ≡ from_model
  pub base : f.custom ≡ true → rank f.severity_base ≤ 2

cap_medium-le : (sev : Severity) → rank (cap_medium sev) ≤ 2
unfolding cap_medium rank
cap_medium-le sev = ground arith

module _ (s : Session) (c : Candidate) (conf : Confidence) (evs : List Evidence)
    (svc : Option ServiceRef) where
  with_severity-IsModels :
      (o : Option Severity) → Ensures (IsModels c) (with_severity s c conf evs svc o)
  unfolding with_severity model_finding
  with_severity-IsModels none = tt
  with_severity-IsModels (some sev) =
      elim (Bool-cases (c.title == "" || c.impact == "" || not (has_summary c.remediation))) [
        | inl e ↦ rw e tt
        | inr e ↦ rw e (record { id = refl; source = refl; base = λ h. cap_medium-le sev })
      ]

  with_def-IsModels : (o : Option Def) → Ensures (IsModels c) (with_def s c conf evs svc o)
  unfolding with_def with_allowed model_finding
  with_def-IsModels none = tt
  with_def-IsModels (some def) = with_allowed-IsModels def (rule_allows s def)
    where
      with_allowed-IsModels :
          (def : Def) (o : Option Invalid)
          → Ensures (IsModels c) (with_allowed s c conf evs svc def o)
      with_allowed-IsModels def none = record { id = refl; source = refl; base = λ h. cc }
      with_allowed-IsModels def (some why) = tt

  identify-IsModels : Ensures (IsModels c) (identify s c conf evs svc)
  unfolding identify
  identify-IsModels = elim (Bool-cases (has_prefix c.id "custom:")) [
    | inl e ↦ elim (Bool-cases (custom_slug c.id)) [
      | inl u ↦ rw (e, u) (with_severity-IsModels (parse_severity c.proposed_severity))
      | inr u ↦ rw (e, u) tt
    ]
    | inr e ↦ rw e (with_def-IsModels (host_def (lookup s.defs c.id)))
  ]

-- What validation accepts is the model's: under the id that it gave, and rated medium at most where the id is
-- custom.
pub validate-IsModels : (s : Session) (c : Candidate) → Ensures (IsModels c) (validate s c)
unfolding validate
validate-IsModels s c =
    Ensures-bind (IsModels c) (check_confidence (parse_confidence c.confidence)) _ λ conf e1.
      Ensures-bind (IsModels c) (some_evidence c.evidence) _ λ cited e2.
        Ensures-bind (IsModels c) (evidence s.output [] cited) _ λ evs e3.
          Ensures-bind (IsModels c) (check_service c.service) _
            λ svc e4. identify-IsModels s c conf evs svc
