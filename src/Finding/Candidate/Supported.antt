-- ===== src/Finding/Candidate/Supported.antt =====
-- What holds of the evidence of a finding that validation accepts.
use scheck.Prelude.{
  not, ◌||◌, ◌≡◌, refl, Option, none, some, List, [], All, ◌==◌, string_eq, Bool-cases, inl, inr,
  subst,
}
use scheck.Prelude.Strings.{has_prefix}
use scheck.Finding.Severity.{Severity}
use scheck.Finding.Catalog.{Def, lookup}
use scheck.Finding.Report.{Finding, Evidence, ServiceRef, Confidence}
use scheck.Finding.Cited.Supported.{IsSupported, evidence-IsSupported}
use scheck.Finding.Cited.{Checked, accepted, refused, Invalid, evidence, Ensures, Ensures-bind}
use scheck.Finding.Candidate.{
  Candidate, Session, validate, identify, with_severity, with_allowed, with_def, model_finding,
  host_def, rule_allows, check_confidence, some_evidence, check_service, has_summary,
}
use scheck.Finding.Spelled.{parse_severity, parse_confidence, custom_slug}

module _ (s : Session) (c : Candidate) (conf : Confidence) (evs : List Evidence)
    (svc : Option ServiceRef) where
  -- What `identify` accepts has the evidence that it is given.
  Cites : Finding → Type 0
  Cites f = f.evidence ≡ evs

  with_severity-Cites : (o : Option Severity) → Ensures Cites (with_severity s c conf evs svc o)
  unfolding with_severity model_finding Cites
  with_severity-Cites none = tt
  with_severity-Cites (some sev) =
      elim (Bool-cases (c.title == "" || c.impact == "" || not (has_summary c.remediation))) [
        | inl e ↦ rw e tt
        | inr e ↦ rw e refl
      ]

  with_allowed-Cites :
      (def : Def) (o : Option Invalid) → Ensures Cites (with_allowed s c conf evs svc def o)
  unfolding with_allowed model_finding Cites
  with_allowed-Cites def none = refl
  with_allowed-Cites def (some why) = tt

  with_def-Cites : (o : Option Def) → Ensures Cites (with_def s c conf evs svc o)
  unfolding with_def
  with_def-Cites none = tt
  with_def-Cites (some def) = with_allowed-Cites def (rule_allows s def)

  identify-Cites : Ensures Cites (identify s c conf evs svc)
  unfolding identify
  identify-Cites = elim (Bool-cases (has_prefix c.id "custom:")) [
    | inl e ↦ elim (Bool-cases (custom_slug c.id)) [
      | inl u ↦ rw (e, u) (with_severity-Cites (parse_severity c.proposed_severity))
      | inr u ↦ rw (e, u) tt
    ]
    | inr e ↦ rw e (with_def-Cites (host_def (lookup s.defs c.id)))
  ]

Ensures-map {ℓ κ μ} :
    {A : Type ℓ} {P : A → Type κ} {Q : A → Type μ} (v : Checked A)
    → ((a : A) → P a → Q a)
    → Ensures P v
    → Ensures Q v
Ensures-map (accepted a) f h = f a h
Ensures-map (refused e) f h = tt

-- Each entry of evidence of an accepted finding quotes an output of this run, of a check that succeeded.
pub validate-IsSupported :
    (s : Session) (c : Candidate)
    → Ensures (λ f. All (IsSupported s.output) f.evidence) (validate s c)
unfolding validate Cites
validate-IsSupported s c =
    Ensures-bind Supported (check_confidence (parse_confidence c.confidence)) _ λ conf e1.
      Ensures-bind Supported (some_evidence c.evidence) _ λ cited e2.
        Ensures-bind Supported (evidence s.output [] cited) _ λ evs e3.
          Ensures-bind Supported (check_service c.service) _ λ svc e4.
            Ensures-map (identify s c conf evs svc) (λ f e. rw e (all_supported cited evs e3))
              (identify-Cites s c conf evs svc)
  where
    Supported : Finding → Type 0
    Supported f = All (IsSupported s.output) f.evidence

    all_supported :
        (cited evs : List Evidence)
        → evidence s.output [] cited ≡ accepted evs
        → All (IsSupported s.output) evs
    all_supported cited evs e =
        subst (Ensures (All (IsSupported s.output))) e (evidence-IsSupported s.output [] cited tt)
