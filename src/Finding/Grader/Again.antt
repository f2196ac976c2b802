-- ===== src/Finding/Grader/Again.antt =====
-- Grading a finding that was graded before.
use scheck.Prelude.{Bool, ◌≡◌, refl, ap, ap₂, arith, Option, none, some}
use scheck.Finding.Report.{Finding, Origin, from_rule, from_model, Confidence}
use scheck.Finding.Grader.{
  Progress, grade, cap_confidence, lowered, adjusted, started, adjust_all, status_of, base_reason,
  cap_custom, cap_high,
}
use scheck.Finding.Adjustments.{Grader, Structured, adjustments}
use scheck.Finding.Adjustments.Read.{adjustments-ext}

cap_confidence-again :
    (emulated : Bool) (origin : Origin) (c : Confidence)
    → cap_confidence emulated origin (cap_confidence emulated origin c)
      ≡ cap_confidence emulated origin c
unfolding cap_confidence lowered
cap_confidence-again emulated from_rule c = ground arith
cap_confidence-again emulated from_model c = ground arith

adjustments-again :
    (g : Grader) (c : Structured) (f : Finding) → adjustments g c (grade g f).0 ≡ adjustments g c f
unfolding grade
adjustments-again g c f = adjustments-ext g c f (grade g f).0 refl refl refl

started-again : (g : Grader) (f : Finding) → started (grade g f).0 ≡ started f
unfolding started grade base_reason
started-again g f = refl

custom-again : (g : Grader) (f : Finding) → (grade g f).0.custom ≡ f.custom
unfolding grade
custom-again g f = refl

adjusted-again :
    (g : Grader) (c : Option Structured) (f : Finding) → adjusted g c (grade g f).0 ≡ adjusted g c f
unfolding adjusted
adjusted-again g none f = started-again g f
adjusted-again g (some c) f =
    rw (started-again g f, adjustments-again g c f)
      (ap (λ b. adjust_all b (started f) (adjustments g c f)) (custom-again g f))

-- The finding with the severity and the confidence that grading computed.
abbrev graded : Grader → Finding → Progress → Confidence → Finding
graded g f x c = record f {
  severity = x.severity;
  adjustments = x.made;
  status = (status_of g g.context f.id).0;
  accepted_reason = (status_of g g.context f.id).1;
  confidence = c;
  capped_by = x.raised_by;
}

-- Grading a graded finding again gives it back: its severity, its adjustments, its status and its
-- confidence are those that the first grading gave it.
grade_idem : (g : Grader) (f : Finding) → (grade g (grade g f).0).0 ≡ (grade g f).0
unfolding grade
grade_idem g f =
    ap₂ (λ x c. graded g f (cap_custom f.custom (cap_high x)) c) (adjusted-again g g.context f)
      (cap_confidence-again g.emulated_tool_calling f.source f.confidence)
