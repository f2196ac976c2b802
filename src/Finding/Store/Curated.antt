-- ===== src/Finding/Store/Curated.antt =====
-- What a run leaves of the findings that the store has: merging a candidate into one changes neither what it is
-- nor how serious it is.
use scheck.Prelude.{ℕ, zero, suc, ◌≡◌, refl, ◌∙◌, Option, none, some, List, [], ◌∷◌, ◌++◌, map_get}
use scheck.Finding.Report.{Finding, Confidence, Origin, from_rule, from_model}
use scheck.Finding.Candidate.{Candidate, validate}
use scheck.Finding.Cited.{Ensures, Ensures-bind, evidence, is_finding, no_note}
use scheck.Prelude.Strings.{trim_space}
use scheck.Prelude.{is_some, ◌==◌, string_eq}
use scheck.Finding.Store.{
  Store, merge, merge_at, merge_confidence, file, report, rule_out, session, ruled_id, unless,
}
use scheck.Finding.Store.Run.{Op, reports, rules_out, apply, run, kept-Ensures}

-- The later finding is the earlier one, with more evidence, a longer note, and, if a rule did not make it, more
-- confidence perhaps.
pub record IsKept (f g : Finding) : Type 0 where
  pub id : g.id ≡ f.id
  pub title : g.title ≡ f.title
  pub category : g.category ≡ f.category
  pub base : g.severity_base ≡ f.severity_base
  pub impact : g.impact ≡ f.impact
  pub remediation : g.remediation ≡ f.remediation
  pub source : g.source ≡ f.source
  pub confidence : f.source ≡ from_rule → g.confidence ≡ f.confidence

-- Every finding of the first list is kept at its place in the second, which may have more.
abbrev pub AllKept : List Finding → List Finding → Type 0
AllKept [] gs = Unit
AllKept (f ∷ fs) [] = ⊥
AllKept (f ∷ fs) (g ∷ gs) = IsKept f g × AllKept fs gs

IsKept-refl : (f : Finding) → IsKept f f
IsKept-refl f = record {
  id = refl;
  title = refl;
  category = refl;
  base = refl;
  impact = refl;
  remediation = refl;
  source = refl;
  confidence = λ h. refl;
}

IsKept-trans : {f g h : Finding} → IsKept f g → IsKept g h → IsKept f h
IsKept-trans p q = record {
  id = q.id ∙ p.id;
  title = q.title ∙ p.title;
  category = q.category ∙ p.category;
  base = q.base ∙ p.base;
  impact = q.impact ∙ p.impact;
  remediation = q.remediation ∙ p.remediation;
  source = q.source ∙ p.source;
  confidence = λ h. q.confidence (p.source ∙ h) ∙ p.confidence h;
}

AllKept-refl : (fs : List Finding) → AllKept fs fs
AllKept-refl [] = tt
AllKept-refl (f ∷ fs) = (IsKept-refl f, AllKept-refl fs)

AllKept-trans : (fs gs hs : List Finding) → AllKept fs gs → AllKept gs hs → AllKept fs hs
AllKept-trans [] gs hs p q = tt
AllKept-trans (f ∷ fs) [] hs p q = absurd p
AllKept-trans (f ∷ fs) (g ∷ gs) [] p q = absurd q
AllKept-trans (f ∷ fs) (g ∷ gs) (h ∷ hs) p q =
    (IsKept-trans p.0 q.0, AllKept-trans fs gs hs p.1 q.1)

AllKept-append : (fs gs : List Finding) → AllKept fs (fs ++ gs)
AllKept-append [] gs = tt
AllKept-append (f ∷ fs) gs = (IsKept-refl f, AllKept-append fs gs)

merge_confidence_rule :
    (o : Origin) (have given : Confidence) → o ≡ from_rule → merge_confidence o have given ≡ have
unfolding merge_confidence
merge_confidence_rule from_rule have given h = refl
merge_confidence_rule from_model have given h = cc

merge-IsKept : (f g : Finding) → IsKept f (merge f g)
unfolding merge
merge-IsKept f g = record {
  id = refl;
  title = refl;
  category = refl;
  base = refl;
  impact = refl;
  remediation = refl;
  source = refl;
  confidence = merge_confidence_rule f.source f.confidence g.confidence;
}

merge_at-AllKept : (fs : List Finding) (i : ℕ) (g : Finding) → AllKept fs (merge_at fs i g)
unfolding merge_at
merge_at-AllKept [] i g = tt
merge_at-AllKept (f ∷ fs) zero g = (merge-IsKept f g, AllKept-refl fs)
merge_at-AllKept (f ∷ fs) (suc i) g = (IsKept-refl f, merge_at-AllKept fs i g)

file-AllKept : (s : Store) (f : Finding) (o : Option ℕ) → AllKept s.findings (file s f o).findings
unfolding file
file-AllKept s f (some i) = merge_at-AllKept s.findings i f
file-AllKept s f none = AllKept-append s.findings (f ∷ [])

-- The findings of the first store, in the second.
Keeps : Store → Store → Type 0
Keeps s t = AllKept s.findings t.findings

report-Keeps : (s : Store) (c : Candidate) → Ensures (λ r. Keeps s r.0) (report s c)
unfolding report Keeps
report-Keeps s c =
    Ensures-bind (λ r. Keeps s r.0) (validate (session s) c) _
      λ f e. file-AllKept s f (map_get s.by_id f.id)

rule_out-Keeps : (s : Store) (c : Candidate) → Ensures (Keeps s) (rule_out s c)
unfolding rule_out Keeps
rule_out-Keeps s c = Ensures-bind (Keeps s) (ruled_id s c.id) _ λ k e1.
    Ensures-bind (Keeps s) (unless (is_some (map_get s.by_id c.id)) is_finding) _ λ o e2.
      Ensures-bind (Keeps s) (unless (trim_space c.note == "") no_note) _ λ n e3.
        Ensures-bind (Keeps s) (evidence s.output [] c.evidence) _ λ evs e4. AllKept-refl s.findings

apply-Keeps : (s : Store) (op : Op) → Keeps s (apply s op)
unfolding apply Keeps
apply-Keeps s (reports c) =
    kept-Ensures (Keeps s) _ s (report s c) (AllKept-refl s.findings) (report-Keeps s c)
apply-Keeps s (rules_out c) =
    kept-Ensures (Keeps s) _ s (rule_out s c) (AllKept-refl s.findings) (rule_out-Keeps s c)

-- Whatever the model reports and rules out, each finding of the store stays at its place, with its id, title,
-- category, base severity, impact, remediation and source, and, if a rule made it, its confidence.
pub run-AllKept : (s : Store) (ops : List Op) → AllKept s.findings (run s ops).findings
unfolding run Keeps
run-AllKept s [] = AllKept-refl s.findings
run-AllKept s (op ∷ ops) =
    AllKept-trans s.findings (apply s op).findings (run (apply s op) ops).findings
      (apply-Keeps s op) (run-AllKept (apply s op) ops)
