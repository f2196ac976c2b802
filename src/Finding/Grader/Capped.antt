-- ===== src/Finding/Grader/Capped.antt =====
-- How far grading can take a finding.
use scheck.Prelude.{
  String, ℕ, ◌≤◌, Bool, true, false, ◌&&◌, ◌≡◌, arith, Option, none, some, Bool-cases, inl, inr,
  ◌⊎◌, List, [], ◌∷◌, ltb, ◌==◌, string_eq, All,
}
use scheck.Finding.Severity.{Severity, high, medium, rank, shift, severity_eq}
use scheck.Finding.Report.{Finding}
use scheck.Finding.Grader.{
  Progress, grade, adjusted, started, adjust, adjust_all, stay, move, past_high, cap_custom,
  cap_high,
}
use scheck.Finding.Adjustments.{Grader, Structured, Pending, adjustments}
use scheck.Finding.Adjustments.Named.{HasName, adjustments-HasName}

-- A finding that the table took past high has the name of the row that did.
InCheck : Progress → Type 0
InCheck x = (rank x.severity ≤ 3) ⊎ ((x.raised_by == "") ≡ false)

move-InCheck :
    (x : Progress) (adj : Pending) (next : Severity)
    → HasName adj
    → InCheck x
    → InCheck (move x adj next)
unfolding move InCheck HasName rank
move-InCheck x adj next n h = ground arith

-- One turn of the loop stays or moves, and a move takes no custom finding up.
adjust-cases :
    (P : Progress → Type 0) (custom : Bool) (x : Progress) (adj : Pending)
    → ((why : String) → P (stay x why))
    → ((custom && ltb (rank x.severity) (rank (shift x.severity adj.delta))) ≡ false
        → P (move x adj (shift x.severity adj.delta)))
    → P (adjust custom x adj)
unfolding adjust
adjust-cases P custom x adj h k =
    elim (Bool-cases (custom && ltb (rank x.severity) (rank (shift x.severity adj.delta)))) [
      | inl e ↦ rw e (h _)
      | inr e ↦ elim (Bool-cases (shift x.severity adj.delta == x.severity)) [
        | inl u ↦ rw (e, u) (h _)
        | inr u ↦ rw (e, u) (k e)
      ]
    ]

stay-InCheck : (x : Progress) (why : String) → InCheck x → InCheck (stay x why)
unfolding stay InCheck
stay-InCheck x why h = h

adjust_all-InCheck :
    (custom : Bool) (x : Progress) (adjs : List Pending)
    → All HasName adjs
    → InCheck x
    → InCheck (adjust_all custom x adjs)
unfolding adjust_all
adjust_all-InCheck custom x [] n h = h
adjust_all-InCheck custom x (adj ∷ adjs) n h =
    adjust_all-InCheck custom (adjust custom x adj) adjs n.1 (
      adjust-cases InCheck custom x adj (λ why. stay-InCheck x why h)
        (λ e. move-InCheck x adj (shift x.severity adj.delta) n.0 h))

cap_high-capped : (x : Progress) → InCheck x → rank (cap_high x).severity ≤ 3
unfolding cap_high past_high InCheck rank
cap_high-capped x h = ground arith

cap_custom-le :
    (custom : Bool) (x : Progress) → rank (cap_custom custom x).severity ≤ rank x.severity
unfolding cap_custom rank
cap_custom-le custom x = ground arith

cap_custom-capped :
    (custom : Bool) (x : Progress) → custom ≡ true → rank (cap_custom custom x).severity ≤ 2
unfolding cap_custom rank
cap_custom-capped custom x c = ground arith

started-InCheck : (f : Finding) → rank f.severity_base ≤ 3 → InCheck (started f)
unfolding started InCheck
started-InCheck f h = inl h

adjusted-InCheck :
    (g : Grader) (c : Option Structured) (f : Finding)
    → rank f.severity_base ≤ 3
    → InCheck (adjusted g c f)
unfolding adjusted
adjusted-InCheck g none f h = started-InCheck f h
adjusted-InCheck g (some c) f h =
    adjust_all-InCheck f.custom (started f) (adjustments g c f) (adjustments-HasName g c f)
      (started-InCheck f h)

-- No context takes a finding past high: graded, a finding whose base severity is at most high is at most
-- high, whatever the operator declared.
pub grade-le-high :
    (g : Grader) (f : Finding)
    → rank f.severity_base ≤ rank high
    → rank (grade g f).0.severity ≤ rank high
unfolding grade rank
grade-le-high g f h = omega (
  arith,
  cap_custom-le f.custom (cap_high (adjusted g g.context f)),
  cap_high-capped (adjusted g g.context f) (adjusted-InCheck g g.context f h),
)

-- A custom finding's severity never rises, turn by turn.
AtMost : ℕ → Progress → Type 0
AtMost n x = rank x.severity ≤ n

stay-AtMost : (n : ℕ) (x : Progress) (why : String) → AtMost n x → AtMost n (stay x why)
unfolding stay AtMost
stay-AtMost n x why h = h

move-AtMost :
    (n : ℕ) (custom : Bool) (x : Progress) (adj : Pending) (next : Severity)
    → custom ≡ true
    → (custom && ltb (rank x.severity) (rank next)) ≡ false
    → AtMost n x
    → AtMost n (move x adj next)
unfolding move AtMost
move-AtMost n custom x adj next c e h = ground arith

adjust_all-AtMost :
    (n : ℕ) (custom : Bool) (x : Progress) (adjs : List Pending)
    → custom ≡ true
    → AtMost n x
    → AtMost n (adjust_all custom x adjs)
unfolding adjust_all
adjust_all-AtMost n custom x [] c h = h
adjust_all-AtMost n custom x (adj ∷ adjs) c h =
    adjust_all-AtMost n custom (adjust custom x adj) adjs c (
      adjust-cases (AtMost n) custom x adj (λ why. stay-AtMost n x why h)
        (λ e. move-AtMost n custom x adj (shift x.severity adj.delta) c e h))

adjusted-AtMost :
    (g : Grader) (c : Option Structured) (f : Finding)
    → f.custom ≡ true
    → rank (adjusted g c f).severity ≤ rank f.severity_base
unfolding adjusted started AtMost
adjusted-AtMost g none f h = omega arith
adjusted-AtMost g (some c) f h =
    adjust_all-AtMost (rank f.severity_base) f.custom (started f) (adjustments g c f) h
      (omega arith)

cap_high-le : (x : Progress) → rank (cap_high x).severity ≤ rank x.severity
unfolding cap_high past_high rank
cap_high-le x = ground arith

custom-capped :
    (custom : Bool) (x : Progress) (n : ℕ)
    → custom ≡ true
    → rank x.severity ≤ n
    → (rank (cap_custom custom (cap_high x)).severity ≤ rank medium)
      × (rank (cap_custom custom (cap_high x)).severity ≤ n)
unfolding rank
custom-capped custom x n c h = (
  cap_custom-capped custom (cap_high x) c,
  omega (arith, cap_custom-le custom (cap_high x), cap_high-le x),
)

-- A custom finding is never escalated: graded, it is at most medium and at most its base severity.
grade_custom :
    (g : Grader) (f : Finding)
    → f.custom ≡ true
    → (rank (grade g f).0.severity ≤ rank medium)
      × (rank (grade g f).0.severity ≤ rank f.severity_base)
unfolding grade
grade_custom g f h =
    custom-capped f.custom (adjusted g g.context f) (rank f.severity_base) h
      (adjusted-AtMost g g.context f h)
