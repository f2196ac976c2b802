-- ===== src/Samples/Grades.antt =====
-- A finding graded under a context.
use scheck.Prelude.{◌≤◌, ◌≡◌, true, none, some, [], ◌∷◌, arith, ℕ, map, ◌↔◌}
use Prim.Native.Nat.{◌/◌}
use scheck.Finding.Clock.{left_at, left_passed, left_not_passed}
use scheck.Finding.Clock.Reads.{after_all, after_none, left_at_iff}
use scheck.Finding.Severity.{high, rank}
use scheck.Finding.Report.{Finding, open_status, from_model, confidence_high}
use scheck.Finding.Grader.{grade}
use scheck.Finding.Adjustments.{Grader, Structured}
use scheck.Finding.Grader.Capped.{grade-le-high}

abbrev pub context : Structured
context = record {
  exposure = "internet";
  environment = "dev";
  expected_services = record { port = 22; proto = "tcp"; purpose = ""; source = "" } ∷ [];
  accepted_risks =
      record { id = "net.listener"; reason = "known"; expires = ""; source = "notes"; zone = "" }
      ∷ [];
}

abbrev pub grader : Grader
grader = record {
  context = some context;
  origins = [];
  emulated_tool_calling = true;
  now = 0;
  day_end = λ zone date. none;
}

abbrev listener : Finding
listener = record {
  id = "net.listener";
  title = "A listener";
  category = "network";
  severity_base = high;
  severity = high;
  adjustments = [];
  status = open_status;
  accepted_reason = "";
  source = from_model;
  confidence = confidence_high;
  platform = "linux";
  evidence = [];
  impact = "";
  remediation = record { summary = ""; commands = []; caveat = "" };
  context_note = "";
  service = some (record { port = 8080; proto = "tcp" });
  custom = true;
  capped_by = "";
}

high_le : rank high ≤ rank high
high_le = omega arith

grade-le-high_example : rank (grade grader listener).0.severity ≤ rank high
grade-le-high_example = grade-le-high grader listener high_le

-- A calendar with a new day every 86400 instants.
abbrev day_of : ℕ → ℕ
day_of t = t / 86400

day_of_mono : (s t : ℕ) → s ≤ t → day_of s ≤ day_of t
day_of_mono s t h = omega arith

left_at_iff_example :
    ((left_at day_of (some 3) (map some (400000 ∷ 90000 ∷ [])) ≡ left_passed)
      ↔ (after_all day_of 3 (400000 ∷ 90000 ∷ []) ≡ true))
    × ((left_at day_of (some 3) (map some (400000 ∷ 90000 ∷ [])) ≡ left_not_passed)
        ↔ (after_none day_of 3 (400000 ∷ 90000 ∷ []) ≡ true))
left_at_iff_example = left_at_iff day_of day_of_mono 3 400000 (90000 ∷ [])
