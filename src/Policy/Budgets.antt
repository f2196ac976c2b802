-- ===== src/Policy/Budgets.antt =====
-- internal/policy/budgets.go: what bounds a run. Durations are nanoseconds.
use scheck.Prelude.{ℕ, ◌*◌, Bool, ◌||◌, if◌then◌else◌}
use scheck.Prelude.Int.{ℤ, pos, ltb_ℤ, ◌+ℤ◌}
use scheck.Policy.Cut.{redact_slack}

-- `Budgets`.
pub record Budgets : Type 0 where
  pub per_check_soft : ℤ
  pub per_check_hard : ℤ
  pub per_check_output : ℤ
  pub agent_checks : ℤ
  pub agent_wall_clock : ℤ
  pub model_input_total : ℤ
  pub max_iterations : ℤ
  pub max_tokens : ℤ
  pub context_bytes : ℤ
  pub run_timeout : ℤ

seconds : ℕ → ℤ
seconds n = pos (n * 1000000000)

-- `DefaultBudgets`.
default_budgets : Budgets
default_budgets = record {
  per_check_soft = seconds 5;
  per_check_hard = seconds 30;
  per_check_output = pos 65536;
  agent_checks = pos 60;
  agent_wall_clock = seconds 120;
  model_input_total = pos 262144;
  max_iterations = pos 24;
  max_tokens = pos 32000;
  context_bytes = pos 32768;
  run_timeout = seconds 300;
}

-- `Budgets.CaptureLimit`.
capture_limit : Budgets → ℤ
capture_limit b = b.per_check_output +ℤ pos redact_slack

not_positive : ℤ → Bool
not_positive n = ltb_ℤ n (pos 1)

-- What `Budgets.Validate` refuses.
pub data BudgetError : Type 0 where
  valid not_positive_budget soft_exceeds_hard : BudgetError

-- `Budgets.Validate`.
pub validate : Budgets → BudgetError
validate b =
    if not_positive b.per_check_hard
      || not_positive b.per_check_output
      || not_positive b.run_timeout
    then not_positive_budget
    else if ltb_ℤ b.per_check_hard b.per_check_soft
    then soft_exceeds_hard
    else valid
