-- ===== src/Samples/Runs.antt =====
-- A runner on a small host, and a model that asks for one check.
use scheck.Prelude.{
  String, true, ◌<◌, ◌≡◌, refl, none, some, List, [], ◌∷◌, false, arith, string_eq, if◌then◌else◌,
  ◌==◌, nat_eq,
}
use scheck.Prelude.Int.{pos, ltb_ℤ, pos_part}
use scheck.Policy.Budgets.{Budgets}
use scheck.Finding.Severity.{baseline}
use scheck.Check.Catalog.{linux}
use scheck.Finding.Store.Sound.{new_store-IsSound}
use scheck.Runner.Model.{Runner, World, Origin, elevate_sudo, ran}
use scheck.Runner.Steps.{Steps}
use scheck.Runner.Run.{run_as}
use scheck.Runner.Run.Permitted.{Offered, run_as-Offered}
use scheck.Runner.Run.Audited.{Accounts, run_as-Accounts}
use scheck.Agent.Fit.{Request}
use scheck.Agent.Tools.{Agent, Session}
use scheck.Agent.Loop.{Model, Response, stop_tool_use, stop_end_turn, run}
use scheck.Agent.Loop.Bounded.{IsBounded, run-IsBounded}
use scheck.Agent.Loop.Heard.{IsQuiet, Heard, run-Heard}
use scheck.Samples.Checks.{stat_check, no_patterns}
use scheck.Samples.Hosts.{checks, rule, exposed_host, password_def}
use scheck.Samples.Grades.{grader}
use scheck.Samples.Paths.{policy}
use scheck.Samples.Stores.{store, read}

abbrev limits : Budgets
limits = record {
  per_check_soft = pos 5;
  per_check_hard = pos 30;
  per_check_output = pos 64;
  agent_checks = pos 2;
  agent_wall_clock = pos 100;
  model_input_total = pos 1000;
  max_iterations = pos 4;
  max_tokens = pos 100;
  context_bytes = pos 1000;
  run_timeout = pos 600;
}

-- Its target answers every command with the same line.
abbrev runner : Runner
runner = record {
  entries = stat_check ∷ [];
  platform = linux;
  paths = policy;
  rules = [];
  budgets = limits;
  elevate = elevate_sudo;
  audit = some (λ n. true);
  text = λ b. "regular file";
  submatch = λ e s. none;
  patterns = no_patterns;
  kv_patterns = record { assign = λ s. none; colon = λ s. none };
  json = λ s. none;
  answer = λ n argv limit. record {
    stdout = 102 ∷ [];
    stderr = [];
    code = pos 0;
    duration = pos 3;
    stdout_truncated = false;
    stderr_truncated = false;
    error = ran;
  };
}

abbrev fresh : World
fresh = record { sent = []; audit = []; results = []; counts = [] }

abbrev by_model : Origin
by_model = record { tool = some "run_check"; rationale = "owner"; profile = baseline }

abbrev hosts_file : List (String × String)
hosts_file = ("path", "/etc/hosts") ∷ []

run_as-Offered_example :
    Steps runner
      (Offered runner "fs.stat" hosts_file by_model)
      fresh
      (run_as runner fresh "fs.stat" hosts_file by_model).0
run_as-Offered_example = run_as-Offered runner fresh "fs.stat" hosts_file by_model

run_as-Accounts_example : Accounts fresh (run_as runner fresh "fs.stat" hosts_file by_model).0
run_as-Accounts_example =
    run_as-Accounts runner (λ n. true) refl (λ n. refl) fresh "fs.stat" hosts_file by_model

abbrev agent : Agent
agent = record {
  runner = runner;
  budgets = limits;
  profile = baseline;
  run_input = λ s. some (record { id = "fs.stat"; params = hosts_file; rationale = "owner" });
  read_input = λ s. none;
  report_input = λ s. none;
  encode = λ what. "{}";
}

abbrev session : Session
session = record {
  store = store;
  world = fresh;
  checks = 0;
  reported = 0;
  wall = pos 0;
  input = 0;
  stop = none;
}

abbrev asks : Response
asks = record {
  text = "";
  tool_calls = record { id = "c1"; name = "run_check"; input = "{}" } ∷ [];
  stop_reason = stop_tool_use;
}

abbrev done : Response
done = record { text = "nothing found"; tool_calls = []; stop_reason = stop_end_turn }

-- It asks for a check on the first turn, and is done on the second.
abbrev model : Model
model = record {
  reply = λ n req. if n == 0 then some asks else some done;
  max_context = pos 100000;
  expired = λ n. false;
  facts = "linux";
  system = "Assess the host." ∷ [];
  tools = [];
  first = "Begin.";
}

unspent_input : ltb_ℤ limits.model_input_total (pos session.input) ≡ false
unspent_input = refl

run-IsBounded_example : IsBounded agent session (run model agent session)
run-IsBounded_example = run-IsBounded model agent session refl unspent_input (
    new_store-IsSound checks (password_def ∷ []) (rule ∷ []) [] (some exposed_host) grader
      (some read))

second_quiet : (req : Request) → IsQuiet (model.reply 1 req)
second_quiet req = refl

second_turn : 1 < pos_part limits.max_iterations
second_turn = omega arith

run-Heard_example : Heard model agent 1 second_quiet (run model agent session)
run-Heard_example = run-Heard model agent 1 second_quiet session refl second_turn
