-- ===== src/Agent/Loop.antt =====
-- internal/agent/agent.go: `Run`, the loop over the turns of the model. What the provider answers, the words of the
-- prompt and whether the run's context has ended are parameters; the usage, the warnings and the words of a reason are
-- left out.
pub mod Spends
pub mod Bounded
pub mod Heard
use scheck.Prelude.{
  String, ℕ, zero, suc, ◌+◌, Bool, true, false, not, ◌&&◌, Option, none, some, List, [], ◌∷◌, ◌++◌,
  length, map, drop, ◌==◌, string_eq, nat_eq, if◌then◌else◌,
}
use scheck.Prelude.Int.{ℤ, pos_part}
use scheck.Prelude.Strings.{codes}
use scheck.Agent.Fit.{
  ToolCall, ToolResult, Message, role_user, role_assistant, Request, Tool, Fit, fits, too_large,
  limit_unknown, check_fit,
}
use scheck.Agent.Tools.{Agent, Session, Budget, account, call, not_executed}

-- `StopReason`.
pub data StopReason : Type 0 where
  stop_end_turn stop_tool_use stop_max_tokens stop_refusal stop_error : StopReason

-- `Response`, less its usage.
pub record Response : Type 0 where
  pub text : String
  pub tool_calls : List ToolCall
  pub stop_reason : StopReason

-- What the loop is given: the provider by the turn and the request that it is sent, where `none` is any error of its
-- stream; its context limit; whether the context has ended before a turn; and the prompt.
pub record Model : Type 0 where
  pub reply : ℕ → Request → Option Response
  pub max_context : ℤ
  pub expired : ℕ → Bool
  pub facts : String
  pub system : List String
  pub tools : List Tool
  pub first : String

-- Why a run is incomplete.
pub data Reason : Type 0 where
  facts_too_large timed_out context_unknown context_overflow provider_failed reply_cut
        refused_by_model reply_failed :
      Reason
  budget_spent : Budget → Reason
  turns_spent : Reason

-- `Outcome`: complete, or incomplete with its reason. The counts of checks and reports are the session's.
pub data Status : Type 0 where
  complete : Status
  incomplete : Reason → Status

pub record Outcome : Type 0 where
  pub status : Status
  pub iterations : ℕ
  pub text : String

-- What a turn leaves for the next one.
pub record Talk : Type 0 where
  pub session : Session
  pub messages : List Message
  pub iterations : ℕ

-- A turn ends the run, or leaves it to the next turn.
pub data Turn : Type 0 where
  over : Session → Outcome → Turn
  goes_on : Talk → Turn

ends : Session → ℕ → Status → String → Turn
ends s n st text = over s (record { status = st; iterations = n; text = text })

is_report : ToolCall → Bool
is_report c = c.name == "report_finding"

-- The results from a call on: those of the later calls, unless a budget is spent.
joined :
    Option Budget → Session → ToolResult → Session × List ToolResult → Session × List ToolResult
joined (some b) s res later = (s, res ∷ [])
joined none s res (t, results) = (t, res ∷ results)

-- The loop over the calls of a turn: it leaves off once a budget is spent.
run_calls : Agent → Session → List ToolCall → Session × List ToolResult
run_calls a s [] = (s, [])
run_calls a s (c ∷ cs) =
    let (s', res) = call a s c in let later = run_calls a s' cs in joined s'.stop s' res later

-- How many of the calls that were made ask for evidence.
investigating : List ToolCall → ℕ
investigating [] = 0
investigating (c ∷ cs) = (if is_report c then 0 else 1) + investigating cs

skipped : Agent → ToolCall → ToolResult
skipped a c = record { call_id = c.id; content = a.encode not_executed; is_error = true }

-- The results of the calls, and those of the calls that were not made.
all_results : Agent → List ToolCall → List ToolResult → List ToolResult
all_results a cs made = made ++ map (skipped a) (drop (length made) cs)

user_results : List ToolResult → Message
user_results rs = record { role = role_user; text = ""; tool_calls = []; tool_results = rs }

assistant : Response → Message
assistant r = record {
  role = role_assistant;
  text = r.text;
  tool_calls = r.tool_calls;
  tool_results = [];
}

-- What follows the calls of a turn.
after_calls : Option Budget → Agent → ℕ → Session → List Message → Response → ℕ → Turn
after_calls (some b) a n s msgs r asked = ends s n (incomplete (budget_spent b)) ""
after_calls none a n s msgs r asked =
    if n == pos_part a.budgets.max_iterations
    then (if asked == 0 then ends s n complete r.text else ends s n (incomplete turns_spent) "")
    else goes_on (record { session = s; messages = msgs; iterations = n })

-- A turn with calls.
with_calls : Agent → ℕ → Session → List Message → Response → Turn
with_calls a n s msgs r =
    let (s', made) = run_calls a s r.tool_calls in
    after_calls s'.stop a n s' (msgs ++ user_results (all_results a r.tool_calls made) ∷ []) r
      (investigating r.tool_calls)

on_calls : List ToolCall → Agent → ℕ → Session → List Message → Response → Turn
on_calls [] a n s msgs r = ends s n complete r.text
on_calls (c ∷ cs) a n s msgs r = with_calls a n s msgs r

-- A reply, by the reason for which it stopped.
on_stop : StopReason → Agent → ℕ → Session → List Message → Response → Turn
on_stop stop_max_tokens a n s msgs r = ends s n (incomplete reply_cut) r.text
on_stop stop_refusal a n s msgs r = ends s n (incomplete refused_by_model) r.text
on_stop stop_error a n s msgs r = ends s n (incomplete reply_failed) ""
on_stop _ a n s msgs r = on_calls r.tool_calls a n s msgs r

-- What the provider answers on the turn with index `i`.
on_reply : Option Response → Agent → ℕ → Talk → Turn
on_reply none a i t = ends t.session t.iterations (incomplete provider_failed) ""
on_reply (some r) a i t =
    on_stop r.stop_reason a (suc i) t.session (t.messages ++ assistant r ∷ []) r

-- The request is sent only if it fits.
on_fit : Fit → Model → Agent → ℕ → Talk → Request → Turn
on_fit limit_unknown m a i t req = ends t.session t.iterations (incomplete context_unknown) ""
on_fit too_large m a i t req = ends t.session t.iterations (incomplete context_overflow) ""
on_fit fits m a i t req = on_reply (m.reply i req) a i t

request : Model → Agent → Talk → Request
request m a t = record {
  system = m.system;
  messages = t.messages;
  tools = m.tools;
  max_tokens = a.budgets.max_tokens;
}

-- The body of the loop.
pub turn : Model → Agent → ℕ → Talk → Turn
turn m a i t =
    let req = request m a t in
    if m.expired i
    then ends t.session t.iterations (incomplete timed_out) ""
    else on_fit (check_fit req m.max_context) m a i t req

follow : Turn → (Talk → Session × Outcome) → Session × Outcome
follow (over s out) next = (s, out)
follow (goes_on t) next = next t

-- The loop, with the turns that are left.
pub loop : Model → Agent → ℕ → ℕ → Talk → Session × Outcome
loop m a zero i t =
    (t.session, record { status = incomplete turns_spent; iterations = t.iterations; text = "" })
loop m a (suc left) i t = follow (turn m a i t) (λ t'. loop m a left (suc i) t')

start : Model → Session → Talk
start m s = record {
  session = s;
  messages = record { role = role_user; text = m.first; tool_calls = []; tool_results = [] } ∷ [];
  iterations = 0;
}

begin : Model → Agent → Session × Bool → Session × Outcome
begin m a (s, false) =
    (s, record { status = incomplete facts_too_large; iterations = 0; text = "" })
begin m a (s, true) = loop m a (pos_part a.budgets.max_iterations) 0 (start m s)

-- `Session.Run` of a session that is fully configured.
pub run : Model → Agent → Session → Session × Outcome
run m a s = begin m a (account a s (length (codes m.facts)))
