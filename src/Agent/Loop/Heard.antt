-- ===== src/Agent/Loop/Heard.antt =====
-- A model that stops calling tools is heard: the run ends with that turn at the latest, and not for want of turns.
use scheck.Prelude.{
  String, ℕ, zero, suc, ◌+◌, ◌≤◌, ◌<◌, Bool, true, false, Option, none, some, List, [], ◌∷◌, ◌≡◌,
  ◌≢◌, refl, sym, subst, arith, ◌==◌, nat_eq, Bool-cases, inl, inr, length,
}
use scheck.Prelude.Int.{pos_part}
use scheck.Prelude.Strings.{codes}
use scheck.Agent.Fit.{ToolCall, Message, Request, Fit, fits, too_large, limit_unknown, check_fit}
use scheck.Agent.Tools.{Agent, Session, Budget, account}
use scheck.Agent.Tools.Keeps.{account-unspent}
use scheck.Agent.Loop.{
  Model, Response, StopReason, stop_max_tokens, stop_refusal, stop_error, complete, incomplete,
  Reason, turns_spent, Outcome, Talk, Turn, over, goes_on, ends, follow, after_calls, with_calls,
  on_calls, on_stop, on_reply, on_fit, request, turn, loop, begin, run, start,
}
use scheck.Agent.Loop.Spends.{Holds, turn-Holds}

-- The provider fails, or answers without a tool call.
abbrev pub IsQuiet : Option Response → Type 0
IsQuiet none = Unit
IsQuiet (some r) = r.tool_calls ≡ []

-- A turn that ends the run does not end it for want of turns; one that does not meets the condition.
abbrev Judged : Type 0 → Turn → Type 0
Judged Goes (over s out) = out.status ≢ incomplete turns_spent
Judged Goes (goes_on t) = Goes

module _ (m : Model) (a : Agent) (Goes : Type 0) where
  ends-Judged :
      (s : Session) (n : ℕ) (why : Reason) (text : String)
      → why ≢ turns_spent
      → Judged Goes (ends s n (incomplete why) text)
  unfolding ends
  ends-Judged s n why text h e = h (ground (arith, e))

  complete-Judged : (s : Session) (n : ℕ) (text : String) → Judged Goes (ends s n complete text)
  unfolding ends
  complete-Judged s n text e = cc

  on_stop-Judged :
      (why : StopReason) (n : ℕ) (s : Session) (msgs : List Message) (r : Response)
      → Judged Goes (on_calls r.tool_calls a n s msgs r)
      → Judged Goes (on_stop why a n s msgs r)
  unfolding on_stop
  on_stop-Judged stop_max_tokens n s msgs r h = ends-Judged s n _ _ (λ e. cc)
  on_stop-Judged stop_refusal n s msgs r h = ends-Judged s n _ _ (λ e. cc)
  on_stop-Judged stop_error n s msgs r h = ends-Judged s n _ _ (λ e. cc)
  on_stop-Judged why n s msgs r h = h

  on_reply-Judged :
      (o : Option Response) (i : ℕ) (t : Talk)
      → ((r : Response) (msgs : List Message)
          → o ≡ some r
          → Judged Goes (on_calls r.tool_calls a (suc i) t.session msgs r))
      → Judged Goes (on_reply o a i t)
  unfolding on_reply
  on_reply-Judged none i t h = ends-Judged t.session t.iterations _ _ (λ e. cc)
  on_reply-Judged (some r) i t h = on_stop-Judged r.stop_reason (suc i) t.session _ r (h r _ refl)

  on_fit-Judged :
      (f : Fit) (i : ℕ) (t : Talk) (req : Request)
      → Judged Goes (on_reply (m.reply i req) a i t)
      → Judged Goes (on_fit f m a i t req)
  unfolding on_fit
  on_fit-Judged limit_unknown i t req h = ends-Judged t.session t.iterations _ _ (λ e. cc)
  on_fit-Judged too_large i t req h = ends-Judged t.session t.iterations _ _ (λ e. cc)
  on_fit-Judged fits i t req h = h

  turn-Judged :
      (i : ℕ) (t : Talk)
      → ((r : Response) (msgs : List Message) (req : Request)
          → m.reply i req ≡ some r
          → Judged Goes (on_calls r.tool_calls a (suc i) t.session msgs r))
      → Judged Goes (turn m a i t)
  unfolding turn
  turn-Judged i t h = elim (Bool-cases (m.expired i)) [
    | inl e ↦ rw e (ends-Judged t.session t.iterations _ _ (λ e'. cc))
    | inr e ↦ rw e (
        on_fit-Judged (check_fit (request m a t) m.max_context) i t (request m a t) (
          on_reply-Judged (m.reply i (request m a t)) i t
            (λ r msgs eq. h r msgs (request m a t) eq)))
  ]

module _ (m : Model) (a : Agent) where
  on_calls_none :
      (cs : List ToolCall) (n : ℕ) (s : Session) (msgs : List Message) (r : Response)
      → cs ≡ []
      → Judged ⊥ (on_calls cs a n s msgs r)
  unfolding on_calls
  on_calls_none [] n s msgs r h = complete-Judged m a ⊥ s n r.text
  on_calls_none (c ∷ cs) n s msgs r h = cc

  -- On a quiet turn the run ends.
  quiet_turn :
      (i : ℕ) (t : Talk) → ((req : Request) → IsQuiet (m.reply i req)) → Judged ⊥ (turn m a i t)
  quiet_turn i t h = turn-Judged m a ⊥ i t (λ r msgs req e.
      on_calls_none r.tool_calls (suc i) t.session msgs r (subst IsQuiet e (h req)))

  after_calls_early :
      (o : Option Budget) (n : ℕ) (s : Session) (msgs : List Message) (r : Response) (asked : ℕ)
      → (n == pos_part a.budgets.max_iterations) ≡ false
      → Judged Unit (after_calls o a n s msgs r asked)
  unfolding after_calls
  after_calls_early (some b) n s msgs r asked h = ends-Judged m a Unit s n _ _ (λ e. cc)
  after_calls_early none n s msgs r asked h = rw h tt

  on_calls_early :
      (cs : List ToolCall) (n : ℕ) (s : Session) (msgs : List Message) (r : Response)
      → (n == pos_part a.budgets.max_iterations) ≡ false
      → Judged Unit (on_calls cs a n s msgs r)
  unfolding on_calls with_calls
  on_calls_early [] n s msgs r h = complete-Judged m a Unit s n r.text
  on_calls_early (c ∷ cs) n s msgs r h = after_calls_early _ n _ _ r _ h

  -- A turn before the last does not end the run for want of turns.
  early_turn :
      (i : ℕ) (t : Talk)
      → (suc i == pos_part a.budgets.max_iterations) ≡ false
      → Judged Unit (turn m a i t)
  early_turn i t h =
      turn-Judged m a Unit i t
        (λ r msgs req e. on_calls_early r.tool_calls (suc i) t.session msgs r h)

  module _ (k : ℕ) (quiet : (req : Request) → IsQuiet (m.reply k req)) where
    -- The run has ended by the turn `k`.
    abbrev pub Heard : Session × Outcome → Type 0
    Heard r = (r.1.iterations ≤ suc k) × (r.1.status ≢ incomplete turns_spent)

    follow_last :
        (s : Session) (x : Turn) (next : Talk → Session × Outcome)
        → Holds a s (suc k) x
        → Judged ⊥ x
        → Heard (follow x next)
    unfolding follow
    follow_last s (over t out) next (keeps, told) h = (told.counted, h)
    follow_last s (goes_on t) next held h = absurd h

    follow_early :
        (s : Session) (i : ℕ) (x : Turn) (next : Talk → Session × Outcome)
        → suc i ≤ suc k
        → Holds a s (suc i) x
        → Judged Unit x
        → ((t : Talk) → t.iterations ≤ suc i → t.session.stop ≡ none → Heard (next t))
        → Heard (follow x next)
    unfolding follow
    follow_early s i (over t out) next le (keeps, told) h later = (omega (arith, told.counted), h)
    follow_early s i (goes_on t) next le (keeps, unspent, counted) h later = later t counted unspent

    loop-Heard :
        (left i : ℕ) (t : Talk)
        → left + i ≡ pos_part a.budgets.max_iterations
        → i ≤ k
        → k < pos_part a.budgets.max_iterations
        → t.iterations ≤ i
        → t.session.stop ≡ none
        → Heard (loop m a left i t)
    unfolding loop
    loop-Heard zero i t e le lt n h = absurd (omega arith)
    loop-Heard (suc left) i t e le lt n h = elim (Bool-cases (i == k)) [
      | inl here ↦
          let same : i ≡ k = ground arith in
          follow_last t.session _ _
            (subst (λ j. Holds a t.session (suc j) (turn m a i t)) same (turn-Holds a m i t n h))
            (quiet_turn i t (λ req. subst (λ j. IsQuiet (m.reply j req)) (sym same) (quiet req)))
      | inr before ↦
          follow_early t.session i _ _ (omega arith) (turn-Holds a m i t n h)
            (early_turn i t (ground arith))
            (λ t' n' h'. loop-Heard left (suc i) t' (omega arith) (ground arith) lt n' h')
    ]

    begin-Heard :
        (r : Session × Bool)
        → k < pos_part a.budgets.max_iterations
        → (r.1 ≡ true → r.0.stop ≡ none)
        → Heard (begin m a r)
    unfolding begin start
    begin-Heard (s, false) lt h = (omega arith, λ e. cc)
    begin-Heard (s, true) lt h =
        loop-Heard _ 0 (start m s) (omega arith) (omega arith) lt (omega arith) (h refl)

    -- If no budget is spent at the start, and the provider, whatever it is sent on a turn that the run may have, fails or
    -- answers without a tool call, then the run ends with that turn at the latest, and not for want of turns.
    pub run-Heard :
        (s : Session) → s.stop ≡ none → k < pos_part a.budgets.max_iterations → Heard (run m a s)
    unfolding run
    run-Heard s h lt =
        begin-Heard (account a s (length (codes m.facts))) lt (account-unspent a s _ h)
