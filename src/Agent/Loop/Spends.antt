-- ===== src/Agent/Loop/Spends.antt =====
-- What the loop over the turns leaves of a session, and of its budgets.
use scheck.Prelude.{
  String, ℕ, zero, suc, ◌+◌, ◌≤◌, Bool, true, false, Option, none, some, List, [], ◌∷◌, ◌≡◌, refl,
  subst, arith, ◌==◌, nat_eq, Bool-cases, inl, inr, length, if◌then◌else◌,
}
use scheck.Prelude.Int.{pos_part}
use scheck.Prelude.Strings.{codes}
use scheck.Agent.Fit.{ToolCall, ToolResult, Message, Request, Fit, fits, too_large, limit_unknown}
use scheck.Agent.Tools.{Agent, Session, Budget, call}
use scheck.Agent.Tools.Keeps.{
  Keeps, Keeps_refl, Keeps_trans, account-Keeps, account-unspent, call-Keeps,
}
use scheck.Agent.Loop.{
  Model, Response, StopReason, stop_max_tokens, stop_refusal, stop_error, complete, incomplete,
  Reason, turns_spent, Outcome, Talk, Turn, over, goes_on, ends, joined, run_calls, follow,
  after_calls, with_calls, on_calls, on_stop, on_reply, on_fit, turn, loop, begin, run, start,
}

-- What an end of the run says: complete only if no budget is spent, and no more turns than there were.
pub record Told (n : ℕ) (s : Session) (out : Outcome) : Type 0 where
  pub unspent : out.status ≡ complete → s.stop ≡ none
  pub counted : out.iterations ≤ n

-- The session, the end and the talk that a turn leaves, from a session, on the n-th turn.
abbrev pub Holds : Agent → Session → ℕ → Turn → Type 0
Holds a s n (over t out) = Keeps a s t × Told n t out
Holds a s n (goes_on t) = Keeps a s t.session × (t.session.stop ≡ none) × (t.iterations ≤ n)

module _ (a : Agent) where
  joined-Keeps :
      (o : Option Budget) (s t : Session) (res : ToolResult) (later : Session × List ToolResult)
      → Keeps a s t
      → Keeps a t later.0
      → Keeps a s (joined o t res later).0
  unfolding joined
  joined-Keeps (some b) s t res later h k = h
  joined-Keeps none s t res (u, results) h k = Keeps_trans a h k

  run_calls-Keeps : (s : Session) (cs : List ToolCall) → Keeps a s (run_calls a s cs).0
  unfolding run_calls
  run_calls-Keeps s [] = Keeps_refl a s
  run_calls-Keeps s (c ∷ cs) =
      joined-Keeps _ s _ _ _ (call-Keeps a s c) (run_calls-Keeps (call a s c).0 cs)

  -- An end that is not complete.
  ends-incomplete :
      (s t : Session) (n k : ℕ) (why : Reason) (text : String)
      → k ≤ n
      → Keeps a s t
      → Holds a s n (ends t k (incomplete why) text)
  unfolding ends
  ends-incomplete s t n k why text h keeps = (keeps, record { unspent = λ e. cc; counted = h })

  ends-complete :
      (s t : Session) (n : ℕ) (text : String)
      → t.stop ≡ none
      → Keeps a s t
      → Holds a s n (ends t n complete text)
  unfolding ends
  ends-complete s t n text h keeps = (keeps, record { unspent = λ e. h; counted = omega arith })

  last_turn-Holds :
      (s t : Session) (n : ℕ) (r : Response) (asked : ℕ)
      → t.stop ≡ none
      → Keeps a s t
      → Holds a s n
          (if asked == 0 then ends t n complete r.text else ends t n (incomplete turns_spent) "")
  last_turn-Holds s t n r asked h keeps = elim (Bool-cases (asked == 0)) [
    | inl e ↦ rw e (ends-complete s t n r.text h keeps)
    | inr e ↦ rw e (ends-incomplete s t n n turns_spent "" (omega arith) keeps)
  ]

  after_calls-Holds :
      (o : Option Budget) (s t : Session) (n : ℕ) (msgs : List Message) (r : Response) (asked : ℕ)
      → t.stop ≡ o
      → Keeps a s t
      → Holds a s n (after_calls o a n t msgs r asked)
  unfolding after_calls
  after_calls-Holds (some b) s t n msgs r asked h keeps =
      ends-incomplete s t n n _ "" (omega arith) keeps
  after_calls-Holds none s t n msgs r asked h keeps =
      elim (Bool-cases (n == pos_part a.budgets.max_iterations)) [
        | inl e ↦ rw e (last_turn-Holds s t n r asked h keeps)
        | inr e ↦ rw e (keeps, h, omega arith)
      ]

  on_calls-Holds :
      (cs : List ToolCall) (n : ℕ) (s : Session) (msgs : List Message) (r : Response)
      → s.stop ≡ none
      → Holds a s n (on_calls cs a n s msgs r)
  unfolding on_calls with_calls
  on_calls-Holds [] n s msgs r h = ends-complete s s n r.text h (Keeps_refl a s)
  on_calls-Holds (c ∷ cs) n s msgs r h =
      after_calls-Holds _ s _ n _ r _ refl (run_calls-Keeps s r.tool_calls)

  on_stop-Holds :
      (why : StopReason) (n : ℕ) (s : Session) (msgs : List Message) (r : Response)
      → s.stop ≡ none
      → Holds a s n (on_stop why a n s msgs r)
  unfolding on_stop
  on_stop-Holds stop_max_tokens n s msgs r h =
      ends-incomplete s s n n _ _ (omega arith) (Keeps_refl a s)
  on_stop-Holds stop_refusal n s msgs r h =
      ends-incomplete s s n n _ _ (omega arith) (Keeps_refl a s)
  on_stop-Holds stop_error n s msgs r h = ends-incomplete s s n n _ _ (omega arith) (Keeps_refl a s)
  on_stop-Holds why n s msgs r h = on_calls-Holds r.tool_calls n s msgs r h

  module _ (m : Model) where
    on_reply-Holds :
        (o : Option Response) (i : ℕ) (t : Talk)
        → t.iterations ≤ i
        → t.session.stop ≡ none
        → Holds a t.session (suc i) (on_reply o a i t)
    unfolding on_reply
    on_reply-Holds none i t k h =
        ends-incomplete t.session t.session (suc i) _ _ "" (omega arith) (Keeps_refl a t.session)
    on_reply-Holds (some r) i t k h = on_stop-Holds r.stop_reason (suc i) t.session _ r h

    on_fit-Holds :
        (f : Fit) (i : ℕ) (t : Talk) (req : Request)
        → t.iterations ≤ i
        → t.session.stop ≡ none
        → Holds a t.session (suc i) (on_fit f m a i t req)
    unfolding on_fit
    on_fit-Holds limit_unknown i t req k h =
        ends-incomplete t.session t.session (suc i) _ _ "" (omega arith) (Keeps_refl a t.session)
    on_fit-Holds too_large i t req k h =
        ends-incomplete t.session t.session (suc i) _ _ "" (omega arith) (Keeps_refl a t.session)
    on_fit-Holds fits i t req k h = on_reply-Holds _ i t k h

    pub turn-Holds :
        (i : ℕ) (t : Talk)
        → t.iterations ≤ i
        → t.session.stop ≡ none
        → Holds a t.session (suc i) (turn m a i t)
    unfolding turn
    turn-Holds i t k h = elim (Bool-cases (m.expired i)) [
      | inl e ↦ rw e (
          ends-incomplete t.session t.session (suc i) _ _ "" (omega arith) (Keeps_refl a t.session))
      | inr e ↦ rw e (on_fit-Holds _ i t _ k h)
    ]

    -- What is told of a session and its outcome.
    abbrev pub Ended : Session → ℕ → Session × Outcome → Type 0
    Ended s n r = Keeps a s r.0 × Told n r.0 r.1

    follow-Ended :
        (s : Session) (n k : ℕ) (x : Turn) (next : Talk → Session × Outcome)
        → Holds a s n x
        → n ≤ k
        → ((t : Talk) → t.iterations ≤ n → t.session.stop ≡ none → Ended t.session k (next t))
        → Ended s k (follow x next)
    unfolding follow
    follow-Ended s n k (over t out) next (keeps, told) h later =
        (keeps, record { unspent = told.unspent; counted = omega (arith, told.counted) })
    follow-Ended s n k (goes_on t) next (keeps, unspent, counted) h later =
        let (keeps', told) = later t counted unspent in (Keeps_trans a keeps keeps', told)

    loop-Ended :
        (left i : ℕ) (t : Talk)
        → t.iterations ≤ i
        → t.session.stop ≡ none
        → Ended t.session (left + i) (loop m a left i t)
    unfolding loop
    loop-Ended zero i t k h =
        (Keeps_refl a t.session, record { unspent = λ e. cc; counted = omega arith })
    loop-Ended (suc left) i t k h =
        follow-Ended t.session (suc i) _ _ _ (turn-Holds i t k h) (omega arith) (λ t' k' h'.
          subst (λ n. Ended t'.session n (loop m a left (suc i) t')) (omega arith)
            (loop-Ended left (suc i) t' k' h'))

    begin-Ended :
        (s : Session) (r : Session × Bool)
        → Keeps a s r.0
        → (r.1 ≡ true → r.0.stop ≡ none)
        → Ended s (pos_part a.budgets.max_iterations) (begin m a r)
    unfolding begin start
    begin-Ended s (t, false) keeps h = (keeps, record { unspent = λ e. cc; counted = omega arith })
    begin-Ended s (t, true) keeps h =
        let (keeps', told) =
          loop-Ended (pos_part a.budgets.max_iterations) 0 (start m t) (omega arith) (h refl) in
        (
          Keeps_trans a keeps keeps',
          record { unspent = told.unspent; counted = omega (arith, told.counted) },
        )

    -- What the run keeps of the session, and what its end says.
    pub run-Ended :
        (s : Session) → s.stop ≡ none → Ended s (pos_part a.budgets.max_iterations) (run m a s)
    unfolding run
    run-Ended s h =
        begin-Ended s _ (account-Keeps a s (length (codes m.facts))) (account-unspent a s _ h)
