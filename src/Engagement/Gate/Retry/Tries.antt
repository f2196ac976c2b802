-- ===== src/Engagement/Gate/Retry/Tries.antt =====
-- How often a request is attempted, and when.
use scheck.Prelude.{
  String, ℕ, suc, ◌+◌, ◌≤◌, Bool, true, false, not, ◌&&◌, ◌||◌, Option, none, some, List, [], ◌∷◌,
  length, ◌≡◌, ◌∙◌, sym, refl, arith, ltb, Bool-cases, inl, inr, ◌⊎◌,
}
use scheck.Engagement.Gate.Retry.{
  Retry, Result, Gate, Try, Around, past_deadline, max_retry_after, retrying, ended, and_try,
  make_try, mark_sent, any_sent, send_retrying, Sent, next_id, wait_for, exhausted, cut_retry,
  not_sent, end_with, retry_delays,
}

-- The attempts are numbered one by one, none is waited for longer than the gate waits, and no wait ends behind the
-- deadline.
abbrev pub IsPaced : Around → ℕ → List Try → Type 0
IsPaced env n [] = Unit {0}
IsPaced env n (t ∷ ts) =
    (t.number ≡ n)
    × (t.waited ≤ max_retry_after)
    × (past_deadline env.deadline (t.asked_at + t.waited) ≡ false)
    × IsPaced env (suc n) ts

-- What is known of the retries: at most so many, and paced.
abbrev Paced : Around → ℕ → ℕ → Sent → Type 0
Paced env most n s = (length s.2 ≤ most) × IsPaced env n s.2

module _ (env : Around) (first : String) where
  and_try-Paced :
      (most n : ℕ) (t : Try) (s : Sent)
      → t.number ≡ n
      → t.waited ≤ max_retry_after
      → past_deadline env.deadline (t.asked_at + t.waited) ≡ false
      → Paced env most (suc n) s
      → Paced env (suc most) n (and_try t s)
  unfolding and_try
  and_try-Paced most n t (g, res, ts) h k l later = (omega (arith, later.0), (h, k, l, later.1))

  retrying-Paced :
      (n : ℕ) (ds : List ℕ) (g : Gate) (res : Result) (r : Option Retry)
      → Paced env (length ds) n (retrying env first n ds g res r)
  unfolding retrying ended make_try
  retrying-Paced n ds g res none = (omega arith, tt)
  retrying-Paced n [] g res (some r) = (omega arith, tt)
  retrying-Paced n (d ∷ ds) g res (some r) =
      elim (Bool-cases (
        ltb max_retry_after (wait_for env r d)
        || past_deadline env.deadline (env.now g + wait_for env r d))) [
          | inl e ↦ rw e (omega arith, tt)
          | inr e ↦ elim (Bool-cases (env.cut_short n)) [
            | inl f ↦ rw (e, f) (omega arith, tt)
            | inr f ↦
                rw (e, f)
                  (and_try-Paced (length ds) n _ _ refl (ground arith) (ground arith)
                    (retrying-Paced (suc n) ds _ _ _))
          ]
        ]

  -- A result is marked as sent only if it was, or if an attempt was.
  abbrev IsKnown : Result → Sent → Type 0
  IsKnown res s = s.1.sent ≡ true → (res.sent || any_sent s.2) ≡ true

  exhausted-sent : (g : Gate) (res : Result) (r : Retry) → (exhausted env g res r).1.sent ≡ res.sent
  unfolding exhausted end_with
  exhausted-sent g res r = ground arith

  cut_retry-sent :
      (g : Gate) (n : ℕ) (res : Result) (r : Retry) (wait : ℕ)
      → (cut_retry env g first n res r wait).1.sent ≡ true
      → res.sent ≡ true
  unfolding cut_retry not_sent
  cut_retry-sent g n res r wait h =
      elim (Bool-cases
        (not (past_deadline env.deadline (env.now_at_cut g + wait)) && not r.rate_limit)) [
          | inl e ↦ sym (exhausted-sent g res r) ∙ (rw e at h)
          | inr e ↦ let wrong : false ≡ true = rw e at h in cc
        ]

  and_try-IsKnown :
      (res : Result) (t : Try) (res' : Result) (s : Sent)
      → t.was_sent ≡ res'.sent
      → IsKnown res' s
      → IsKnown res (and_try t s)
  unfolding and_try any_sent
  and_try-IsKnown res t res' (g, out, ts) e h k = let m = h k in ground arith

  retrying-IsKnown :
      (n : ℕ) (ds : List ℕ) (g : Gate) (res : Result) (r : Option Retry)
      → IsKnown res (retrying env first n ds g res r)
  unfolding retrying ended any_sent not_sent make_try
  retrying-IsKnown n ds g res none = λ h. ground arith
  retrying-IsKnown n [] g res (some r) =
      λ h. let k : res.sent ≡ true = sym (exhausted-sent g res r) ∙ h in ground arith
  retrying-IsKnown n (d ∷ ds) g res (some r) =
      elim (Bool-cases (
        ltb max_retry_after (wait_for env r d)
        || past_deadline env.deadline (env.now g + wait_for env r d))) [
          | inl e ↦ rw e (λ h.
              let k : res.sent ≡ true = cut_retry-sent g n res r (wait_for env r d) h in
              ground arith)
          | inr e ↦ elim (Bool-cases (env.cut_short n)) [
            | inl f ↦ rw (e, f) (λ h. cc)
            | inr f ↦
                rw (e, f)
                  (and_try-IsKnown res _ (env.attempt (next_id g).0 (next_id g).1 first n).1 _ refl
                    (retrying-IsKnown (suc n) ds _ _ _))
          ]
        ]

-- What is known of a request: how often it was tried and when, and whether it was sent. A credential exchange is tried
-- once.
pub record Tried (env : Around) (exchange : Bool) (s : Sent) : Type 0 where
  pub initial : Try
  pub retries : List Try
  pub tries : s.2 ≡ initial ∷ retries
  pub numbered : initial.number ≡ 1
  pub at_most : length retries ≤ 3
  pub paced : IsPaced env 2 retries
  pub once : (exchange ≡ false) ⊎ (retries ≡ [])
  pub marked : s.1.sent ≡ any_sent s.2

marked_by : (a b c : Bool) → (a ≡ true → (b || c) ≡ true) → (a || (b || c)) ≡ (b || c)
marked_by true b c h = let k = h refl in ground arith
marked_by false b c h = refl

-- A request is tried once, and then again at most three times, the attempts numbered one by one; a wait is never longer
-- than the gate waits, and never ends behind the deadline; a credential exchange is tried once; and the result is marked
-- as sent exactly if some attempt was sent.
pub send_retrying-Tried :
    (env : Around) (exchange : Bool) (g : Gate) → Tried env exchange (send_retrying env exchange g)
unfolding send_retrying and_try mark_sent make_try any_sent retry_delays
send_retrying-Tried env true g = record {
  initial = _;
  retries = [];
  tries = refl;
  numbered = refl;
  at_most = omega arith;
  paced = tt;
  once = inr refl;
  marked = ground arith;
}
send_retrying-Tried env false g =
    let first = (next_id g).1 in
    let (g', res, r) = env.attempt (next_id g).0 first "" 1 in
    let later = retrying env first 2 retry_delays g' res r in
    let paced = retrying-Paced env first 2 retry_delays g' res r in
    let known = retrying-IsKnown env first 2 retry_delays g' res r in
    record {
      initial = _;
      retries = _;
      tries = refl;
      numbered = refl;
      at_most = paced.0;
      paced = paced.1;
      once = inl refl;
      marked = marked_by later.1.sent res.sent (any_sent later.2) known;
    }
