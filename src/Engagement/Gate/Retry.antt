-- ===== src/Engagement/Gate/Retry.antt =====
-- internal/engagement/gate/gate.go and admit.go: a request and its retries. What an attempt comes to is an argument, and
-- so are the clock, the jitter and whether a sleep is cut short; durations are nanoseconds. The texts of the details
-- are left out.
pub mod Tries
use Prim.Native.Nat.{◌-◌}
use scheck.Prelude.{
  String, ℕ, zero, suc, ◌+◌, ◌*◌, Bool, true, false, not, ◌&&◌, ◌||◌, Option, none, some, List, [],
  ◌∷◌, ◌++◌, length, map_get, is_some, ltb, leb, ◌==◌, nat_eq, string_eq, if◌then◌else◌,
}
use scheck.Prelude.Strings.{◌+◌ as concat, has_prefix, decimal, codes}

-- `retry`; an `after` of 0 backs off.
pub record Retry : Type 0 where
  pub provider : String
  pub after : ℕ
  pub rate_limit : Bool
  pub code : String
  pub evidence : Bool

-- `Result`, what the retries read and set of it.
pub record Result : Type 0 where
  pub request_id : String
  pub decision : String
  pub reason : String
  pub sent : Bool
  pub repeats : Bool
  pub until : Option ℕ

-- `Entry`, what a retry that is not sent leaves.
pub record Entry : Type 0 where
  pub request_id : String
  pub attempt : ℕ
  pub retry_of : String
  pub decision : String

-- `Gate`, what the retries change of it.
pub record Gate : Type 0 where
  pub session : ℕ
  pub seq : ℕ
  pub entries : List Entry
  pub stopped : List (String × Option ℕ)

-- One attempt that was made: its number, how long it was waited for, and whether a send line was written.
pub record Try : Type 0 where
  pub number : ℕ
  pub waited : ℕ
  pub asked_at : ℕ
  pub was_sent : Bool

-- What is not the retries' own. `deadline` is none where there is no limit.
pub record Around : Type 0 where
  pub attempt : Gate → String → String → ℕ → Gate × Result × Option Retry
  pub now : Gate → ℕ
  -- The clock as `cutRetry` reads it again.
  pub now_at_cut : Gate → ℕ
  pub jitter : ℕ → ℕ
  pub cut_short : ℕ → Bool
  pub deadline : Option ℕ
  pub is_web : String → Bool

-- `reasons`.
reasons : List (String × String)
reasons =
    ("refused:excluded", "excluded_by_operator")
    ∷ ("refused:address_excluded", "excluded_by_operator")
    ∷ ("refused:address_not_public", "unavailable:address_not_public")
    ∷ ("refused:address_moved", "unavailable:address_moved")
    ∷ ("refused:no_credentials", "no_credentials")
    ∷ ("refused:deadline", "limit_reached")
    ∷ ("refused:rate_limit", "limit_reached")
    ∷ ("refused:canceled", "limit_reached")
    ∷ ("refused:window", "limit_reached")
    ∷ ("unavailable:deadline", "limit_reached")
    ∷ ("unavailable:window_ended", "limit_reached")
    ∷ ("unavailable:canceled", "limit_reached")
    ∷ []

by_table : Option String → String → String
by_table (some r) decision = r
by_table none decision =
    if has_prefix decision "unavailable:"
    then decision
    else if has_prefix decision "refused:"
    then "unavailable:refused_by_gate"
    else ""

-- `reasonOf`.
pub reason_of : String → String
reason_of decision = by_table (map_get reasons decision) decision

-- `Result.end`.
end_with : Result → String → Result
end_with res decision = record res { decision = decision; reason = reason_of decision }

zeros : ℕ → String
zeros zero = ""
zeros (suc n) = concat "0" (zeros n)

padded : ℕ → String
padded n = concat (zeros (6 - length (codes (decimal n)))) (decimal n)

-- `nextID`.
next_id : Gate → Gate × String
next_id g =
    let n = suc g.seq in
    (
      record g { seq = n },
      if ltb 1 g.session
          then concat "g" (concat (decimal g.session) (concat "-" (padded n)))
          else concat "g" (padded n),
    )

-- `pastDeadline`.
pub past_deadline : Option ℕ → ℕ → Bool
past_deadline none t = false
past_deadline (some d) t = leb d t

-- `stopProvider`: the first stop of a provider is kept.
stop_provider : Around → Gate → String → Option ℕ → Gate
stop_provider env g p until =
    if env.is_web p || is_some (map_get g.stopped p)
    then g
    else record g { stopped = (p, until) ∷ g.stopped }

-- `exhausted`.
exhausted : Around → Gate → Result → Retry → Gate × Result
exhausted env g res r =
    if r.evidence
    then (g, res)
    else if r.rate_limit
    then (
      stop_provider env g r.provider none,
      record res { reason = "limit_reached"; repeats = not (env.is_web r.provider) },
    )
    else (g, end_with res (concat "unavailable:" r.code))

-- A retry that is not sent gets a line and an id of its own.
not_sent : Gate → String → ℕ → String → Gate × Result
not_sent g first n decision =
    let (g', id) = next_id g in
    let e : Entry = record {
      request_id = id;
      attempt = n;
      retry_of = first;
      decision = decision;
    } in
    (
      record g' { entries = g'.entries ++ e ∷ [] },
      record {
        request_id = id;
        decision = decision;
        reason = reason_of decision;
        sent = false;
        repeats = false;
        until = none;
      },
    )

-- The stop of a provider that asked to be waited for too long.
stop_asked : Around → Gate → Retry → ℕ → Gate
stop_asked env g r until = if r.rate_limit then stop_provider env g r.provider (some until) else g

-- `cutRetry`, which reads the clock anew.
cut_retry : Around → Gate → String → ℕ → Result → Retry → ℕ → Gate × Result
cut_retry env g first n res r wait =
    let until = env.now_at_cut g + wait in
    let past = past_deadline env.deadline until in
    let (g', out) =
      not_sent (stop_asked env g r until) first n
        (if past then "refused:deadline" else "refused:rate_limit") in
    if not past && not r.rate_limit then exhausted env g res r else (
      g',
      record out {
        repeats = past || (r.rate_limit && not (env.is_web r.provider));
        until = if ltb 0 r.after then some until else none;
      },
    )

-- `retryDelays` and `maxRetryAfter`.
retry_delays : List ℕ
retry_delays = 1000000000 ∷ 4000000000 ∷ 16000000000 ∷ []

pub max_retry_after : ℕ
max_retry_after = 300000000000

-- The wait before a retry.
wait_for : Around → Retry → ℕ → ℕ
wait_for env r delay = if ltb 0 r.after then r.after else env.jitter delay

-- What the loop returns: the gate, the result and the attempts that were made.
abbrev pub Sent : Type 0
Sent = Gate × Result × List Try

-- An attempt, by the number that it is given, and what is known of it.
make_try : Around → Gate → String → String → ℕ → ℕ → ℕ → Gate × Result × Option Retry × Try
make_try env g id first n wait at =
    let (g', res, r) = env.attempt g id first n in
    (g', res, r, record { number = n; waited = wait; asked_at = at; was_sent = res.sent })

-- An attempt's result with the attempts behind it.
and_try : Try → Sent → Sent
and_try t (g, res, ts) = (g, res, t ∷ ts)

ended : Gate × Result → Sent
ended (g, res) = (g, res, [])

-- The loop over the delays, from the attempt `n` on that would be next.
retrying : Around → String → ℕ → List ℕ → Gate → Result → Option Retry → Sent
retrying env first n ds g res none = (g, res, [])
retrying env first n [] g res (some r) = ended (exhausted env g res r)
retrying env first n (d ∷ ds) g res (some r) =
    let wait = wait_for env r d in
    let past = past_deadline env.deadline (env.now g + wait) in
    let (g', id) = next_id g in
    let (g'', res', r', t) = make_try env g' id first n wait (env.now g) in
    let later = retrying env first (suc n) ds g'' res' r' in
    if ltb max_retry_after wait || past
    then ended (cut_retry env g first n res r wait)
    else if env.cut_short n
    then ended (not_sent g first n "refused:canceled")
    else and_try t later

pub any_sent : List Try → Bool
any_sent [] = false
any_sent (t ∷ ts) = t.was_sent || any_sent ts

mark_sent : Sent → Sent
mark_sent (g, res, ts) = (g, record res { sent = res.sent || any_sent ts }, ts)

-- `sendRetrying`; `exchange` says that the request is a credential exchange.
pub send_retrying : Around → Bool → Gate → Sent
send_retrying env exchange g =
    let (g', first) = next_id g in
    let (g'', res, r, t) = make_try env g' first "" 1 0 (env.now g) in
    let later = retrying env first 2 retry_delays g'' res r in
    mark_sent (and_try t (if exchange then (g'', res, []) else later))
