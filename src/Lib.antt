-- ===== src/Lib.antt =====
-- A model of scheck, a security checker that collects facts from hosts and services, grades what it finds and
-- reports it, with the theorems that make the modelled parts correct.
--
-- The parts, and how they interact:
-- - internal/finding: the severity scale and the severity chain (finding.go, chain.go) in Finding/Severity and
--   Finding/Chain, the catalog of definitions (catalog.go) in Finding/Catalog, a collector's decision
--   (judgment.go) in Finding/Judgment, the predicates of the posture rules (rule.go) in Finding/Predicate, the
--   predicate that joins two checks (join.go) in Finding/Join, one rule over a fact sheet and the evaluation
--   of all of them (evaluate.go) in Finding/Posture and Finding/Evaluate, leaving dates (clock.go) in
--   Finding/Clock, the finding that a report emits (finding.go) in Finding/Report, the grading of a host's
--   findings (grade.go) in Finding/Adjustments and Finding/Grader, and the store of a run (store.go) in
--   Finding/Store: the model's candidates and their validation in Finding/Candidate and Finding/Spelled, the
--   evidence that they cite in Finding/Cited, the declared services that are not listening in Finding/Missing,
--   and the acceptances that have expired in Finding/Lapsed. Store/Run is a run of the store as the sequence
--   of its calls.
-- - internal/engagement/severity/severity.go: the severity table of an engagement in Engagement/Severity/Table
--   and Rows, its loop `chain` in Loop, and `Grade`, `GradeHost` and `GradeAll` in Grading. It steps the
--   chains of internal/finding.
-- - internal/engagement/gate: what an address is to the gate (addr.go) in Engagement/Gate/Address, whether the
--   addresses of an answer may be contacted (`addresses` of admit.go, with the excludes and roots of
--   internal/engagement/scope.go and locator.go) in Engagement/Gate/Answer, and the limiters (throttle.go, and
--   `throttle` of admit.go) in Engagement/Gate/Limiter. The locators of an engagement and what falls under
--   them (locator.go) are in Engagement/Locator, and the scope built from them (scope.go, and `placeSubject`
--   of gate/admit.go) in Engagement/Scope, with the evidence for a site in Scope/Evidence and the paths of a
--   site in Scope/Sites. An operation's declaration and its validation (op.go, with the exemptions of
--   github_ci.go and workspace.go) are in Gate/Declared, Gate/Template, Gate/Uses and Gate/Operation, and a
--   request with its retries (`sendRetrying` of gate.go, `cutRetry` and `exhausted` of admit.go) in
--   Gate/Retry.
-- - internal/engagement/rules: the listening sockets (listeners.go) in Engagement/Rules/Listeners, and the
--   rule on databases (db.go) in Engagement/Rules/Databases, which reads them.
-- - internal/check: the catalog of checks (check.go, catalog.go) in Check/Catalog, the binding of a check's
--   parameters (bind.go) in Check/Bind, the shape of a parsed capture and the parsers of the tools' output
--   (typed.go, parse.go) in Check/Record, Check/Rows, Check/Typed and Check/Parse, and the login shells
--   (shells.go) in Check/Shells. The posture rules read the captures.
-- - internal/sudoers/sudoers.go: the fragment for the elevated checks, in Sudoers. It reads the catalog.
-- - internal/policy: the decision on a path (path.go) in Policy/Path with its tables in Path/Tables, and the
--   redaction pass (redact.go) in Policy/Redact, the cut of redacted text in Policy/Cut and the budgets
--   (budgets.go) in Policy/Budgets. Policy/Clean and Policy/Glob stand for Go's `path.Clean`, `path.Base` and
--   `path.Match`.
-- - internal/runner: what a runner has and leaves behind (runner.go, observations.go, with the target's answer
--   of internal/target/target.go and the line of internal/policy/audit.go) in Runner/Model, the probes in
--   Runner/Probe, a check up to its command in Runner/Paths, the command and its outcome in Runner/Outcome,
--   and `RunAs` in Runner/Run. It reads the catalog, binds its checks, asks the path policy, and redacts with
--   internal/policy.
-- - internal/agent and internal/llm: whether a request fits (llm.go, tokens.go) in Agent/Fit, the tools of a
--   session (tools.go) in Agent/Tools, which call the runner and the store of internal/finding, and the loop
--   over the turns (agent.go) in Agent/Loop.
-- The names are the source's in the spelling of this library: `Chain.Step` is `Finding.Chain.step`, and
-- `PathPolicy.Decide` is `Policy.Path.decide`. A helper that ends in `_by`, `_of` or `_with` is one branch or
-- the body of the function it is named for. Samples holds concrete inputs and the theorems applied to them.
--
-- A Go map is an association list, a Go `int` that may be negative an integer of Prelude/Int, and a value that
-- a function may not return an Option. Every loop runs over a list, and is structural recursion on it;
-- `classify` of an address has a depth of calls, of which two are enough, and the loop over a model's turns
-- counts the turns that are left, as the source does. A place where the source panics returns `none`. Case
-- folding is that of ASCII. Regular expressions are functions from texts to Bool, or from texts to their
-- submatches, since Go's regexp engine is not part of the repository; the calendar, by which an instant has a
-- day in a time zone and a day an end, is a parameter too. The rule table and the two catalogs are arguments
-- of the functions that read them.
--
-- Waits, mutexes and the order in which goroutines take them are arguments and sequences of calls: what holds
-- of any sequence holds of any order. Addresses are the numbers of their bits, and Go's net/netip is modelled
-- as it documents itself, but for the parsing of an address, which is a parameter.
--
-- What the target, the model's provider and the network answer are functions, of the number of the command, of
-- the turn and request, and of the attempt. A theorem holds for any such function.
--
-- Not modelled: the decoding of JSON and of the texts of locators, the line that sums up a capture
-- (internal/check/summary.go), the targets, the validation of an engagement file, the steps of an attempt of
-- its gate and what an operation says of its response, the sending and the name resolution, the firewall's
-- reading and the other multi-fact rules, its stages and its interview, the collectors, the clients of model
-- services, and the rendering of reports.
pub mod Prelude
pub mod Finding
pub mod Engagement
pub mod Check
pub mod Policy
pub mod Runner
pub mod Agent
pub mod Sudoers
pub mod Samples
