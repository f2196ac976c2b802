-- ===== src/Finding/Join.antt =====
-- internal/finding/join.go: `StatusWithLoginShell`, the predicate that joins the password states of a
-- host's accounts to their login shells. The second fact is `none` where `with.(check.Records)` fails.
pub mod Told
pub mod Verdicts
pub mod Accounts
pub mod Absent
use scheck.Prelude.{
  String, Bool, true, false, not, ◌&&◌, ◌||◌, Option, none, some, List, [], ◌∷◌, ◌++◌, any, map,
  map_get, is_some, ◌==◌, string_eq, if◌then◌else◌,
}
use scheck.Prelude.Strings.{◌+◌, to_lower, equal_fold, trim_space, join, has_prefix, has_infix}
use scheck.Check.Record.{Record, Records, Parsed, records, field, has_marker}
use scheck.Check.Shells.{refuses_login, interactive_shell}
use scheck.Finding.Predicate.{
  Status, matched, not_matched, not_assessed, Verdict, not_matched_verdict, not_assessed_verdict,
  known, record_excerpt,
}

-- `StatusWithLoginShell`.
pub record StatusWithLoginShell : Type 0 where
  pub name : String
  pub value : String
  pub known_values : List String

-- `AccountOutcome`.
pub record AccountOutcome : Type 0 where
  pub account : String
  pub uid : String
  pub status : Status
  pub reason : String
  pub excerpt : String
  pub with_excerpt : String

-- `JoinOutcome`.
pub record JoinOutcome : Type 0 where
  pub accounts : List AccountOutcome
  pub verdict : Verdict

-- `marked`.
marked : Record → Bool
marked rec =
    any (λ f. has_infix f.1 "[REDACTED" || has_infix f.1 "[TRUNCATED" || has_marker f.1) rec

is_empty : List Record → Bool
is_empty [] = true
is_empty (r ∷ rs) = false

-- `accountNamed`: the account's line, and whether it is the last one.
account_named : List Record → String → Option (Record × Bool)
account_named [] name = none
account_named (r ∷ rs) name =
    let rest = account_named rs name in
    let n = field r "name" in
    if has_prefix n "+" || has_prefix n "-"
    then rest
    else if n == name
    then some (r, is_empty rs)
    else rest

undecided : String → AccountOutcome
undecided name = record {
  account = if name == "" || has_marker name then "(an account whose name was not read)" else name;
  uid = "";
  status = not_assessed;
  reason = "unrecognized-value";
  excerpt = "";
  with_excerpt = "";
}

-- What the first loop does with a record: the account is undecided, is a candidate, or is left out.
pub data Sorted : Type 0 where
  odd : AccountOutcome → Sorted
  candidate : Sorted
  other : Sorted

-- The record's state or name was not read, or not in full.
unread_account : StatusWithLoginShell → Record → Bool
unread_account p rec =
    let v = trim_space (field rec p.name) in
    let name = trim_space (field rec "name") in
    v == "" || has_marker v || name == "" || has_marker name

pub sorted : StatusWithLoginShell → Record → Sorted
sorted p rec =
    let v = trim_space (field rec p.name) in
    let name = trim_space (field rec "name") in
    if unread_account p rec
    then odd (undecided name)
    else if equal_fold v p.value
    then candidate
    else if not (known (to_lower v) p.known_values)
    then odd (undecided name)
    else other

add_sorted : Record → Sorted → List AccountOutcome × List Record → List AccountOutcome × List Record
add_sorted rec (odd a) (accounts, candidates) = (a ∷ accounts, candidates)
add_sorted rec candidate (accounts, candidates) = (accounts, rec ∷ candidates)
add_sorted rec other rest = rest

-- The first loop: the undecided accounts, and the candidates. The flag `unrecognized` is whether there is
-- an undecided account.
pub sort_accounts : StatusWithLoginShell → List Record → List AccountOutcome × List Record
sort_accounts p [] = ([], [])
sort_accounts p (rec ∷ recs) = add_sorted rec (sorted p rec) (sort_accounts p recs)

told : Record → String → String → AccountOutcome
told rec uid why = record {
  account = trim_space (field rec "name");
  uid = uid;
  status = not_assessed;
  reason = why;
  excerpt = record_excerpt rec;
  with_excerpt = "";
}

decided : Record → String → Status → String → AccountOutcome
decided rec uid st ex = record {
  account = trim_space (field rec "name");
  uid = uid;
  status = st;
  reason = "";
  excerpt = record_excerpt rec;
  with_excerpt = ex;
}

shell_excerpt : Record → String → String
shell_excerpt acct shell =
    record_excerpt acct + (if trim_space shell == "" then " shell=(empty, runs /bin/sh)" else "")

uid_of : Record → String
uid_of acct = if marked acct then "" else trim_space (field acct "uid")

-- The switch over an account's shell.
with_shell : Record → Record → Bool → Option String → AccountOutcome
with_shell rec acct cut none = told rec (uid_of acct) "shell-unknown"
with_shell rec acct cut (some shell) =
    if marked acct
    then told rec (uid_of acct) "shell-unknown"
    else if cut
    then told rec (uid_of acct) "account-line-cut"
    else if refuses_login shell
    then decided rec (uid_of acct) not_matched (record_excerpt acct)
    else if interactive_shell shell
    then decided rec (uid_of acct) matched (shell_excerpt acct shell)
    else told rec (uid_of acct) ("unrecognized-shell:" + trim_space shell)

with_account : Record → Bool → Option (Record × Bool) → AccountOutcome
with_account rec is_part none = told rec "" "account-not-in-passwd"
with_account rec is_part (some (acct, last)) =
    with_shell rec acct (last && is_part) (map_get acct "shell")

-- One turn of the second loop.
pub outcome : Option Records → Record → AccountOutcome
outcome none rec = told rec "" "with-unread"
outcome (some shells) rec =
    with_account rec shells.is_partial (account_named shells.items (trim_space (field rec "name")))

-- The variables that the second loop fills.
pub record Sums : Type 0 where
  pub fired : List String
  pub refused : List String
  with_excerpts : List String
  pub unknown : String

add_status : Status → AccountOutcome → Sums → Sums
add_status matched a s = record {
  fired = s.fired ++ a.excerpt ∷ [];
  refused = s.refused;
  with_excerpts = s.with_excerpts ++ a.with_excerpt ∷ [];
  unknown = s.unknown;
}
add_status not_matched a s = record {
  fired = s.fired;
  refused = s.refused ++ a.excerpt ∷ [];
  with_excerpts = s.with_excerpts;
  unknown = s.unknown;
}
add_status _ a s = record {
  fired = s.fired;
  refused = s.refused;
  with_excerpts = s.with_excerpts;
  unknown = a.reason;
}

pub sums : Sums → List AccountOutcome → Sums
sums s [] = s
sums s (a ∷ accounts) = sums (add_status a.status a s) accounts

refused_verdict : List String → Verdict
refused_verdict [] = not_matched_verdict "no-matching-record" ""
refused_verdict (r ∷ rs) = not_matched_verdict "matching-records-refuse-login" (join (r ∷ rs) "; ")

-- The verdict over the accounts.
pub verdict_of : Bool → Bool → Sums → Verdict
verdict_of is_part unrecognized s = elim s.fired [
  | [] ↦
      if is_part
      then not_assessed_verdict "partial-output"
      else if unrecognized
      then not_assessed_verdict "unrecognized-value"
      else if not (s.unknown == "")
      then not_assessed_verdict s.unknown
      else refused_verdict s.refused
  | f ∷ fs ↦ record {
    status = matched;
    reason = "recognized-matching-record-with-login-shell";
    excerpt = join (f ∷ fs) "; ";
    with_excerpt = join s.with_excerpts "; ";
  }
]

pub some_account : List AccountOutcome → Bool
some_account [] = false
some_account (a ∷ rest) = true

no_sums : Sums
no_sums = record { fired = []; refused = []; with_excerpts = []; unknown = "" }

-- The outcome over the records of a listing.
pub decide_records : StatusWithLoginShell → Bool → Option Records → List Record → JoinOutcome
decide_records p is_part shells [] = record {
  accounts = [];
  verdict = not_assessed_verdict "no-records";
}
decide_records p is_part shells (rec ∷ recs) =
    let (undecideds, candidates) = sort_accounts p (rec ∷ recs) in
    let outcomes = map (outcome shells) candidates in
    record {
      accounts = undecideds ++ outcomes;
      verdict = verdict_of is_part (some_account undecideds) (sums no_sums outcomes);
    }

shells_of : Parsed → Option Records
shells_of (records r) = some r
shells_of _ = none

-- `StatusWithLoginShell.Decide`.
pub decide : StatusWithLoginShell → Parsed → Parsed → JoinOutcome
decide p (records r) second = decide_records p r.is_partial (shells_of second) r.items
decide p _ second = record {
  accounts = [];
  verdict = not_assessed_verdict "unexpected-parsed-shape";
}
