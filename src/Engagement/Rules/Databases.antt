-- ===== src/Engagement/Rules/Databases.antt =====
-- internal/engagement/rules/db.go: the rule R1, for databases that listen beyond localhost. What the host firewall
-- leaves open is a parameter; of an outcome, the texts that the report cites are not modelled.
pub mod Disproved
use scheck.Prelude.{
  String, ℕ, Bool, true, false, not, ◌&&◌, ◌||◌, Option, none, some, List, [], ◌∷◌, ◌++◌, any, keep,
  contains, is_some, ◌==◌, string_eq, nat_eq, if◌then◌else◌,
}
use scheck.Prelude.Strings.{decimal, ◌+◌}
use scheck.Engagement.Rules.Listeners.{
  Listener, PortGroup, Listening, key, beyond, is_database, table_ports, owner_doubt,
}

-- The verdicts of an outcome.
pub data Verdict : Type 0 where
  fired disproved abstained : Verdict

-- Why the rule abstains: the listeners were not read, an owner is not shown, a container may be behind the port, or
-- what the firewall's reading lacks.
pub data Reason : Type 0 where
  unread_listeners listener_owner container_port : Reason
  firewall : String → Reason

-- `Outcome`; the subject is `none` for the host itself.
pub record Outcome : Type 0 where
  pub subject : Option String
  pub verdict : Verdict
  pub reason : Option Reason
  pub incomplete : Bool

-- What `firewallReader.reach` says of the databases of a port: one is open to every source, or some rule was not
-- understood.
pub record Reach : Type 0 where
  pub is_open : Bool
  pub unknown : Option String

-- `switch` of the loop of `dbSubject`, for a listener that is no database: what may hide one.
pub doubt_of : ℕ → Listener → Option Reason
doubt_of port l =
    if is_database l.process l.port
    then none
    else if owner_doubt l && contains table_ports port
    then some container_port
    else if contains table_ports port && l.process == ""
    then some listener_owner
    else none

later : Option Reason → Option Reason → Option Reason
later none before = before
later (some r) before = some r

-- The doubt that the loop leaves: the last one.
pub last_doubt : ℕ → Option Reason → List Listener → Option Reason
last_doubt port before [] = before
last_doubt port before (l ∷ ls) = last_doubt port (later (doubt_of port l) before) ls

pub are_databases : List Listener → List Listener
are_databases ls = keep (λ l. is_database l.process l.port) ls

group_key : PortGroup → String
group_key g = decimal g.port + "/" + g.proto

outcome : PortGroup → Verdict → Option Reason → Outcome
outcome g v r = record { subject = some (group_key g); verdict = v; reason = r; incomplete = false }

by_doubt : PortGroup → Option Reason → Outcome
by_doubt g none = outcome g disproved none
by_doubt g (some r) = outcome g abstained (some r)

by_unknown : PortGroup → Option Reason → Option String → Outcome
by_unknown g doubt (some why) = outcome g abstained (some (firewall why))
by_unknown g doubt none = by_doubt g doubt

by_reach : PortGroup → Option Reason → Reach → Outcome
by_reach g doubt r = if r.is_open then outcome g fired none else by_unknown g doubt r.unknown

without_database : PortGroup → Option Reason → Option Outcome
without_database g none = none
without_database g (some r) = some (outcome g abstained (some r))

-- The end of `dbSubject`, with the databases and the doubt of the loop.
pub subject_by :
    (List Listener → Reach) → PortGroup → List Listener → Option Reason → Option Outcome
subject_by reach g [] doubt = without_database g doubt
subject_by reach g (d ∷ ds) doubt = some (by_reach g doubt (reach (d ∷ ds)))

-- `dbSubject`, of the listeners beyond loopback of a group; `none` where its `ok` is false.
pub db_subject : (List Listener → Reach) → PortGroup → List Listener → Option Outcome
db_subject reach g ls = subject_by reach g (are_databases ls) (last_doubt g.port none ls)

some_listener : (List Listener → Reach) → PortGroup → List Listener → Option Outcome
some_listener reach g [] = none
some_listener reach g (l ∷ ls) = db_subject reach g (l ∷ ls)

add_outcome : Option Outcome → List Outcome → List Outcome
add_outcome none rest = rest
add_outcome (some o) rest = o ∷ rest

-- The loop over the groups.
pub subjects : (List Listener → Reach) → List PortGroup → List Outcome
subjects reach [] = []
subjects reach (g ∷ gs) = add_outcome (some_listener reach g (beyond g)) (subjects reach gs)

host : Verdict → Option Reason → Bool → Outcome
host v r incomplete = record { subject = none; verdict = v; reason = r; incomplete = incomplete }

close : Bool → List Outcome → List Outcome
close false out = out ++ host abstained (some listener_owner) true ∷ []
close true [] = host disproved none false ∷ []
close true (o ∷ out) = o ∷ out

-- `dbListensUnfiltered`; `none` where the listeners could not be read.
pub db_listens_unfiltered : (List Listener → Reach) → Option Listening → List Outcome
db_listens_unfiltered reach none = host abstained (some unread_listeners) true ∷ []
db_listens_unfiltered reach (some l) = close l.complete (subjects reach l.groups)
