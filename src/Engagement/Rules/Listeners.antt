-- ===== src/Engagement/Rules/Listeners.antt =====
-- internal/engagement/rules/listeners.go: the listening sockets as the rules read them. `netip.ParseAddr` is a
-- parameter; an address is that of the gate.
use Prim.Native.Char.{code}
use scheck.Prelude.{
  String, ℕ, Bool, true, false, not, ◌&&◌, ◌||◌, Option, none, some, List, [], ◌∷◌, ◌++◌, any, all,
  map, keep, contains, leb, ◌==◌, string_eq, nat_eq, if◌then◌else◌,
}
use scheck.Prelude.Int.{ℤ, pos}
use scheck.Prelude.Strings.{to_lower, decimal, ◌+◌}
use scheck.Check.Record.{Record, field}
use scheck.Check.Bind.{atoi}
use scheck.Engagement.Gate.Address.{Addr, unmap, is_loopback}

-- `database`: the process, and the ports that it counts on, none for any.
pub databases : List (String × List ℕ)
databases =
    ("postgres", [])
    ∷ ("mysqld", [])
    ∷ ("mariadbd", [])
    ∷ ("redis-server", [])
    ∷ ("valkey-server", [])
    ∷ ("mongod", [])
    ∷ ("memcached", [])
    ∷ ("clickhouse-serv", [])
    ∷ ("clickhouse", [])
    ∷ ("influxd", [])
    ∷ ("couchdb", [])
    ∷ ("beam.smp", 5984 ∷ [])
    ∷ []

-- `tablePorts`.
pub table_ports : List ℕ
table_ports = 5432 ∷ 3306 ∷ 33060 ∷ 6379 ∷ 27017 ∷ 11211 ∷ 8123 ∷ 9000 ∷ 8086 ∷ 5984 ∷ []

-- The keys of `containerOwners`, and `portProxies`.
container_owners : List String
container_owners = "docker-proxy" ∷ "conmon" ∷ []

port_proxies : List String
port_proxies = "rootlessport" ∷ "pasta" ∷ "pasta.avx2" ∷ "slirp4netns" ∷ []

no_ports : List ℕ → Bool
no_ports [] = true
no_ports (p ∷ ps) = false

-- `isDatabase`.
pub is_database : String → ℕ → Bool
is_database process port =
    any (λ d. d.0 == process && (no_ports d.1 || contains d.1 port)) databases

-- `listener`.
pub record Listener : Type 0 where
  pub proto : String
  pub address : String
  pub process : String
  pub port : ℕ
  pub loopback : Bool
  pub v4 : Bool
  pub v6 : Bool
  pub known : Bool

-- `listener.key`.
pub key : Listener → String
key l = decimal l.port + "/" + l.proto

-- `strings.Cut` at a percent sign: the address, and the zone.
cut_zone : String → String × String
cut_zone String.[] = ("", "")
cut_zone (String.◌∷◌ c s) =
    let (addr, zone) = cut_zone s in if code c == b'%' then ("", s) else (String.◌∷◌ c addr, zone)

is_v4 : Addr → Bool
is_v4 (Addr.v4 n) = true
is_v4 (Addr.v6 n zone) = false

-- The address, read: whether it is loopback, and the families that it takes.
by_addr : Listener → Option Addr → Listener
by_addr l none = record l { known = false }
by_addr l (some a) = record l {
  loopback = is_loopback (unmap a);
  v4 = is_v4 (unmap a);
  v6 = not (is_v4 (unmap a));
  known = true;
}

-- What the zone and a loopback address leave: nothing beyond.
beyond_zone : String → Listener → Listener
beyond_zone zone l =
    if not l.known
    then l
    else if zone == "lo" || l.loopback
    then record l { loopback = true; v4 = false; v6 = false }
    else l

-- `listener.classify`.
pub classify : (String → Option Addr) → Listener → Listener
classify parse_addr l =
    let (addr, zone) = cut_zone l.address in
    beyond_zone zone (
      if addr == "*" || addr == "::"
      then record l { known = true; v4 = true; v6 = true }
      else if addr == "0.0.0.0"
      then record l { known = true; v4 = true }
      else by_addr l (parse_addr addr))

-- `strings.ToUpper` of a state is the text, exactly if the state folds to it.
is_state : String → String → Bool
is_state s low = to_lower s == low

is_listening : Record → Bool
is_listening r =
    (to_lower (field r "protocol") == "tcp" && is_state (field r "state") "listen")
    || (to_lower (field r "protocol") == "udp" && is_state (field r "state") "unconn")

valid_port : Option ℤ → Option ℕ
valid_port (some (pos n)) = if leb 1 n && leb n 65535 then some n else none
valid_port _ = none

-- The port of a record, if it is readable.
port_of : Record → Option ℕ
port_of r = valid_port (atoi (field r "port"))

add_listener :
    (String → Option Addr) → Record → Option ℕ → List Listener × Bool → List Listener × Bool
add_listener parse_addr r none rest = (rest.0, false)
add_listener parse_addr r (some port) rest = (
  classify parse_addr (record {
    proto = to_lower (field r "protocol");
    address = field r "address";
    process = field r "process";
    port = port;
    loopback = false;
    v4 = false;
    v6 = false;
    known = false;
  })
      ∷ rest.0,
  rest.1,
)

-- The first loop of `listeners`.
read_listeners : (String → Option Addr) → List Record → List Listener × Bool
read_listeners parse_addr [] = ([], true)
read_listeners parse_addr (r ∷ rs) =
    let rest = read_listeners parse_addr rs in
    if is_listening r then add_listener parse_addr r (port_of r) rest else rest

-- Its second loop: `::` takes IPv4 too, unless an IPv4 wildcard holds the same port.
v6_only : List Listener → Listener → Listener
v6_only all l =
    if l.address == "::" && any (λ o. o.address == "0.0.0.0" && key o == key l) all
    then record l { v4 = false }
    else l

-- `listeners`.
pub listeners : (String → Option Addr) → List Record → List Listener × Bool
listeners parse_addr rs =
    let (out, ok) = read_listeners parse_addr rs in (map (v6_only out) out, ok)

-- `portGroup`.
pub record PortGroup : Type 0 where
  pub port : ℕ
  pub proto : String
  pub all : List Listener

-- `portGroup.beyond`.
pub beyond : PortGroup → List Listener
beyond g = keep (λ l. not l.loopback) g.all

-- A listener put in its group, or in a new one at the end.
add_to_group : List PortGroup → Listener → List PortGroup
add_to_group [] l = record { port = l.port; proto = l.proto; all = l ∷ [] } ∷ []
add_to_group (g ∷ gs) l =
    let others = add_to_group gs l in
    if g.port == l.port && g.proto == l.proto
    then record g { all = g.all ++ l ∷ [] } ∷ gs
    else g ∷ others

group_all : List PortGroup → List Listener → List PortGroup
group_all gs [] = gs
group_all gs (l ∷ ls) = group_all (add_to_group gs l) ls

-- `listening`.
pub record Listening : Type 0 where
  pub groups : List PortGroup
  pub complete : Bool
  ports_ok : Bool

-- Nothing is known of who listens there.
is_open_question : Listener → Bool
is_open_question l = not l.loopback && (not l.known || l.process == "")

-- `readListening`, of a fact that is there: its records, and whether it is partial.
pub read_listening : (String → Option Addr) → List Record → Bool → Listening
read_listening parse_addr rs is_partial =
    let (ls, ok) = listeners parse_addr rs in
    record {
      groups = group_all [] ls;
      complete = not is_partial && ok && not (any is_open_question ls);
      ports_ok = ok;
    }

-- `ownerDoubt`: whether a container runtime or a port proxy owns the socket.
pub owner_doubt : Listener → Bool
owner_doubt l = contains container_owners l.process || contains port_proxies l.process
