-- ===== src/Samples/Chains.antt =====
-- Gradings of a judgment about an exposed URL.
use scheck.Prelude.{
  ◌≤◌, ◌≡◌, refl, false, some, [], ◌∷◌, max, min, if◌then◌else◌, arith, string_eq, nat_eq,
}
use scheck.Prelude.Int.{pos, ltb_ℤ, ◌+ℤ◌}
use scheck.Finding.Severity.{high, medium, info, rank, clamp}
use scheck.Finding.Chain.{Attribute, Move, Chain, step, no_ref, moved, by_collector}
use scheck.Finding.Chain.Rank.{limit, rank-step}
use scheck.Finding.Chain.Linked.{Linked}
use scheck.Finding.Catalog.{Catalog, Def, lookup, register, external, is_exposure}
use scheck.Finding.Catalog.Registered.{IsRegistered, added, empty}
use scheck.Finding.Judgment.{Judgment}
use scheck.Engagement.Severity.Table.{Declarations, Instance, Exposed, attribute}
use scheck.Engagement.Severity.Loop.{chain}
use scheck.Engagement.Severity.Rows.{rules, declared_exposed}
use scheck.Engagement.Severity.Grading.{grade, bare_judgment}
use scheck.Engagement.Severity.Grading.Bounds.{grade-le-ceiling, grade-Linked}
use scheck.Engagement.Severity.Grading.High.{chain_below_critical}
use scheck.Engagement.Severity.Grading.Exposed.{chain_exposed}

-- A definition with a raise by a collector's attribute, under a ceiling.
abbrev def : Def
def = record {
  id = "web.admin_exposed";
  title = "An admin page is exposed";
  category = "web";
  area = external;
  exposure = is_exposure;
  judges = "url";
  base_severity = medium;
  impact = "Anyone can reach it.";
  remediation = record { summary = "Close it."; commands = []; caveat = "" };
  premise = [];
  subject = "url";
  ceiling = some high;
  host_access = false;
  attributes =
      record { name = "writable"; delta = pos 1; past_high = false; why = "It can be written." }
      ∷ [];
  multi_fact = false;
}

abbrev defs : Catalog
defs = def ∷ []

abbrev url_judgment : Judgment
url_judgment = record (bare_judgment "web.admin_exposed") {
  verdict = "fired";
  asset = "site:main";
  subject = record {
    kind = "url";
    key = "https://a.example";
    label = "";
    provider_id = "";
    person = "";
  };
  attributes =
      record {
        name = "writable";
        asset = "";
        ref = record { key = ""; observation = "o1"; excerpt = "PUT allowed" };
      }
      ∷ [];
}

abbrev on_purpose : Exposed
on_purpose = record { url = "https://a.example"; reason = "a demo"; key = "exposed[0]" }

abbrev declared : Declarations
declared = record { exposed = on_purpose ∷ []; matters_most = []; production = []; internet = [] }

abbrev sample : Instance
sample = record { def = def; j = url_judgment; owner = "site:main" }

defs-IsRegistered : IsRegistered defs
unfolding register
defs-IsRegistered = added [] defs def empty refl

medium-low : rank medium ≤ 3
unfolding rank
medium-low = omega arith

-- The chain of the sample, as the catalog's definition gives it.
abbrev sample_chain : Chain
sample_chain = chain rules declared sample medium

sample-graded : grade defs url_judgment "site:main" declared ≡ some sample_chain
unfolding grade lookup
sample-graded = refl

found : lookup defs "web.admin_exposed" ≡ some def
unfolding lookup
found = refl

-- The raise by the attribute, from medium to high.
abbrev raise : Move
raise = record {
  rule = "writable";
  by = by_collector;
  delta = pos 1;
  from = medium;
  to = high;
  ref = no_ref;
  stopped = moved;
  why = "It can be written.";
}

rank-step_example :
    rank
      (step
        (record { base = medium; severity = medium; moves = [] })
        raise
        false
        (some high)).0.severity
    ≡ (if ltb_ℤ (pos 0) (pos 1)
        then max (rank medium) (min (clamp (pos (rank medium) +ℤ pos 1)) (limit false (some high)))
        else clamp (pos (rank medium) +ℤ pos 1))
rank-step_example =
    rank-step (record { base = medium; severity = medium; moves = [] }) raise false (some high)

grade-le-ceiling_example : rank sample_chain.severity ≤ rank high
grade-le-ceiling_example =
    grade-le-ceiling defs url_judgment "site:main" declared def high sample_chain defs-IsRegistered
      found refl sample-graded

grade-Linked_example :
    (sample_chain.base ≡ medium) × Linked medium sample_chain.moves sample_chain.severity
grade-Linked_example =
    grade-Linked defs url_judgment "site:main" declared def sample_chain found sample-graded

chain_exposed_example : sample_chain.severity ≡ info
unfolding declared_exposed
chain_exposed_example = chain_exposed declared sample medium on_purpose refl refl (λ e. cc)

no_contradiction :
    (a : Attribute) → attribute url_judgment "contradiction" ≡ some a → a.ref.key ≡ ""
unfolding attribute
no_contradiction a e = cc

chain_below_critical_example : rank sample_chain.severity ≤ 3
chain_below_critical_example =
    chain_below_critical declared sample medium ((λ a e. refl), tt) no_contradiction (λ e. cc)
      (λ e. cc) (λ e. cc) medium-low
