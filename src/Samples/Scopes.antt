-- ===== src/Samples/Scopes.antt =====
-- A scope with a domain and a network, an operation and a request that is retried.
use scheck.Prelude.{
  ◌≡◌, ◌↔◌, none, some, [], ◌∷◌, true, false, ◌==◌, string_eq, nat_eq, if◌then◌else◌, leb,
}
use scheck.Engagement.Gate.Address.{v4, prefix4}
use scheck.Engagement.Locator.{Ref, kind_domain, kind_url, kind_network}
use scheck.Engagement.Scope.{Scope, place_subject}
use scheck.Engagement.Scope.Evidence.{Lookup}
use scheck.Engagement.Scope.Sites.{admits}
use scheck.Engagement.Scope.Placed.{Passes, place_subject_iff}
use scheck.Engagement.Scope.Sites.Evidenced.{Justified, admits-Justified}
use scheck.Engagement.Gate.Declared.{Op, get, login, read, observe, github_token}
use scheck.Engagement.Gate.Operation.{validate}
use scheck.Engagement.Gate.Operation.Safe.{Ensures, IsSafe, validate-IsSafe}
use scheck.Engagement.Gate.Retry.{Around, Gate, Result, send_retrying}
use scheck.Engagement.Gate.Retry.Tries.{Tried, send_retrying-Tried}

abbrev blank_ref : Ref
blank_ref = record {
  kind = kind_domain;
  id = "";
  org_unit = "";
  port = 0;
  name = "";
  addr = none;
  prefix = none;
  scheme = "";
  path = "";
  provider = "";
  tenant = "";
}

abbrev domain : Ref
domain = record blank_ref { id = "domain:example.com"; name = "example.com" }

abbrev network : Ref
network = record blank_ref {
  kind = kind_network;
  id = "network:192.0.2.0/24";
  prefix = some (prefix4 0xc0000200 24);
}

abbrev shop : Ref
shop = record blank_ref {
  kind = kind_url;
  id = "url:https://shop.example.com/";
  name = "shop.example.com";
  scheme = "https";
  path = "/";
}

abbrev checkout : Ref
checkout = record shop { id = "url:https://shop.example.com/checkout"; path = "/checkout" }

abbrev scope : Scope
scope = record {
  roots = domain ∷ network ∷ [];
  exclude = checkout ∷ [];
  assets = [];
  intent = [];
  at = 100;
  day_of = λ d. some 90;
  year_after = λ d. 456;
  suspended = [];
}

place_subject_iff_example :
    (place_subject scope (some domain) (some shop) ≡ none) ↔ Passes scope domain shop
place_subject_iff_example = place_subject_iff scope domain shop

-- A name with an address in the network root.
abbrev answered : Lookup
answered = record { addrs = v4 0xc0000207 ∷ []; target = "shop.example.com" }

admits-Justified_example :
    Justified scope shop "/robots.txt"
      (some answered)
      (admits scope (some shop) "/robots.txt" (some answered))
admits-Justified_example = admits-Justified scope shop "/robots.txt" (some answered)

-- The members of an organization.
abbrev members : Op
members = record {
  id = "github.members";
  provider = "github";
  api_version = "2026-03-10";
  method = get;
  url = "https://api.github.com/orgs/{org}/members";
  subject = "saas:github:{org}";
  params = record { name = "org"; type = login; optional = false } ∷ [];
  class = read;
  level = observe;
  auth = github_token;
}

validate-IsSafe_example : Ensures (IsSafe some) (validate some some members)
validate-IsSafe_example = validate-IsSafe some some members

abbrev gate : Gate
gate = record { session = 1; seq = 0; entries = []; stopped = [] }

abbrev busy : Result
busy = record {
  request_id = "";
  decision = "sent";
  reason = "";
  sent = true;
  repeats = false;
  until = none;
}

-- Its first two attempts may be retried.
abbrev around : Around
around = record {
  attempt = λ g id first n. (
    g,
    record busy { request_id = id },
    if leb n 2
        then some (record {
          provider = "github";
          after = 0;
          rate_limit = true;
          code = "";
          evidence = false;
        })
        else none,
  );
  now = λ g. g.seq;
  now_at_cut = λ g. g.seq;
  jitter = λ d. d;
  cut_short = λ n. false;
  deadline = none;
  is_web = λ p. p == "web";
}

send_retrying-Tried_example : Tried around false (send_retrying around false gate)
send_retrying-Tried_example = send_retrying-Tried around false gate
