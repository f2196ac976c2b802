-- ===== src/Engagement/Scope/Sites.antt =====
-- internal/engagement/scope.go: the paths of a site, and which of them may be read on which evidence.
pub mod Evidenced
use scheck.Prelude.{
  String, ℕ, suc, Bool, true, false, not, ◌&&◌, ◌||◌, Option, none, some, List, [], ◌∷◌, ◌++◌, map,
  any, all, contains, keep, find_first, is_some, ltb, leb, ◌==◌, nat_eq, string_eq, if◌then◌else◌,
}
use scheck.Engagement.Gate.Address.{Addr}
use scheck.Engagement.Gate.Answer.{in_network, excluded_by, next_index}
use scheck.Engagement.Locator.{
  Kind, kind_domain, kind_url, kind_host, kind_network, kind_saas, kind_repo, kind_cloud, Ref,
  same_address, is_local, domain_under, in_prefix, under, address_ref, excludes, excludes_name,
}
use scheck.Engagement.Scope.{well_known, is_network, same_origin, Scope}
use scheck.Engagement.Scope.Evidence.{
  Evidence, url_root, host_root, network_evidence, moved, operator, evidence, counts, is_operator,
  Lookup, resolved_evidence,
}

-- `sitePaths`; the lists stand unsorted, since only what they hold is read.
pub record SitePaths : Type 0 where
  pub paths : List String
  pub first_party : Bool
  pub network : List String
  pub confirmed : List String
  pub ev : Option Evidence

no_paths : SitePaths
no_paths = record { paths = []; first_party = false; network = []; confirmed = []; ev = none }

front_by : Kind → Ref → Ref → Bool
front_by kind_domain o root = domain_under o.name root.name
front_by kind_network o root = in_prefix root.prefix o.addr
front_by kind_host o root = not (is_local root) && same_address root o
front_by _ o root = false

-- Whether a root brings an origin's front page.
pub front : Scope → Ref → Bool
front s o = o.port == 0 && any (λ root. front_by root.kind o root) s.roots

-- The evidence for an origin: a confirmation that is suspended is none, and brings no entry points.
pub site_evidence : Scope → Ref → Option Evidence × List String
site_evidence s o =
    let (e, entries) = evidence s o in
    if is_operator e && contains s.suspended o.name then (none, []) else (e, entries)

-- What an origin has beside its front page.
pub more_paths : Scope → Ref → List String → List String
more_paths s o entries =
    well_known ++ (entries ++ map (λ u. u.path) (keep (λ u. same_origin u o) s.intent))

front_page : Bool → List String
front_page true = "/" ∷ []
front_page false = []

-- The lists of a site, by whether it has a front page and by its evidence.
site_by : Bool → Option Evidence → Bool → List String → SitePaths
site_by false none networks more = no_paths
site_by true none networks more = record {
  paths = "/" ∷ [];
  first_party = false;
  network = if networks then more else [];
  confirmed = [];
  ev = none;
}
site_by f (some (operator target)) networks more = record {
  paths = front_page f;
  first_party = false;
  network = if networks then more else [];
  confirmed = more;
  ev = some (operator target);
}
site_by f (some e) networks more = record {
  paths = front_page f ++ more;
  first_party = true;
  network = [];
  confirmed = [];
  ev = some e;
}

-- `site`, of an origin that is written canonically; any other lists nothing.
pub site : Scope → Option Ref → SitePaths
site s none = no_paths
site s (some o) =
    let (e, entries) = site_evidence s o in
    site_by (front s o) e (any (λ r. is_network r.kind) s.roots) (more_paths s o entries)

-- `gate.Admission`.
pub data Admission : Type 0 where
  entry_point address_moved needs_lookup : Admission
  admitted : Bool → Admission

-- A path that waits on the lookup.
admits_with : Scope → SitePaths → String → Lookup → Admission
admits_with s sp path l =
    let ev = if contains sp.confirmed path then sp.ev else none in
    if counts (resolved_evidence s ev l) then admitted true else address_moved

admits_after : Scope → SitePaths → String → Option Lookup → Admission
admits_after s sp path none = needs_lookup
admits_after s sp path (some l) = admits_with s sp path l

-- The switch of `Admits` over the lists of a site.
admits_site : Scope → SitePaths → String → Option Lookup → Admission
admits_site s sp path l =
    if contains sp.paths path
    then admitted sp.first_party
    else if not (contains sp.network path) && not (contains sp.confirmed path)
    then entry_point
    else admits_after s sp path l

-- `Admits`, of an origin as far as it parses and is written canonically.
pub admits : Scope → Option Ref → String → Option Lookup → Admission
admits s o path l = admits_site s (site s o) path l
