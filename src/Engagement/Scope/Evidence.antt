-- ===== src/Engagement/Scope/Evidence.antt =====
-- internal/engagement/scope.go: the evidence that a site is the operator's, from the file and once its name is resolved.
pub mod Rooted
use scheck.Prelude.{
  String, ℕ, suc, Bool, true, false, not, ◌&&◌, ◌||◌, Option, none, some, List, [], ◌∷◌, ◌++◌, map,
  any, all, contains, keep, find_first, is_some, ltb, leb, ◌==◌, nat_eq, string_eq, if◌then◌else◌,
}
use scheck.Engagement.Gate.Address.{Addr}
use scheck.Engagement.Gate.Answer.{in_network, excluded_by, next_index}
use scheck.Engagement.Locator.{
  Kind, kind_domain, kind_url, kind_host, kind_network, kind_saas, kind_repo, kind_cloud, Ref,
  same_address, is_local, domain_under, in_prefix, under, address_ref, excludes, excludes_name,
}
use scheck.Engagement.Scope.{
  is_url, is_network, same_origin, FirstParty, Asset, Scope, network_root,
}

-- The kinds of `Evidence` that the gate meets; a confirmation has its target.
pub data Evidence : Type 0 where
  url_root host_root network_evidence moved : Evidence
  operator : String → Evidence

-- `Resolved.current`.
in_year : ℕ → ℕ → Option ℕ → Bool
in_year at last none = false
in_year at last (some d) = leb d at && ltb at last

current : Scope → FirstParty → Bool
current s fp = in_year s.at (s.year_after fp.date) (s.day_of fp.date)

or_first : Option Evidence → Option Evidence → Option Evidence
or_first none later = later
or_first (some e) later = some e

-- The evidence of the roots: first that of the urls, then of the hosts, then of the networks. A name or an address
-- counts on its default port only.
url_roots : Scope → Ref → List Ref
url_roots s o = keep (λ r. is_url r.kind && same_origin r o) s.roots

is_host : Kind → Bool
is_host kind_host = true
is_host _ = false

host_holds : Ref → Ref → Bool
host_holds o root = is_host root.kind && not (is_local root) && same_address root o

network_holds : Ref → Ref → Bool
network_holds o root = is_network root.kind && in_prefix root.prefix o.addr

pub root_evidence : Scope → Ref → Option Evidence
root_evidence s o =
    if any (λ r. is_url r.kind && same_origin r o) s.roots
    then some url_root
    else if o.port == 0 && any (host_holds o) s.roots
    then some host_root
    else if o.port == 0 && any (network_holds o) s.roots
    then some network_evidence
    else none

is_domain : Kind → Bool
is_domain kind_domain = true
is_domain _ = false

-- What one declared asset adds: an entry path, and the operator's confirmation.
by_confirmation : Scope → Ref → Ref → Option FirstParty → Option Evidence × List String
by_confirmation s o a none = (none, [])
by_confirmation s o a (some fp) =
    if not (current s fp)
    then (none, [])
    else if is_url a.kind && same_origin a o
    then (some (operator fp.target), a.path ∷ [])
    else if o.port == 0 && (is_domain a.kind || is_host a.kind) && same_address a o
    then (some (operator fp.target), [])
    else (none, [])

under_url_root : Scope → Ref → Bool
under_url_root s a = any (λ root. is_url root.kind && under a root) s.roots

asset_evidence : Scope → Ref → Asset → Option Evidence × List String
asset_evidence s o a =
    if is_url a.ref.kind && same_origin a.ref o && under_url_root s a.ref
    then (none, a.ref.path ∷ [])
    else by_confirmation s o a.ref a.first_party

-- The loop over the assets.
assets_evidence : Scope → Ref → List Asset → Option Evidence × List String
assets_evidence s o [] = (none, [])
assets_evidence s o (a ∷ as') =
    let (e, paths) = asset_evidence s o a in
    let (e', paths') = assets_evidence s o as' in (or_first e e', paths ++ paths')

-- `Resolved.evidence`.
pub evidence : Scope → Ref → Option Evidence × List String
evidence s o =
    let (e, paths) = assets_evidence s o s.assets in
    (or_first (root_evidence s o) e, map (λ r. r.path) (url_roots s o) ++ paths)

-- `counts`: the evidence that the gate goes by.
pub counts : Option Evidence → Bool
counts none = false
counts (some moved) = false
counts (some e) = true

unfoldable pub is_operator : Option Evidence → Bool
is_operator (some (operator target)) = true
is_operator _ = false

-- `gate.Lookup`, what the scope reads of it: its addresses, and where the name points as answered.
pub record Lookup : Type 0 where
  pub addrs : List Addr
  pub target : String

-- `PointsAt`.
pub points_at : Lookup → String → Bool
points_at l target = not (target == "") && l.target == target

-- A confirmation holds only while the name points at its target.
still : Option Evidence → Lookup → Option Evidence
still (some (operator target)) l = if points_at l target then some (operator target) else some moved
still e l = e

pub is_nil : List Addr → Bool
is_nil [] = true
is_nil (a ∷ as') = false

-- `Resolved.resolvedEvidence`.
pub resolved_evidence : Scope → Option Evidence → Lookup → Option Evidence
resolved_evidence s ev l =
    let e = still ev l in
    if counts e || is_nil l.addrs
    then e
    else if all (network_root s) l.addrs
    then some network_evidence
    else e
