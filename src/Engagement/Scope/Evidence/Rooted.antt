-- ===== src/Engagement/Scope/Evidence/Rooted.antt =====
-- Whose the evidence of a site is, and what it holds on once the name is resolved.
use scheck.Prelude.{
  String, Bool, true, false, ◌||◌, Option, none, some, List, [], ◌∷◌, all, ◌≡◌, refl, ap, arith,
  string_eq, if◌then◌else◌, Bool-cases, inl, inr, ◌⊎◌, ◌∙◌,
}
use scheck.Engagement.Locator.{Ref}
use scheck.Engagement.Scope.{Scope, Asset, FirstParty, network_root}
use scheck.Engagement.Scope.Evidence.{
  Evidence, url_root, host_root, network_evidence, moved, operator, or_first, root_evidence,
  by_confirmation, asset_evidence, assets_evidence, evidence, counts, is_operator, Lookup,
  points_at, still, is_nil, resolved_evidence,
}

-- The assets bring no evidence but the operator's.
abbrev pub IsOperator : Option Evidence → Type 0
IsOperator none = Unit
IsOperator (some (operator target)) = Unit
IsOperator (some e) = ⊥

module _ (s : Scope) (o : Ref) where
  by_confirmation-IsOperator :
      (a : Ref) (fp : Option FirstParty) → IsOperator (by_confirmation s o a fp).0
  unfolding by_confirmation
  by_confirmation-IsOperator a none = tt
  by_confirmation-IsOperator a (some fp) = ground arith

  or_first-IsOperator :
      (e k : Option Evidence) → IsOperator e → IsOperator k → IsOperator (or_first e k)
  unfolding or_first
  or_first-IsOperator none k h j = j
  or_first-IsOperator (some e) k h j = h

  chosen-IsOperator :
      (b : Bool) (paths : List String) (r : Option Evidence × List String)
      → IsOperator r.0
      → IsOperator (if◌then◌else◌ {A = Option Evidence × List String} b (none, paths) r).0
  chosen-IsOperator true paths r h = tt
  chosen-IsOperator false paths r h = h

  asset_evidence-IsOperator : (a : Asset) → IsOperator (asset_evidence s o a).0
  unfolding asset_evidence
  asset_evidence-IsOperator a =
      chosen-IsOperator _ _ (by_confirmation s o a.ref a.first_party)
        (by_confirmation-IsOperator a.ref a.first_party)

  assets_evidence-IsOperator : (as' : List Asset) → IsOperator (assets_evidence s o as').0
  unfolding assets_evidence
  assets_evidence-IsOperator [] = tt
  assets_evidence-IsOperator (a ∷ as') =
      or_first-IsOperator _ _ (asset_evidence-IsOperator a) (assets_evidence-IsOperator as')

  -- Evidence that is not the operator's is a root's.
  root_of_first :
      (r k : Option Evidence) (e : Evidence)
      → IsOperator k
      → is_operator (some e) ≡ false
      → or_first r k ≡ some e
      → r ≡ some e
  unfolding or_first is_operator
  root_of_first none (some (operator target)) e h n eq =
      let wrong : true ≡ false = ap is_operator eq ∙ n in cc
  root_of_first none none e h n eq = cc
  root_of_first none (some url_root) e h n eq = absurd h
  root_of_first none (some host_root) e h n eq = absurd h
  root_of_first none (some network_evidence) e h n eq = absurd h
  root_of_first none (some moved) e h n eq = absurd h
  root_of_first (some r) k e h n eq = eq

  pub site_root :
      (b : Bool) (e : Evidence)
      → is_operator (some e) ≡ false
      → (if◌then◌else◌ {A = Option Evidence × List String} b (none, []) (evidence s o)).0 ≡ some e
      → root_evidence s o ≡ some e
  unfolding evidence
  site_root true e n eq = cc
  site_root false e n eq = root_of_first _ _ e (assets_evidence-IsOperator s.assets) n eq

  -- What holds of evidence after the lookup, if it counts: the operator's, and the name points there; or that of the
  -- addresses.
  abbrev pub Resolved : Option Evidence → Lookup → Type 0
  Resolved ev l =
      ((target : String) × (ev ≡ some (operator target)) × (points_at l target ≡ true))
      ⊎ ((is_nil l.addrs ≡ false) × (all (network_root s) l.addrs ≡ true))

  by_addresses :
      (e : Option Evidence) (l : Lookup)
      → counts e ≡ false
      → counts (
          if counts e || is_nil l.addrs
          then e
          else if all (network_root s) l.addrs
          then some network_evidence
          else e)
        ≡ true
      → (is_nil l.addrs ≡ false) × (all (network_root s) l.addrs ≡ true)
  unfolding counts
  by_addresses e l n h = ground arith

  counts_none : counts none ≡ false
  unfolding counts
  counts_none = refl

  counts_moved : counts (some moved) ≡ false
  unfolding counts
  counts_moved = refl

  pub resolved_evidence-counts :
      (ev : Option Evidence) (l : Lookup)
      → IsOperator ev
      → counts (resolved_evidence s ev l) ≡ true
      → Resolved ev l
  unfolding resolved_evidence still
  resolved_evidence-counts none l op h = inr (by_addresses none l counts_none h)
  resolved_evidence-counts (some (operator target)) l op h =
      elim (Bool-cases (points_at l target)) [
        | inl e ↦ inl (target, refl, e)
        | inr e ↦ inr (by_addresses (some moved) l counts_moved (rw e at h))
      ]
  resolved_evidence-counts (some url_root) l op h = absurd op
  resolved_evidence-counts (some host_root) l op h = absurd op
  resolved_evidence-counts (some network_evidence) l op h = absurd op
  resolved_evidence-counts (some moved) l op h = absurd op
