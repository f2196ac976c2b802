-- ===== src/Engagement/Scope/Sites/Evidenced.antt =====
-- On what evidence a path is admitted.
use scheck.Prelude.{
  String, Bool, true, false, ◌||◌, Option, none, some, List, [], ◌++◌, all, contains, ◌≡◌, refl,
  sym, arith, ◌==◌, string_eq, if◌then◌else◌, Bool-cases, inl, inr, any-append, ◌∙◌,
}
use text.Mathlib.TextEquality.{eq_iff}
use scheck.Engagement.Locator.{Ref}
use scheck.Engagement.Scope.{Scope, network_root}
use scheck.Engagement.Scope.Evidence.{
  Evidence, url_root, host_root, network_evidence, moved, operator, root_evidence, counts,
  is_operator, Lookup, points_at, is_nil, resolved_evidence,
}
use scheck.Engagement.Scope.Evidence.Rooted.{IsOperator, site_root, resolved_evidence-counts}
use scheck.Engagement.Scope.Sites.{
  SitePaths, front_page, site_by, site, site_evidence, more_paths, front, Admission, entry_point,
  address_moved, needs_lookup, admitted, admits_with, admits_after, admits_site, admits, no_paths,
}

-- What a path is admitted on: the front page alone, the evidence of a root, the operator's word while the name points
-- where it says, or addresses that all lie in network roots.
pub data Grounds (s : Scope) (o : Ref) (more : List String) (path : String)
    : Option Lookup → Type 0 where
  front_only : {l : Option Lookup} → path ≡ "/" → front s o ≡ true → Grounds s o more path l
  by_root :
      {l : Option Lookup} (e : Evidence)
      → root_evidence s o ≡ some e
      → contains more path ≡ true
      → Grounds s o more path l
  by_operator :
      (l : Lookup) (target : String)
      → (site_evidence s o).0 ≡ some (operator target)
      → points_at l target ≡ true
      → contains more path ≡ true
      → Grounds s o more path (some l)
  by_network :
      (l : Lookup)
      → is_nil l.addrs ≡ false
      → all (network_root s) l.addrs ≡ true
      → contains more path ≡ true
      → Grounds s o more path (some l)

module _ (s : Scope) (o : Ref) where
  site_evidence_root :
      (e : Evidence)
      → is_operator (some e) ≡ false
      → (site_evidence s o).0 ≡ some e
      → root_evidence s o ≡ some e
  unfolding site_evidence
  site_evidence_root e n eq = site_root s o _ e n eq

  -- The lists of a site, from its evidence.
  module _ (more : List String) where
    contains-front :
        (f : Bool) (path : String) → contains (front_page f) path ≡ true → (path ≡ "/") × (f ≡ true)
    unfolding front_page
    contains-front true path h = (ground (arith, eq_iff "/" path), refl)
    contains-front false path h = cc

    settled-Grounds :
        (ev : Option Evidence) (path : String) (l : Lookup) (fp : Bool)
        → IsOperator ev
        → ((target : String)
            → ev ≡ some (operator target)
            → (site_evidence s o).0 ≡ some (operator target))
        → contains more path ≡ true
        → (if counts (resolved_evidence s ev l) then admitted true else address_moved) ≡ admitted fp
        → Grounds s o more path (some l)
    settled-Grounds ev path l fp op back m h =
        elim (Bool-cases (counts (resolved_evidence s ev l))) [
          | inr e ↦ let wrong : address_moved ≡ admitted fp = rw e at h in cc
          | inl e ↦ elim (resolved_evidence-counts s o ev l op e) [
            | inl (target, is, points) ↦ by_operator l target (back target is) points m
            | inr (some_addrs, held) ↦ by_network l some_addrs held m
          ]
        ]

    admits_with-Grounds :
        (ev : Option Evidence) (sp : SitePaths) (path : String) (l : Lookup) (fp : Bool)
        → (site_evidence s o).0 ≡ ev
        → IsOperator ev
        → sp.ev ≡ ev
        → contains more path ≡ true
        → admits_with s sp path l ≡ admitted fp
        → Grounds s o more path (some l)
    unfolding admits_with
    admits_with-Grounds ev sp path l fp is op same m h =
        elim (Bool-cases (contains sp.confirmed path)) [
          | inl e ↦
              settled-Grounds sp.ev path l fp (rw same op) (λ target eq. is ∙ (sym same ∙ eq)) m
                (rw e at h)
          | inr e ↦ settled-Grounds none path l fp tt (λ target eq. cc) m (rw e at h)
        ]

    admits_site-Grounds :
        (ev : Option Evidence) (sp : SitePaths) (path : String) (l : Option Lookup) (fp : Bool)
        → (site_evidence s o).0 ≡ ev
        → (contains sp.paths path ≡ true → Grounds s o more path l)
        → ((contains sp.network path || contains sp.confirmed path) ≡ true
            → (contains more path ≡ true) × IsOperator ev × (sp.ev ≡ ev))
        → admits_site s sp path l ≡ admitted fp
        → Grounds s o more path l
    unfolding admits_site admits_after
    admits_site-Grounds ev sp path none fp is here listed h =
        elim (Bool-cases (contains sp.paths path)) [
          | inl e ↦ here e
          | inr e ↦ absurd (ground arith)
        ]
    admits_site-Grounds ev sp path (some l) fp is here listed h =
        elim (Bool-cases (contains sp.paths path)) [
          | inl e ↦ here e
          | inr e ↦ elim (Bool-cases (contains sp.network path || contains sp.confirmed path)) [
            | inl f ↦
                let (m, op, same) = listed f in
                admits_with-Grounds ev sp path l fp is op same m (ground arith)
            | inr f ↦ absurd (ground arith)
          ]
        ]

    listed_network :
        (networks : Bool) (path : String)
        → contains (if networks then more else []) path ≡ true
        → contains more path ≡ true
    listed_network true path h = h
    listed_network false path h = cc

    -- The paths of a site with evidence of a root.
    root_paths :
        (f : Bool) (e : Evidence) (path : String) (l : Option Lookup)
        → front s o ≡ f
        → root_evidence s o ≡ some e
        → contains (front_page f ++ more) path ≡ true
        → Grounds s o more path l
    root_paths f e path l fr root h = elim (Bool-cases (contains (front_page f) path)) [
      | inl k ↦ let (p, g) = contains-front f path k in front_only p (fr ∙ g)
      | inr k ↦ by_root e root (ground (arith, any-append (λ x. x == path) (front_page f) more))
    ]

    site_by-Grounds :
        (f networks : Bool) (ev : Option Evidence) (path : String) (l : Option Lookup) (fp : Bool)
        → front s o ≡ f
        → (site_evidence s o).0 ≡ ev
        → admits_site s (site_by f ev networks more) path l ≡ admitted fp
        → Grounds s o more path l
    unfolding site_by no_paths is_operator
    site_by-Grounds false networks none path l fp fr ev h =
        admits_site-Grounds none _ path l fp ev (λ k. cc) (λ k. cc) h
    site_by-Grounds true networks none path l fp fr ev h =
        admits_site-Grounds none _ path l fp ev
          (λ k. front_only (ground (arith, eq_iff "/" path)) fr)
          (λ k. (listed_network networks path (ground arith), tt, refl)) h
    site_by-Grounds f networks (some (operator target)) path l fp fr ev h =
        admits_site-Grounds (some (operator target)) _ path l fp ev
          (λ k. let (p, g) = contains-front f path k in front_only p (fr ∙ g))
          (λ k. (ground (arith, listed_network networks path), tt, refl)) h
    site_by-Grounds f networks (some url_root) path l fp fr ev h =
        admits_site-Grounds (some url_root) _ path l fp ev
          (root_paths f url_root path l fr (site_evidence_root url_root refl ev)) (λ k. cc) h
    site_by-Grounds f networks (some host_root) path l fp fr ev h =
        admits_site-Grounds (some host_root) _ path l fp ev
          (root_paths f host_root path l fr (site_evidence_root host_root refl ev)) (λ k. cc) h
    site_by-Grounds f networks (some network_evidence) path l fp fr ev h =
        admits_site-Grounds (some network_evidence) _ path l fp ev
          (root_paths f network_evidence path l fr (site_evidence_root network_evidence refl ev))
          (λ k. cc) h
    site_by-Grounds f networks (some moved) path l fp fr ev h =
        admits_site-Grounds (some moved) _ path l fp ev
          (root_paths f moved path l fr (site_evidence_root moved refl ev)) (λ k. cc) h

admits-Grounds :
    (s : Scope) (o : Ref) (path : String) (l : Option Lookup) (fp : Bool)
    → admits s (some o) path l ≡ admitted fp
    → Grounds s o (more_paths s o (site_evidence s o).1) path l
unfolding admits site
admits-Grounds s o path l fp h =
    site_by-Grounds s o (more_paths s o (site_evidence s o).1) (front s o) _ (site_evidence s o).0
      path l fp refl refl h

-- What an admission that is granted rests on.
abbrev pub Justified : Scope → Ref → String → Option Lookup → Admission → Type 0
Justified s o path l (admitted fp) = Grounds s o (more_paths s o (site_evidence s o).1) path l
Justified s o path l entry_point = Unit
Justified s o path l address_moved = Unit
Justified s o path l needs_lookup = Unit

answer-Justified :
    (s : Scope) (o : Ref) (path : String) (l : Option Lookup) (x : Admission)
    → admits s (some o) path l ≡ x
    → Justified s o path l x
answer-Justified s o path l (admitted fp) h = admits-Grounds s o path l fp h
answer-Justified s o path l entry_point h = tt
answer-Justified s o path l address_moved h = tt
answer-Justified s o path l needs_lookup h = tt

-- A path is admitted at an origin only as the front page that a root brings, or as one of the site's listed paths: on
-- a root's evidence, on a confirmation by the operator that is not suspended, once the name points at its target, or
-- once the lookup gave addresses and all lie in network roots.
pub admits-Justified :
    (s : Scope) (o : Ref) (path : String) (l : Option Lookup)
    → Justified s o path l (admits s (some o) path l)
admits-Justified s o path l = answer-Justified s o path l (admits s (some o) path l) refl
