-- ===== src/Finding/Evaluate/Reported.antt =====
-- Which findings are reported.
use scheck.Prelude.{
  String, ℕ, zero, suc, Bool, true, false, ◌&&◌, ◌||◌, ◌≡◌, refl, ◌∙◌, sym, ap, Option, none, some,
  List, [], ◌∷◌, ◌++◌, any, map_get, Bool-cases, inl, inr, arith, ◌==◌, string_eq, is_some,
  any-append,
}
use scheck.Prelude.Sort.{sort_stable}
use scheck.Prelude.Sort.Kept.{any-sort_stable}
use scheck.Check.Catalog.{Check, Platform}
use scheck.Finding.Catalog.{Catalog, Def, lookup}
use scheck.Finding.Catalog.Registered.{IsRegistered, lookup-IsRegistered}
use scheck.Finding.Report.{Finding, Evidence}
use scheck.Finding.Predicate.{Status, matched, not_matched, not_applicable, not_assessed}
use scheck.Finding.Posture.{Rule, FactSheet, eval_rule}
use scheck.Finding.Evaluate.{
  Assessment, Found, add_rule, assess, add_found, with_def, on_status, add_evidence, finding_of,
  evaluate_rules, on_platform, sorted_rules, evaluate,
}

-- The finding is reported under the id.
abbrev pub has_id : String → Finding → Bool
has_id id f = f.id == id

add_evidence-has_id :
    (id : String) (fs : List Finding) (i : ℕ) (evs : List Evidence)
    → any (has_id id) (add_evidence fs i evs) ≡ any (has_id id) fs
unfolding add_evidence
add_evidence-has_id id [] i evs = refl
add_evidence-has_id id (f ∷ fs) zero evs = refl
add_evidence-has_id id (f ∷ fs) (suc i) evs = ground (arith, add_evidence-has_id id fs i evs)

-- Every id of the index is the id of a finding.
Indexed : Found → Type 0
Indexed s = (id : String) → is_some (map_get s.by_id id) ≡ true → any (has_id id) s.findings ≡ true

same_id : (x y id : String) → x ≡ y → (x == id) ≡ (y == id)
same_id x y id e = ap (λ z. z == id) e

absorbed : (a t : Bool) → (t ≡ true → a ≡ true) → a ≡ (a || t)
absorbed a true h = ground arith
absorbed a false h = ground arith

-- One more finding, under the id of its rule, or more evidence for the one that is there.
add_found-has_id :
    (id : String) (s : Found) (rid : String) (def : Def) (p : Platform) (evs : List Evidence)
    (o : Option ℕ)
    → Indexed s
    → map_get s.by_id rid ≡ o
    → def.id ≡ rid
    → any (has_id id) (add_found s rid def p evs o).findings
      ≡ (any (has_id id) s.findings || rid == id)
unfolding add_found finding_of Indexed
add_found-has_id id s rid def p evs none w e d =
    any-append (has_id id) s.findings (finding_of def p evs ∷ [])
    ∙ ground (arith, same_id def.id rid id d)
add_found-has_id id s rid def p evs (some i) w e d =
    add_evidence-has_id id s.findings i evs
    ∙ absorbed (any (has_id id) s.findings) (rid == id) (λ t.
      w id (
        ap (λ z. is_some (map_get s.by_id z)) (sym ((string_eq.beq_iff rid id).0 t))
        ∙ ap is_some e))

add_found-Indexed :
    (s : Found) (rid : String) (def : Def) (p : Platform) (evs : List Evidence) (o : Option ℕ)
    → Indexed s
    → map_get s.by_id rid ≡ o
    → def.id ≡ rid
    → Indexed (add_found s rid def p evs o)
unfolding add_found finding_of Indexed
add_found-Indexed s rid def p evs none w e d id h =
    any-append (has_id id) s.findings (finding_of def p evs ∷ []) ∙ elim (Bool-cases (rid == id)) [
      | inl t ↦ ground (arith, same_id def.id rid id d, t)
      | inr t ↦ ground (arith, w id (rw t at h))
    ]
add_found-Indexed s rid def p evs (some i) w e d id h =
    add_evidence-has_id id s.findings i evs ∙ w id h

pub is_matched : Status → Bool
is_matched matched = true
is_matched _ = false

-- A rule that is applied: its finding is reported, if it matched and has a definition.
with_def-has_id :
    (id : String) (defs : Catalog) (s : Found) (rule : Rule) (p : Platform) (evs : List Evidence)
    (o : Option Def)
    → IsRegistered defs
    → Indexed s
    → lookup defs rule.finding ≡ o
    → any (has_id id) (with_def s rule p evs o).findings
      ≡ (any (has_id id) s.findings || (is_some o && rule.finding == id))
unfolding with_def
with_def-has_id id defs s rule p evs none r w e = ground arith
with_def-has_id id defs s rule p evs (some def) r w e =
    add_found-has_id id s rule.finding def p evs (map_get s.by_id rule.finding) w refl
      ((lookup-IsRegistered defs rule.finding def r e).0)

with_def-Indexed :
    (defs : Catalog) (s : Found) (rule : Rule) (p : Platform) (evs : List Evidence) (o : Option Def)
    → IsRegistered defs
    → Indexed s
    → lookup defs rule.finding ≡ o
    → Indexed (with_def s rule p evs o)
unfolding with_def
with_def-Indexed defs s rule p evs none r w e = w
with_def-Indexed defs s rule p evs (some def) r w e =
    add_found-Indexed s rule.finding def p evs (map_get s.by_id rule.finding) w refl
      ((lookup-IsRegistered defs rule.finding def r e).0)

on_status-has_id :
    (id : String) (defs : Catalog) (st : Status) (s : Found) (rule : Rule) (p : Platform)
    (evs : List Evidence)
    → IsRegistered defs
    → Indexed s
    → any (has_id id) (on_status st s defs rule p evs).findings ≡ (
        any (has_id id) s.findings
        || (is_matched st && (is_some (lookup defs rule.finding) && rule.finding == id)))
unfolding on_status is_matched
on_status-has_id id defs matched s rule p evs r w =
    with_def-has_id id defs s rule p evs (lookup defs rule.finding) r w refl
on_status-has_id id defs not_matched s rule p evs r w = ground arith
on_status-has_id id defs not_applicable s rule p evs r w = ground arith
on_status-has_id id defs not_assessed s rule p evs r w = ground arith

on_status-Indexed :
    (defs : Catalog) (st : Status) (s : Found) (rule : Rule) (p : Platform) (evs : List Evidence)
    → IsRegistered defs
    → Indexed s
    → Indexed (on_status st s defs rule p evs)
unfolding on_status
on_status-Indexed defs matched s rule p evs r w =
    with_def-Indexed defs s rule p evs (lookup defs rule.finding) r w refl
on_status-Indexed defs not_matched s rule p evs r w = w
on_status-Indexed defs not_applicable s rule p evs r w = w
on_status-Indexed defs not_assessed s rule p evs r w = w

-- A rule of the id that fires on the host: it is of the host's platform, it matched, and the finding that
-- it names is defined.
module _ (checks : List Check) (defs : Catalog) (disabled : List String) (sheet : FactSheet) where
  abbrev pub fires_for : String → Rule → Bool
  fires_for id rule =
      on_platform sheet.platform rule
      && (is_matched ((eval_rule checks rule sheet.platform disabled sheet).status)
          && (is_some (lookup defs rule.finding) && rule.finding == id))

  add_rule-has_id :
      (id : String) (s : Found) (rule : Rule)
      → IsRegistered defs
      → Indexed s
      → any (has_id id) (add_rule checks defs disabled sheet s rule).findings ≡ (
          any (has_id id) s.findings
          || (is_matched ((eval_rule checks rule sheet.platform disabled sheet).status)
              && (is_some (lookup defs rule.finding) && rule.finding == id)))
  unfolding add_rule
  add_rule-has_id id s rule r w =
      on_status-has_id id defs (eval_rule checks rule sheet.platform disabled sheet).status s rule
        sheet.platform _ r w

  add_rule-Indexed :
      (s : Found) (rule : Rule)
      → IsRegistered defs
      → Indexed s
      → Indexed (add_rule checks defs disabled sheet s rule)
  unfolding add_rule
  add_rule-Indexed s rule r w =
      on_status-Indexed defs (eval_rule checks rule sheet.platform disabled sheet).status s rule
        sheet.platform _ r w

  or_assoc : (a b c : Bool) → ((a || b) || c) ≡ (a || (b || c))
  or_assoc a b c = ground arith

  evaluate_rules-has_id :
      (id : String) (s : Found) (done : List Assessment) (rules : List Rule)
      → IsRegistered defs
      → Indexed s
      → any (has_id id) (evaluate_rules checks defs disabled sheet s done rules).0.findings
        ≡ (any (has_id id) s.findings || any (fires_for id) rules)
  unfolding evaluate_rules
  evaluate_rules-has_id id s done [] r w = ground arith
  evaluate_rules-has_id id s done (rule ∷ rules) r w =
      elim (Bool-cases (on_platform sheet.platform rule)) [
        | inl e ↦ rw e (
            evaluate_rules-has_id id (add_rule checks defs disabled sheet s rule)
              (done ++ assess checks defs disabled sheet rule ∷ []) rules r
              (add_rule-Indexed s rule r w)
            ∙ ap (λ b. b || any (fires_for id) rules) (add_rule-has_id id s rule r w)
            ∙ or_assoc (any (has_id id) s.findings) _ (any (fires_for id) rules))
        | inr e ↦ rw e (evaluate_rules-has_id id s done rules r w)
      ]

  start-Indexed : Indexed (record { findings = []; by_id = [] })
  unfolding Indexed
  start-Indexed id h = cc

  -- Over a catalog that `Register` built, a finding is reported under an id exactly when some rule of the
  -- table that names it is of the host's platform and matched, and the id is defined.
  pub evaluate-fires_for :
      (id : String) (rules : List Rule)
      → IsRegistered defs
      → any (has_id id) (evaluate checks defs rules disabled (some sheet)).findings
        ≡ any (fires_for id) rules
  unfolding evaluate sorted_rules
  evaluate-fires_for id rules r =
      any-sort_stable _ (has_id id) _
      ∙ evaluate_rules-has_id id (record { findings = []; by_id = [] }) [] (sort_stable _ rules) r
          start-Indexed
      ∙ any-sort_stable _ (fires_for id) rules
