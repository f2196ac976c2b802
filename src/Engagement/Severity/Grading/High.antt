-- ===== src/Engagement/Severity/Grading/High.antt =====
-- Which judgments may be graded critical, and what a declared exposure does.
use scheck.Prelude.{
  String, ◌≡◌, refl, sym, ◌∙◌, ◌≤◌, false, none, some, [], ◌∷◌, arith, All, string_eq, contains,
  ◌≢◌, Option-cases, inl, inr,
}
use scheck.Finding.Severity.{Severity, rank}
use scheck.Finding.Chain.{Attribute}
use scheck.Engagement.Severity.Table.{Declarations, Instance, attribute}
use scheck.Engagement.Severity.Loop.{chain, applies_to}
use scheck.Engagement.Severity.Loop.Keeps.{RaiseHas}
use scheck.Engagement.Severity.Loop.Bounds.{chain-le-high}
use scheck.Engagement.Severity.Rows.{rules, contradiction}

-- No declaration that the collector says is contradicted: without the attribute, or without a key.
abbrev pub NoContradiction : Instance → Type 0
NoContradiction i = (a : Attribute) → attribute i.j "contradiction" ≡ some a → a.ref.key ≡ ""

contradiction-none :
    (d : Declarations) (i : Instance) → NoContradiction i → contradiction d i ≡ none
unfolding contradiction
contradiction-none d i h = elim (Option-cases (attribute i.j "contradiction")) [
  | inl e ↦ rw e
  | inr (a, e) ↦ rw e (rw ((string_eq.beq_iff a.ref.key "").1 (h a e)))
]

not_only : (id x : String) → id ≢ x → contains (x ∷ []) id ≡ false
not_only id x n = ground (arith, string_eq.beq_iff x id)

not_either : (id x y : String) → id ≢ x → id ≢ y → contains (x ∷ y ∷ []) id ≡ false
not_either id x y n m = ground (arith, string_eq.beq_iff x id, string_eq.beq_iff y id)

-- A judgment whose definition starts at high or below is graded critical only by a collector's step
-- that may pass high, by a contradicted declaration, or as a finding about a person who left or a
-- secret in a repository.
pub chain_below_critical :
    (d : Declarations) (i : Instance) (start : Severity)
    → All (RaiseHas (λ past. past ≡ false) i) i.def.attributes
    → NoContradiction i
    → i.j.id ≢ "identity.former_person_has_access"
    → i.j.id ≢ "github.secret_scanning_open"
    → i.j.id ≢ "github.history_credential"
    → rank start ≤ 3
    → rank (chain rules d i start).severity ≤ 3
unfolding rules applies_to
chain_below_critical d i start q nc n1 n2 n3 h =
    chain-le-high rules d i start q
      (
        λ _ _ _. refl,
        (
          λ _ _ _. refl,
          (
            λ _ _ _. refl,
            (
              λ _ _ _. refl,
              (
                λ _ a e. cc (contradiction-none d i nc),
                (
                  λ ap a e. sym ap ∙ not_only _ _ n1,
                  (
                    λ ap a e. sym ap ∙ not_only _ _ n1,
                    (
                      λ _ _ _. refl,
                      (λ _ _ _. refl, (λ ap a e. sym ap ∙ not_either _ _ _ n2 n3, tt)),
                    ),
                  ),
                ),
              ),
            ),
          ),
        ),
      )
      h
