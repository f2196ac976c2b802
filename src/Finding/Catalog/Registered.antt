-- ===== src/Finding/Catalog/Registered.antt =====
-- The catalogs that `Register` builds, and what it checks of every definition in them.
use mathlib.Core.Path.{subst}
use scheck.Prelude.{
  some_inj, String, ◌≡◌, ◌≤◌, Bool, false, Bool-cases, inl, inr, Option, none, some, [], ◌∷◌, arith,
  ◌==◌, string_eq, if◌then◌else◌,
}
use scheck.Finding.Severity.{Severity, rank}
use scheck.Finding.Catalog.{Catalog, Def, lookup, register, ceiling_below}

-- What `Register` accepted.
pub data IsRegistered : Catalog → Type 0 where
  empty : IsRegistered []
  added :
      (defs after : Catalog) (d : Def)
      → IsRegistered defs
      → register defs d ≡ some after
      → IsRegistered after

-- The base severity of a definition is under its ceiling.
abbrev pub BaseFits : Def → Type 0
BaseFits d = (top : Severity) → d.ceiling ≡ some top → rank d.base_severity ≤ rank top

fits_of_test :
    (c : Option Severity) (base top : Severity)
    → ceiling_below c base ≡ false
    → c ≡ some top
    → rank base ≤ rank top
unfolding ceiling_below
fits_of_test none base top h e = cc
fits_of_test (some c) base top h e = ground arith

guarded {ℓ} :
    {A : Type ℓ} (seen lacking low : Bool) (x y : A)
    → (if seen then none else if lacking then none else if low then none else some x) ≡ some y
    → (y ≡ x) × (low ≡ false)
guarded seen lacking low x y h = ground arith

registered :
    (defs after : Catalog) (d : Def)
    → register defs d ≡ some after
    → (after ≡ d ∷ defs) × (ceiling_below d.ceiling d.base_severity ≡ false)
unfolding register
registered defs after d h = guarded _ _ _ (d ∷ defs) after h

-- A definition found in a catalog that `Register` built has the id that was asked for, and a base
-- severity under its ceiling.
pub lookup-IsRegistered :
    (defs : Catalog) (id : String) (d : Def)
    → IsRegistered defs
    → lookup defs id ≡ some d
    → (d.id ≡ id) × BaseFits d
unfolding lookup
lookup-IsRegistered defs id d empty h = cc
lookup-IsRegistered defs id d (added old after new r e) h =
    let step = registered old defs new e in
    let found : lookup (new ∷ old) id ≡ some d = subst (λ c. lookup c id ≡ some d) step.0 h in
    elim (Bool-cases (new.id == id)) [
      | inl same ↦
          subst (λ x. (x.id ≡ id) × BaseFits x) (some_inj (rw same at found))
            (
              (string_eq.beq_iff new.id id).0 same,
              λ top c. fits_of_test new.ceiling new.base_severity top step.1 c,
            )
      | inr other ↦ lookup-IsRegistered old id d r (rw other at found)
    ]
