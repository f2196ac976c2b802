-- ===== src/Check/Catalog/Registered.antt =====
-- What registration makes sure of: looking a check up is never ambiguous.
use scheck.Prelude.{
  String, ℕ, zero, suc, true, false, ◌&&◌, ◌||◌, ◌≡◌, ◌⊎◌, refl, subst, sym, ◌∙◌, Option, none,
  some, List, [], ◌∷◌, ◌++◌, any, All, get_elem?, ◌==◌, string_eq, Bool-cases, Option-cases,
  some_inj, inl, inr, arith,
}
use scheck.Check.Catalog.{
  Check, Platform, any_platform, platform_eq, clashes, register_one, register, lookup, lookup_loop,
  applies_to,
}

-- No two entries clash.
abbrev pub IsRegistered : List Check → Type 0
IsRegistered [] = Unit
IsRegistered (e ∷ es) = All (λ c. clashes c e ≡ false) es × IsRegistered es

-- The entry is not one that the lookup of the id on the platform could take.
Apart : String → Platform → Check → Type 0
Apart id p e = (e.id == id && (e.platform == any_platform || e.platform == p)) ≡ false

none_clash :
    (c : Check) (es : List Check) → any (clashes c) es ≡ false → All (λ e. clashes c e ≡ false) es
none_clash c [] h = tt
none_clash c (e ∷ es) h = (ground arith, none_clash c es (ground arith))

IsRegistered-snoc :
    (es : List Check) (c : Check)
    → IsRegistered es
    → All (λ e. clashes c e ≡ false) es
    → IsRegistered (es ++ c ∷ [])
IsRegistered-snoc [] c w h = (tt, tt)
IsRegistered-snoc (e ∷ es) c w h = (All-snoc es w.0 h.0, IsRegistered-snoc es c w.1 h.1)
  where
    All-snoc :
        (es : List Check)
        → All (λ d. clashes d e ≡ false) es
        → clashes c e ≡ false
        → All (λ d. clashes d e ≡ false) (es ++ c ∷ [])
    All-snoc [] h k = (k, tt)
    All-snoc (x ∷ xs) h k = (h.0, All-snoc xs h.1 k)

register_one-IsRegistered :
    (es : List Check) (c : Check) (more : List Check)
    → IsRegistered es
    → register_one es c ≡ some more
    → IsRegistered more
unfolding register_one
register_one-IsRegistered es c more w h = elim (Bool-cases (any (clashes c) es)) [
  | inl e ↦ absurd (ground (arith, h, e))
  | inr e ↦ subst IsRegistered (ground (arith, h, e)) (IsRegistered-snoc es c w (none_clash c es e))
]

register-IsRegistered :
    (entries cs es : List Check)
    → IsRegistered entries
    → register entries cs ≡ some es
    → IsRegistered es
unfolding register
register-IsRegistered entries [] es w h = subst IsRegistered (some_inj h) w
register-IsRegistered entries (c ∷ cs) es w h = elim (Option-cases (register_one entries c)) [
  | inl e ↦ absurd (ground (arith, h, e))
  | inr (more, e) ↦
      register-IsRegistered more cs es (register_one-IsRegistered entries c more w e)
        (ground (arith, h, e))
]

other_entry :
    (c e : Check) (p : Platform)
    → (clashes c e ≡ false) ⊎ (clashes e c ≡ false)
    → applies_to c p ≡ true
    → Apart c.id p e
unfolding clashes Apart applies_to
other_entry c e p (inl h) k = ground (
  arith,
  h,
  k,
  platform_eq.beq_iff c.platform p,
  platform_eq.beq_iff e.platform p,
  platform_eq.beq_iff e.platform c.platform,
)
other_entry c e p (inr h) k = ground (
  arith,
  h,
  k,
  platform_eq.beq_iff c.platform p,
  platform_eq.beq_iff e.platform p,
  platform_eq.beq_iff c.platform e.platform,
  string_eq.beq_iff c.id e.id,
  string_eq.beq_iff e.id c.id,
)

lookup_loop_skip :
    (id : String) (p : Platform) (o : Option Check) (es : List Check)
    → All (Apart id p) es
    → lookup_loop id p o es ≡ o
unfolding lookup_loop Apart
lookup_loop_skip id p o [] h = refl
lookup_loop_skip id p o (e ∷ es) h = ground (arith, h.0, lookup_loop_skip id p o es h.1)

-- The entry is the one that the lookup takes.
lookup_loop_taken :
    (c : Check) (p : Platform) (es : List Check)
    → applies_to c p ≡ true
    → All (Apart c.id p) es
    → lookup_loop c.id p none (c ∷ es) ≡ some c
unfolding lookup_loop applies_to
lookup_loop_taken c p es k h =
    ground (arith, k, string_eq.beq_iff c.id c.id, lookup_loop_skip c.id p (some c) es h)

other_entries :
    (c : Check) (p : Platform) (es : List Check)
    → applies_to c p ≡ true
    → All (λ e. clashes e c ≡ false) es
    → All (Apart c.id p) es
other_entries c p [] k h = tt
other_entries c p (e ∷ es) k h = (other_entry c e p (inr h.0) k, other_entries c p es k h.1)

clash_at :
    (e c : Check) (es : List Check) (i : ℕ)
    → All (λ d. clashes d e ≡ false) es
    → get_elem? es i ≡ some c
    → clashes c e ≡ false
clash_at e c [] i h g = cc
clash_at e c (d ∷ es) zero h g = subst (λ x. clashes x e ≡ false) (some_inj g) h.0
clash_at e c (d ∷ es) (suc i) h g = clash_at e c es i h.1 g

lookup_loop_next :
    (c e : Check) (p : Platform) (es : List Check)
    → Apart c.id p e
    → lookup_loop c.id p none (e ∷ es) ≡ lookup_loop c.id p none es
unfolding lookup_loop Apart
lookup_loop_next c e p es a = ground (arith, a)

lookup_loop_at :
    (c : Check) (p : Platform) (es : List Check) (i : ℕ)
    → applies_to c p ≡ true
    → IsRegistered es
    → get_elem? es i ≡ some c
    → lookup_loop c.id p none es ≡ some c
lookup_loop_at c p [] i k w g = cc
lookup_loop_at c p (e ∷ es) zero k w g =
    subst (λ x. lookup_loop c.id p none (x ∷ es) ≡ some c) (sym (some_inj g))
      (lookup_loop_taken c p es k
        (other_entries c p es k (subst (λ x. All (λ d. clashes d x ≡ false) es) (some_inj g) w.0)))
lookup_loop_at c p (e ∷ es) (suc i) k w g =
    lookup_loop_next c e p es (other_entry c e p (inl (clash_at e c es i w.0 g)) k)
    ∙ lookup_loop_at c p es i k w.1 g

-- In the entries that calls of `Register` leave, each entry is what the lookup of its id finds, on every platform
-- to which it applies: never another, and never none.
pub lookup-register :
    (cs es : List Check) (i : ℕ) (c : Check) (p : Platform)
    → register [] cs ≡ some es
    → get_elem? es i ≡ some c
    → applies_to c p ≡ true
    → lookup es c.id p ≡ some c
unfolding lookup
lookup-register cs es i c p r g k =
    lookup_loop_at c p es i k (register-IsRegistered [] cs es tt r) g
