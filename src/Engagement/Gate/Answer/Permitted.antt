-- ===== src/Engagement/Gate/Answer/Permitted.antt =====
-- Which answers are accepted.
use scheck.Prelude.{
  ℕ, ◌≡◌, refl, ap, ◌∙◌, Bool, true, false, not, ◌&&◌, ◌||◌, Option, none, some, List, [], ◌∷◌, any,
  is_some, string_eq, nat_eq, Bool-cases, inl, inr, arith,
}
use scheck.Prelude.Sort.{sort_stable}
use scheck.Prelude.Sort.Kept.{any-sort_stable}
use scheck.Engagement.Gate.Address.{Addr, v4, v6, Class, is_public, not_public, never, classify}
use scheck.Engagement.Gate.Answer.{
  AddressRef, address_excluded, excluded_by, in_network, Refusal, refuse, refuse_address,
  next_index, first_refusal, refuse_any, addr_beq, addr_less, compact_after, compact, sort_addrs,
  refuse_answer,
}

is_never : Class → Bool
is_never never = true
is_never _ = false

is_inside : Class → Bool → Bool
is_inside is_public inside = true
is_inside _ inside = inside

-- The address is none that is never contacted, no exclude holds it, and it is public or in a network root.
pub is_permitted : List AddressRef → List AddressRef → Addr → Bool
is_permitted excludes roots a =
    not (is_never (classify a))
    && not (any (λ x. address_excluded x a) excludes)
    && is_inside (classify a) (in_network roots a)

pub is_some-next_index : (o : Option ℕ) → is_some (next_index o) ≡ is_some o
unfolding next_index
is_some-next_index none = refl
is_some-next_index (some i) = refl

excluded_by-any :
    (xs : List AddressRef) (a : Addr)
    → is_some (excluded_by xs a) ≡ any (λ x. address_excluded x a) xs
unfolding excluded_by
excluded_by-any [] a = refl
excluded_by-any (x ∷ xs) a = elim (Bool-cases (address_excluded x a)) [
  | inl e ↦ rw e refl
  | inr e ↦ rw e (is_some-next_index (excluded_by xs a) ∙ excluded_by-any xs a)
]

refuse-permits :
    (c : Class) (o : Option ℕ) (inside : Bool)
    → is_some (refuse c o inside) ≡ not (not (is_never c) && not (is_some o) && is_inside c inside)
unfolding refuse is_never is_inside
refuse-permits is_public none inside = refl
refuse-permits is_public (some i) inside = refl
refuse-permits not_public none inside = ground arith
refuse-permits not_public (some i) inside = refl
refuse-permits never o inside = refl

is_some-first_refusal :
    (o later : Option Refusal) → is_some (first_refusal o later) ≡ (is_some o || is_some later)
unfolding first_refusal
is_some-first_refusal none later = refl
is_some-first_refusal (some r) later = refl

module _ (excludes roots : List AddressRef) where
  refused : Addr → Bool
  refused a = not (is_permitted excludes roots a)

  refuse_address-refused : (a : Addr) → is_some (refuse_address excludes roots a) ≡ refused a
  unfolding refuse_address refused is_permitted
  refuse_address-refused a =
      refuse-permits (classify a) (excluded_by excludes a) (in_network roots a)
      ∙ ap
          (λ b.
            not
              (not (is_never (classify a)) && not b && is_inside (classify a) (in_network roots a)))
          (excluded_by-any excludes a)

  refuse_any-refused : (as' : List Addr) → is_some (refuse_any excludes roots as') ≡ any refused as'
  unfolding refuse_any
  refuse_any-refused [] = refl
  refuse_any-refused (a ∷ as') =
      is_some-first_refusal (refuse_address excludes roots a) (refuse_any excludes roots as')
      ∙ ground (arith, refuse_address-refused a, refuse_any-refused as')

addr_beq-eq : (a b : Addr) → addr_beq a b ≡ true → a ≡ b
unfolding addr_beq
addr_beq-eq (v4 a) (v4 b) h = ground arith
addr_beq-eq (v4 a) (v6 b z) h = cc
addr_beq-eq (v6 a z) (v4 b) h = cc
addr_beq-eq (v6 a z) (v6 b y) h = ground (arith, string_eq.beq_iff z y)

any-compact_after :
    (p : Addr → Bool) (a : Addr) (bs : List Addr)
    → (p a || any p (compact_after a bs)) ≡ (p a || any p bs)
unfolding compact_after
any-compact_after p a [] = refl
any-compact_after p a (b ∷ bs) = elim (Bool-cases (addr_beq a b)) [
  | inl e ↦ rw e (ground (arith, ap p (addr_beq-eq a b e), any-compact_after p b bs))
  | inr e ↦ rw e (ground (arith, any-compact_after p b bs))
]

any-compact : (p : Addr → Bool) (as' : List Addr) → any p (compact as') ≡ any p as'
unfolding compact
any-compact p [] = refl
any-compact p (a ∷ as') = any-compact_after p a as'

-- A lookup's answer is accepted exactly when each of its addresses may be contacted: it is none of those that are
-- never contacted, no exclude holds it in any form, and it is public or inside a network root.
pub refuse_answer-permitted :
    (excludes roots : List AddressRef) (addrs : List Addr)
    → is_some (refuse_answer excludes roots addrs)
      ≡ any (λ a. not (is_permitted excludes roots a)) addrs
unfolding refuse_answer sort_addrs refused
refuse_answer-permitted excludes roots addrs =
    refuse_any-refused excludes roots (compact (sort_stable addr_less addrs))
    ∙ any-compact (λ a. not (is_permitted excludes roots a)) (sort_stable addr_less addrs)
    ∙ any-sort_stable addr_less (λ a. not (is_permitted excludes roots a)) addrs
