-- ===== src/Engagement/Gate/Answer.antt =====
-- internal/engagement/gate/admit.go, scope.go and locator.go: whether the addresses of an answer may be contacted.
pub mod Permitted
use Prim.Native.Nat.{Ordering}
use Prim.Native.String.{compare}
use scheck.Prelude.{
  String, ℕ, zero, suc, Bool, true, false, not, ◌&&◌, ◌||◌, Option, none, some, List, [], ◌∷◌, any,
  is_some, ltb, ◌==◌, string_eq, nat_eq, if◌then◌else◌,
}
use scheck.Prelude.Sort.{sort_stable}
use scheck.Engagement.Gate.Address.{
  Addr, v4, v6, Prefix, contains, carried, whole, forms, Class, is_public, not_public, never,
  classify,
}

-- What an exclude or a root says of addresses: `Ref` of a network, of a host written as an address, or any other.
pub data AddressRef : Type 0 where
  network : Prefix → AddressRef
  host_address : Addr → AddressRef
  no_address : AddressRef

-- `excludePrefix`.
exclude_prefix : AddressRef → Option Prefix
exclude_prefix (network p) = some p
exclude_prefix (host_address a) = some (whole a)
exclude_prefix no_address = none

carried_contains : Option Prefix → Addr → Bool
carried_contains none f = false
carried_contains (some c) f = contains c f

holds_form : Option Prefix → List Addr → Bool
holds_form none fs = false
holds_form (some p) fs = any (λ f. contains p f || carried_contains (carried p) f) fs

-- `addressExcluded`.
pub address_excluded : AddressRef → Addr → Bool
address_excluded x a = holds_form (exclude_prefix x) (forms a)

unfoldable pub next_index : Option ℕ → Option ℕ
next_index none = none
next_index (some i) = some (suc i)

-- `slices.IndexFunc` of the excludes.
pub excluded_by : List AddressRef → Addr → Option ℕ
excluded_by [] a = none
excluded_by (x ∷ xs) a =
    let rest = next_index (excluded_by xs a) in if address_excluded x a then some 0 else rest

root_contains : AddressRef → Addr → Bool
root_contains (network p) a = any (contains p) (forms a)
root_contains _ a = false

-- `networkRoot`, whether it finds a root.
pub in_network : List AddressRef → Addr → Bool
in_network roots a = any (λ r. root_contains r a) roots

-- `refused`, less its texts.
pub data Refusal : Type 0 where
  never_contacted outside_networks : Refusal
  address_excluded_by : ℕ → Refusal

-- The switch over one address.
pub refuse : Class → Option ℕ → Bool → Option Refusal
refuse never x inside = some never_contacted
refuse is_public none inside = none
refuse is_public (some i) inside = some (address_excluded_by i)
refuse not_public (some i) inside = some (address_excluded_by i)
refuse not_public none inside = if inside then none else some outside_networks

pub refuse_address : List AddressRef → List AddressRef → Addr → Option Refusal
refuse_address excludes roots a = refuse (classify a) (excluded_by excludes a) (in_network roots a)

pub first_refusal : Option Refusal → Option Refusal → Option Refusal
first_refusal none later = later
first_refusal (some r) later = some r

-- The loop over the addresses: the first refusal.
pub refuse_any : List AddressRef → List AddressRef → List Addr → Option Refusal
refuse_any excludes roots [] = none
refuse_any excludes roots (a ∷ as') =
    first_refusal (refuse_address excludes roots a) (refuse_any excludes roots as')

zone_less : String → String → Bool
zone_less s t = elim (compare s t) [ Ordering.lt ↦ true | _ ↦ false ]

-- The order of `sortAddrs`: by length, and then `Addr.Compare`.
pub addr_less : Addr → Addr → Bool
addr_less (v4 a) (v4 b) = ltb a b
addr_less (v4 a) (v6 b zone) = true
addr_less (v6 a zone) (v4 b) = false
addr_less (v6 a z) (v6 b y) = ltb a b || (a == b && zone_less z y)

pub addr_beq : Addr → Addr → Bool
addr_beq (v4 a) (v4 b) = a == b
addr_beq (v6 a z) (v6 b y) = a == b && z == y
addr_beq _ _ = false

-- `slices.Compact`, behind an element.
pub compact_after : Addr → List Addr → List Addr
compact_after a [] = []
compact_after a (b ∷ bs) = let rest = compact_after b bs in if addr_beq a b then rest else b ∷ rest

pub compact : List Addr → List Addr
compact [] = []
compact (a ∷ as') = a ∷ compact_after a as'

-- `sortAddrs`.
pub sort_addrs : List Addr → List Addr
sort_addrs as' = compact (sort_stable addr_less as')

-- The loop of `Gate.addresses` over the addresses of a lookup; `none` where it refuses none.
pub refuse_answer : List AddressRef → List AddressRef → List Addr → Option Refusal
refuse_answer excludes roots addrs = refuse_any excludes roots (sort_addrs addrs)
