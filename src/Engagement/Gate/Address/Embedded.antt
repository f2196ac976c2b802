-- ===== src/Engagement/Gate/Address/Embedded.antt =====
-- What `classify` makes of an address, and of an IPv4 address inside an IPv6 one.
use Prim.Native.Nat.{◌/◌, ◌%◌, ◌^◌}
use scheck.Prelude.{
  ℕ, suc, ◌+◌, ◌*◌, ◌<◌, Bool, true, false, ◌||◌, ◌≡◌, refl, ap, sym, ◌∙◌, Option, none, some, List,
  [], ◌∷◌, ◌==◌, string_eq, nat_eq, if◌then◌else◌, Bool-cases, inl, inr, arith,
}
use scheck.Engagement.Gate.Address.{
  Addr, v4, v6, prefix6, contains, mapped_base, nat64_base, six_to4_base, nat64_local, masked4,
  holds, carried, addr, whole, without_zone, one_form, forms, Class, not_public, never, max_class,
  plain, at_least_not_public, classify_to,
}

-- The IPv4 address that an IPv6 address carries: its last 32 bits behind `::ffff:0:0/96` or `64:ff9b::/96`, and
-- its bits 16 to 47 behind `2002::/16`.
embedded : ℕ → Option ℕ
embedded n =
    if n / 2 ^ 32 == 0xffff || n / 2 ^ 32 == 0x64ff9b * 2 ^ 64
    then some (n % 2 ^ 32)
    else if n / 2 ^ 112 == 0x2002
    then some (n / 2 ^ 80 % 2 ^ 32)
    else none

class_by : ℕ → Option ℕ → Class
class_by n none = plain (v6 n "")
class_by n (some m) = max_class not_public (plain (v4 m))

-- The class of an address without a zone, with no call of itself.
pub class_of : Addr → Class
class_of (v4 n) = plain (v4 n)
class_of (v6 n zone) = if n / 2 ^ 80 == 0x64ff9b0001 then never else class_by n (embedded n)

with_embedded : Option ℕ → List Addr
with_embedded none = []
with_embedded (some m) = v4 m ∷ []

one_form-masked4 : (m : ℕ) → one_form (some (masked4 m 32)) ≡ v4 m ∷ []
unfolding one_form masked4 addr
one_form-masked4 m = ap (λ x. v4 x ∷ []) (omega arith)

carried_by :
    (a b : Bool) (m k : ℕ)
    → one_form (if a then some (masked4 m 32) else if b then some (masked4 k 32) else none)
      ≡ with_embedded (if a then some m else if b then some k else none)
unfolding with_embedded one_form
carried_by true b m k = one_form-masked4 m
carried_by false true m k = one_form-masked4 k
carried_by false false m k = refl

one_form-carried : (n : ℕ) → one_form (carried (prefix6 n 128)) ≡ with_embedded (embedded n)
unfolding carried embedded holds contains mapped_base nat64_base six_to4_base
one_form-carried n =
    carried_by (n / 2 ^ 32 == 0xffff || n / 2 ^ 32 == 0x64ff9b * 2 ^ 64) (n / 2 ^ 112 == 0x2002)
      (n % 2 ^ 32) (n / 2 ^ 80 % 2 ^ 32)

forms-v6 : (n : ℕ) → forms (v6 n "") ≡ v6 n "" ∷ with_embedded (embedded n)
unfolding forms whole without_zone
forms-v6 n = ap (◌∷◌ (v6 n "")) (one_form-carried n)

classify_to-v4 : (d n : ℕ) → classify_to (suc d) (v4 n) ≡ some (plain (v4 n))
unfolding classify_to forms carried whole without_zone one_form contains nat64_local
classify_to-v4 d n = refl

by_embedded :
    (d n : ℕ) (o : Option ℕ)
    → forms (v6 n "") ≡ v6 n "" ∷ with_embedded o
    → contains nat64_local (v6 n "") ≡ false
    → classify_to (suc (suc d)) (v6 n "") ≡ some (class_by n o)
unfolding classify_to with_embedded class_by at_least_not_public
by_embedded d n none e h = rw (h, e) refl
by_embedded d n (some m) e h = rw (h, e, classify_to-v4 d m) refl

local_lem : (n : ℕ) → contains nat64_local (v6 n "") ≡ (n / 2 ^ 80 == 0x64ff9b0001)
unfolding contains nat64_local
local_lem n = refl

local_never :
    (d n : ℕ)
    → contains nat64_local (v6 n "") ≡ true
    → classify_to (suc (suc d)) (v6 n "") ≡ some never
unfolding classify_to
local_never d n h = rw h refl

-- Two calls are enough: at any depth beyond that `classify` has a result for an address without a zone. It is that
-- of the IPv4 address which the address carries, but at least `not_public`; without one, that of the address
-- itself; and inside `64:ff9b:1::/48` it is `never`.
pub classify_to_total :
    (d n : ℕ)
    → (classify_to (suc (suc d)) (v4 n) ≡ some (class_of (v4 n)))
      × (classify_to (suc (suc d)) (v6 n "") ≡ some (class_of (v6 n "")))
unfolding class_of
classify_to_total d n = (
  classify_to-v4 (suc d) n,
  elim (Bool-cases (n / 2 ^ 80 == 0x64ff9b0001)) [
    | inl e ↦ rw e (local_never d n (local_lem n ∙ e))
    | inr e ↦ rw e (by_embedded d n (embedded n) (forms-v6 n) (local_lem n ∙ e))
  ],
)

class_of_lem :
    (n m : ℕ)
    → (n / 2 ^ 80 == 0x64ff9b0001) ≡ false
    → embedded n ≡ some m
    → class_of (v6 n "") ≡ max_class not_public (class_of (v4 m))
unfolding class_of class_by
class_of_lem n m h e = rw (h, e) refl

last32 :
    (base m : ℕ)
    → m < 2 ^ 32
    → ((base * 2 ^ 32 + m) / 2 ^ 32 ≡ base) × ((base * 2 ^ 32 + m) % 2 ^ 32 ≡ m)
last32 base m h = (omega arith, omega arith)

class_of-mapped :
    (m : ℕ)
    → m < 2 ^ 32
    → class_of (v6 (mapped_base + m) "") ≡ max_class not_public (class_of (v4 m))
unfolding embedded mapped_base
class_of-mapped m h =
    class_of_lem (0xffff * 2 ^ 32 + m) m (ground arith) (ground (arith, last32 0xffff m h))

class_of-nat64 :
    (m : ℕ)
    → m < 2 ^ 32
    → class_of (v6 (nat64_base + m) "") ≡ max_class not_public (class_of (v4 m))
unfolding embedded nat64_base
class_of-nat64 m h =
    class_of_lem (0x64ff9b * 2 ^ 96 + m) m (ground arith)
      (ground (arith, last32 (0x64ff9b * 2 ^ 64) m h))

class_of-six_to4 :
    (m k : ℕ)
    → m < 2 ^ 32
    → k < 2 ^ 80
    → class_of (v6 (six_to4_base + m * 2 ^ 80 + k) "") ≡ max_class not_public (class_of (v4 m))
unfolding embedded six_to4_base
class_of-six_to4 m k h g =
    class_of_lem (0x2002 * 2 ^ 112 + m * 2 ^ 80 + k) m (ground arith) (ground arith)

by_class :
    (d n m : ℕ)
    → class_of (v6 n "") ≡ max_class not_public (class_of (v4 m))
    → classify_to (suc (suc d)) (v6 n "") ≡ at_least_not_public (classify_to (suc d) (v4 m))
unfolding class_of at_least_not_public
by_class d n m e =
    (classify_to_total d n).1 ∙ ap some e ∙ sym (ap at_least_not_public (classify_to-v4 d m))

-- An IPv4 address in each of the three forms is refused where it is refused itself, and is never public.
pub classify_to-embedded :
    (d m k : ℕ)
    → m < 2 ^ 32
    → k < 2 ^ 80
    → (classify_to (suc (suc d)) (v6 (mapped_base + m) "")
        ≡ at_least_not_public (classify_to (suc d) (v4 m)))
      × (classify_to (suc (suc d)) (v6 (nat64_base + m) "")
          ≡ at_least_not_public (classify_to (suc d) (v4 m)))
      × (classify_to (suc (suc d)) (v6 (six_to4_base + m * 2 ^ 80 + k) "")
          ≡ at_least_not_public (classify_to (suc d) (v4 m)))
classify_to-embedded d m k h g = (
  by_class d (mapped_base + m) m (class_of-mapped m h),
  by_class d (nat64_base + m) m (class_of-nat64 m h),
  by_class d (six_to4_base + m * 2 ^ 80 + k) m (class_of-six_to4 m k h g),
)
