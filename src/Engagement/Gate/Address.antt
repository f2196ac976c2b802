-- ===== src/Engagement/Gate/Address.antt =====
-- internal/engagement/gate/addr.go: what an address is to the gate, and the IPv4 address that an IPv6 one carries.
-- An address is the number of its 32 or 128 bits, with the zone of an IPv6 one; Go's net/netip is modelled as it
-- documents itself. The gate asks for the class of an address without a zone only.
pub mod Embedded
use Prim.Native.Nat.{◌/◌, ◌%◌, ◌^◌, ◌-◌}
use scheck.Prelude.{
  String, ℕ, zero, suc, ◌+◌, ◌*◌, max, min, Bool, true, false, ◌&&◌, ◌||◌, Option, none, some, List,
  [], ◌∷◌, ◌++◌, ltb, ◌==◌, string_eq, nat_eq, if◌then◌else◌,
}

-- `netip.Addr`, one that is valid.
pub data Addr : Type 0 where
  v4 : ℕ → Addr
  v6 : ℕ → String → Addr

-- `netip.Prefix`: an address without a zone, and how many of its bits count.
pub data Prefix : Type 0 where
  prefix4 prefix6 : ℕ → ℕ → Prefix

-- `Prefix.Contains`: a prefix holds no address with a zone.
pub contains : Prefix → Addr → Bool
contains (prefix4 n b) (v4 a) = a / 2 ^ (32 - b) == n / 2 ^ (32 - b)
contains (prefix6 n b) (v6 a zone) = zone == "" && a / 2 ^ (128 - b) == n / 2 ^ (128 - b)
contains _ _ = false

-- The prefixes: `::ffff:0:0/96`, `64:ff9b::/96`, `2002::/16` and `64:ff9b:1::/48`.
pub mapped_base : ℕ
mapped_base = 0xffff * 2 ^ 32

pub nat64_base : ℕ
nat64_base = 0x64ff9b * 2 ^ 96

pub six_to4_base : ℕ
six_to4_base = 0x2002 * 2 ^ 112

pub nat64_local : Prefix
nat64_local = prefix6 (0x64ff9b0001 * 2 ^ 80) 48

-- `Prefix.Masked`, of an IPv4 network.
masked4 : ℕ → ℕ → Prefix
masked4 n b = prefix4 (n / 2 ^ (32 - b) * 2 ^ (32 - b)) b

-- The network is shorter than the prefix of that base and length, and holds it.
holds : ℕ → ℕ → ℕ → ℕ → Bool
holds n b base bits = ltb b bits && contains (prefix6 n b) (v6 base "")

-- `Carried`.
pub carried : Prefix → Option Prefix
carried (prefix4 n b) = none
carried (prefix6 n b) =
    if holds n b mapped_base 96 || holds n b nat64_base 96 || holds n b six_to4_base 16
    then some (prefix4 0 0)
    else if contains (prefix6 mapped_base 96) (v6 n "")
        || contains (prefix6 nat64_base 96) (v6 n "")
    then some (masked4 (n % 2 ^ 32) (max b 96 - 96))
    else if contains (prefix6 six_to4_base 16) (v6 n "")
    then some (masked4 (n / 2 ^ 80 % 2 ^ 32) (min b 48 - 16))
    else none

-- `Prefix.Addr`.
addr : Prefix → Addr
addr (prefix4 n b) = v4 n
addr (prefix6 n b) = v6 n ""

-- `netip.PrefixFrom(a, a.BitLen())`.
pub whole : Addr → Prefix
whole (v4 n) = prefix4 n 32
whole (v6 n zone) = prefix6 n 128

-- `Addr.WithZone("")`.
without_zone : Addr → Addr
without_zone (v4 n) = v4 n
without_zone (v6 n zone) = v6 n ""

one_form : Option Prefix → List Addr
one_form none = []
one_form (some p) = addr p ∷ []

-- `Forms`.
pub forms : Addr → List Addr
forms a = without_zone a ∷ one_form (carried (whole (without_zone a)))

-- `addrClass`.
pub data Class : Type 0 where
  is_public not_public never : Class

pub max_class : Class → Class → Class
max_class is_public d = d
max_class not_public is_public = not_public
max_class not_public d = d
max_class never d = never

-- `Addr.Unmap`, which the tests of netip apply first.
pub unmap : Addr → Addr
unmap (v4 n) = v4 n
unmap (v6 n zone) = if n / 2 ^ 32 == 0xffff then v4 (n % 2 ^ 32) else v6 n zone

-- The first 16 bits of an IPv6 address.
group0 : ℕ → ℕ
group0 n = n / 2 ^ 112

-- A multicast address of this scope, whatever its flags.
scoped : ℕ → ℕ → Bool
scoped n scope = n / 2 ^ 120 == 0xff && group0 n % 16 == scope

-- `IsLoopback`.
pub is_loopback : Addr → Bool
is_loopback (v4 n) = n / 2 ^ 24 == 127
is_loopback (v6 n zone) = n == 1

-- `IsLinkLocalUnicast`.
is_link_local : Addr → Bool
is_link_local (v4 n) = n / 2 ^ 16 == 0xa9fe
is_link_local (v6 n zone) = n / 2 ^ 118 == 0x3fa

-- `IsLinkLocalMulticast`.
is_link_local_multicast : Addr → Bool
is_link_local_multicast (v4 n) = n / 2 ^ 8 == 0xe00000
is_link_local_multicast (v6 n zone) = scoped n 2

-- `IsUnspecified`, which does not unmap.
is_unspecified : Addr → Bool
is_unspecified (v4 n) = n == 0
is_unspecified (v6 n zone) = zone == "" && n == 0

-- `IsPrivate`.
is_private : Addr → Bool
is_private (v4 n) = n / 2 ^ 24 == 10 || n / 2 ^ 20 == 0xac1 || n / 2 ^ 16 == 0xc0a8
is_private (v6 n zone) = n / 2 ^ 121 == 0x7e

-- `IsMulticast`.
is_multicast : Addr → Bool
is_multicast (v4 n) = n / 2 ^ 28 == 0xe
is_multicast (v6 n zone) = n / 2 ^ 120 == 0xff

-- `IsInterfaceLocalMulticast`.
is_interface_multicast : Addr → Bool
is_interface_multicast (v4 n) = false
is_interface_multicast (v6 n zone) = scoped n 1

-- `slices.Contains(metadata, a)`.
is_metadata : Addr → Bool
is_metadata (v4 n) = n == 0x646464c8
is_metadata (v6 n zone) = zone == "" && n == 0xfd000ec2 * 2 ^ 96 + 0x254

-- The prefixes `cgnat`, `thisNet`, `reserved`, `ietf` and `bench`.
is_special : Addr → Bool
is_special a =
    contains (prefix4 0x64400000 10) a
    || contains (prefix4 0 8) a
    || contains (prefix4 0xf0000000 4) a
    || contains (prefix4 0xc0000000 24) a
    || contains (prefix4 0xc6120000 15) a

-- The part of `classify` behind the forms.
pub plain : Addr → Class
plain a =
    if is_metadata a
    then never
    else if is_loopback (unmap a)
        || is_link_local (unmap a)
        || is_link_local_multicast (unmap a)
        || is_unspecified a
    then never
    else if is_private (unmap a)
        || is_multicast (unmap a)
        || is_interface_multicast a
        || is_special a
    then not_public
    else is_public

pub at_least_not_public : Option Class → Option Class
at_least_not_public none = none
at_least_not_public (some c) = some (max_class not_public c)

-- `classify`, to a depth of calls; `none` where the depth is used up.
pub classify_to : ℕ → Addr → Option Class
classify_to zero a = none
classify_to (suc depth) a = if contains nat64_local a then some never else elim (forms a) [
  | [] ↦ some (plain a)
  | f ∷ rest ↦ elim rest [
    | [] ↦ some (plain a)
    | g ∷ more ↦ at_least_not_public (classify_to depth g)
  ]
]

or_never : Option Class → Class
or_never none = never
or_never (some c) = c

-- `classify`: two calls are the most that it makes.
pub classify : Addr → Class
classify a = or_never (classify_to 2 a)
