-- ===== src/Engagement/Locator.antt =====
-- internal/engagement/locator.go: a locator that was parsed, what falls under it, and what it excludes. A name is
-- never written as an address, which parsing sees to, so the texts of the two are never equal.
use scheck.Prelude.{
  String, ℕ, Bool, true, false, not, ◌&&◌, ◌||◌, Option, none, some, List, [], ◌∷◌, any, leb, ◌==◌,
  nat_eq, string_eq, if◌then◌else◌,
}
use scheck.Prelude.Strings.{◌+◌, has_prefix, has_suffix}
use scheck.Engagement.Gate.Address.{
  Addr, v4, v6, Prefix, prefix4, prefix6, contains, carried, whole,
}
use scheck.Engagement.Gate.Answer.{
  AddressRef, network, host_address, no_address, address_excluded, addr_beq,
}

-- `Kind`.
pub data Kind : Type 0 where
  kind_domain kind_url kind_host kind_network kind_saas kind_repo kind_cloud : Kind

-- `Ref`, less what it was written as and its user. A port that is not written is 0.
pub record Ref : Type 0 where
  pub kind : Kind
  pub id : String
  pub org_unit : String
  pub port : ℕ
  pub name : String
  pub addr : Option Addr
  pub prefix : Option Prefix
  pub scheme : String
  pub path : String
  pub provider : String
  pub tenant : String

by_place : Option Addr → Option Addr → String → String → Bool
by_place (some a) (some b) n m = addr_beq a b
by_place none none n m = n == m
by_place _ _ n m = false

-- Whether two refs have one `Address`.
pub same_address : Ref → Ref → Bool
same_address r c = by_place r.addr c.addr r.name c.name

is_host : Kind → Bool
is_host kind_host = true
is_host _ = false

-- `Ref.Local`.
pub is_local : Ref → Bool
is_local r = is_host r.kind && r.name == "local"

-- `Ref.cloudOrg`.
cloud_org : Ref → Bool
cloud_org r = elim r.kind [ kind_cloud ↦ has_prefix r.tenant "organizations/" | _ ↦ false ]

-- `domainUnder`.
pub domain_under : String → String → Bool
domain_under name d = not (name == "") && (name == d || has_suffix name ("." + d))

-- `pathUnder`.
path_under : String → String → Bool
path_under p prefix =
    p == prefix || (has_suffix prefix "/" && has_prefix p prefix) || has_prefix p (prefix + "/")

-- An address that a network holds, both of which may be absent.
pub in_prefix : Option Prefix → Option Addr → Bool
in_prefix (some p) (some a) = contains p a
in_prefix _ _ = false

bits : Prefix → ℕ
bits (prefix4 n b) = b
bits (prefix6 n b) = b

base : Prefix → Addr
base (prefix4 n b) = v4 n
base (prefix6 n b) = v6 n ""

-- Whether a network is a part of another.
part_of : Prefix → Prefix → Bool
part_of o i = leb (bits o) (bits i) && contains o (base i)

both : (Prefix → Prefix → Bool) → Option Prefix → Option Prefix → Bool
both test (some o) (some i) = test o i
both test _ _ = false

-- The cases of `Under`, by the kinds of the root and of what may fall under it.
under_kinds : Kind → Kind → Ref → Ref → Bool
under_kinds kind_domain kind_domain c root = domain_under c.name root.name
under_kinds kind_domain kind_url c root = domain_under c.name root.name
under_kinds kind_domain kind_host c root = domain_under c.name root.name
under_kinds kind_network kind_host c root = in_prefix root.prefix c.addr
under_kinds kind_network kind_url c root = in_prefix root.prefix c.addr
under_kinds kind_network kind_network c root = both part_of root.prefix c.prefix
under_kinds kind_host kind_url c root = same_address root c
under_kinds kind_url kind_url c root =
    c.scheme == root.scheme
    && same_address c root
    && c.port == root.port
    && path_under c.path root.path
under_kinds kind_saas kind_repo c root = root.provider == "github" && c.tenant == root.tenant
under_kinds kind_cloud kind_cloud c root =
    not (cloud_org c) && cloud_org root && c.provider == root.provider
under_kinds _ _ c root = false

-- `Under`.
pub under : Ref → Ref → Bool
under c root = c.id == root.id || under_kinds root.kind c.kind c root

-- `urlPort`.
url_port : Ref → ℕ
url_port r =
    if not (r.port == 0)
    then r.port
    else if r.scheme == "https"
    then 443
    else if r.scheme == "http"
    then 80
    else 0

-- What a ref says of addresses: `excludePrefix`.
of_prefix : Option Prefix → AddressRef
of_prefix none = no_address
of_prefix (some p) = network p

of_host : Option Addr → AddressRef
of_host none = no_address
of_host (some a) = host_address a

pub address_ref : Ref → AddressRef
address_ref x = elim x.kind [
  | kind_network ↦ of_prefix x.prefix
  | kind_host ↦ of_host x.addr
  | _ ↦ no_address
]

exclude_prefix : AddressRef → Option Prefix
exclude_prefix (network p) = some p
exclude_prefix (host_address a) = some (whole a)
exclude_prefix no_address = none

with_carried : Prefix → Option Prefix → List Prefix
with_carried p none = p ∷ []
with_carried p (some c) = p ∷ c ∷ []

-- `networkExcluded`.
network_excluded : Prefix → Prefix → Bool
network_excluded x n =
    any (λ o. any (part_of o) (with_carried n (carried n))) (with_carried x (carried x))

-- `strings.TrimSuffix` of a slash.
trim_slash : String → String
trim_slash String.[] = String.[]
trim_slash (String.◌∷◌ c String.[]) =
    if String.◌∷◌ c String.[] == "/" then String.[] else String.◌∷◌ c String.[]
trim_slash (String.◌∷◌ c (String.◌∷◌ d s)) = String.◌∷◌ c (trim_slash (String.◌∷◌ d s))

-- A url exclude over a url.
excludes_url : Ref → Ref → Bool
excludes_url x c =
    let prefix = trim_slash x.path in
    same_address x c
    && (x.port == c.port || url_port x == url_port c)
    && (prefix == "" || c.path == prefix || has_prefix c.path (prefix + "/"))

addr_excluded : Ref → Option Addr → Bool
addr_excluded x none = false
addr_excluded x (some a) = address_excluded (address_ref x) a

-- The cases of `Excludes` behind that of two urls.
excludes_kinds : Kind → Kind → Ref → Ref → Bool
excludes_kinds kind_host kind_host x c = same_address x c || under c x
excludes_kinds _ kind_network x c =
    both network_excluded (exclude_prefix (address_ref x)) c.prefix || under c x
excludes_kinds _ _ x c = under c x

by_kinds : Kind → Kind → Ref → Ref → Bool
by_kinds kind_url kind_url x c = excludes_url x c
by_kinds k j x c = addr_excluded x c.addr || excludes_kinds k j x c

-- `Excludes`.
pub excludes : Ref → Ref → Bool
excludes x c = x.org_unit == "" && by_kinds x.kind c.kind x c

-- `excludesName`.
pub excludes_name : Ref → String → Bool
excludes_name x n =
    let by_kind : Bool = elim x.kind [
      | kind_domain ↦ domain_under n x.name
      | kind_host ↦ x.name == n
      | kind_url ↦ x.name == n && x.port == 0 && trim_slash x.path == ""
      | _ ↦ false
    ] in
    x.org_unit == "" && by_kind
