-- ===== src/Engagement/Scope.antt =====
-- internal/engagement/scope.go: the scope as the gate reads it: where a subject stands, and which paths of a site may be
-- read on which evidence. The locators are given as they were parsed; the calendar, by which a confirmation has its
-- year, is a parameter.
pub mod Placed
pub mod Evidence
pub mod Sites
use scheck.Prelude.{
  String, ℕ, suc, Bool, true, false, not, ◌&&◌, ◌||◌, Option, none, some, List, [], ◌∷◌, ◌++◌, map,
  any, all, contains, keep, find_first, is_some, ltb, leb, ◌==◌, nat_eq, string_eq, if◌then◌else◌,
}
use scheck.Engagement.Gate.Address.{Addr}
use scheck.Engagement.Gate.Answer.{in_network, excluded_by, next_index}
use scheck.Engagement.Locator.{
  Kind, kind_domain, kind_url, kind_host, kind_network, kind_saas, kind_repo, kind_cloud, Ref,
  same_address, is_local, domain_under, in_prefix, under, address_ref, excludes, excludes_name,
}

-- `wellKnown`.
well_known : List String
well_known = "/robots.txt" ∷ "/.well-known/security.txt" ∷ []

is_url : Kind → Bool
is_url kind_url = true
is_url _ = false

is_network : Kind → Bool
is_network kind_network = true
is_network _ = false

-- `sameOrigin`.
same_origin : Ref → Ref → Bool
same_origin a b = a.scheme == b.scheme && same_address a b && a.port == b.port

-- `under` of scope.go.
pub placed_under : Ref → Ref → Bool
placed_under c root =
    under c root
    || (is_url c.kind && is_url root.kind && same_origin c root && contains well_known c.path)

-- The index of the first exclude that covers a ref: `excludeOf`.
pub exclude_of : List Ref → Ref → Option ℕ
exclude_of [] c = none
exclude_of (x ∷ xs) c =
    let rest = next_index (exclude_of xs c) in if excludes x c then some 0 else rest

-- `gate.Standing`.
pub record Standing : Type 0 where
  pub under_asset : Bool
  pub root : Option String
  pub excluded_by : Option ℕ

-- `FirstParty`, with its target as `canonicalTarget` reads it.
pub record FirstParty : Type 0 where
  pub date : String
  pub target : String

-- What scope.go reads of a `ResolvedAsset`.
pub record Asset : Type 0 where
  pub ref : Ref
  pub first_party : Option FirstParty

-- `scope`, with what it reads of `Resolved`. An instant is a number; `day_of` is the instant at which a written day
-- begins, and `year_after` the one at which the day 366 days behind it does. `suspended` are the names whose
-- confirmation no longer counts.
pub record Scope : Type 0 where
  pub roots : List Ref
  pub exclude : List Ref
  pub assets : List Asset
  pub intent : List Ref
  pub at : ℕ
  pub day_of : String → Option ℕ
  pub year_after : String → ℕ
  pub suspended : List String

id_of : Option Ref → Option String
id_of none = none
id_of (some r) = some r.id

stand : Scope → Option Ref → Option Ref → Standing
stand s (some a) (some c) = record {
  under_asset = placed_under c a;
  root = id_of (find_first (placed_under c) s.roots);
  excluded_by = exclude_of s.exclude c;
}
stand s _ _ = record { under_asset = false; root = none; excluded_by = none }

-- `Subject`, of an asset and a subject as far as they parse.
pub subject : Scope → Option Ref → Option Ref → Standing
subject s a c = stand s a c

-- The rules by which `placeSubject` refuses.
pub data Misplaced : Type 0 where
  out_of_scope : Misplaced
  excluded : ℕ → Misplaced

misplaced : Bool → Option ℕ → Option Misplaced
misplaced false x = some out_of_scope
misplaced true none = none
misplaced true (some i) = some (excluded i)

-- `Gate.placeSubject`; `none` where it refuses nothing.
pub place_subject : Scope → Option Ref → Option Ref → Option Misplaced
place_subject s a c =
    let st = subject s a c in misplaced (st.under_asset && is_some st.root) st.excluded_by

-- `Name`: the exclude that covers a name.
name_excluded : List Ref → String → Option ℕ
name_excluded [] n = none
name_excluded (x ∷ xs) n =
    let rest = next_index (name_excluded xs n) in if excludes_name x n then some 0 else rest

-- Whether `networkRoot` finds a root.
pub network_root : Scope → Addr → Bool
network_root s a = in_network (map address_ref (keep (λ r. is_network r.kind) s.roots)) a

-- `Address`.
address_standing : Scope → Addr → Option ℕ × Bool
address_standing s a = (excluded_by (map address_ref s.exclude) a, network_root s a)
