-- ===== src/Engagement/Severity/Table.antt =====
-- severity.go: the declarations that the table reads, and the pieces that its rows are made of.
use Prim.Native.String.{compare}
use Prim.Native.Nat.{Ordering}
use scheck.Prelude.{
  String, Bool, true, false, not, ◌&&◌, Option, none, some, List, [], ◌∷◌, find_first, is_some,
  map_get, length, ◌==◌, string_eq, if◌then◌else◌, ltb, ℕ, nat_eq, any, keep,
}
use scheck.Prelude.Sort.{sort_stable}
use scheck.Prelude.Strings.{◌+◌, decimal, has_prefix, trim_prefix}
use scheck.Finding.Chain.{Ref, Attribute}
use scheck.Finding.Catalog.{Def}
use scheck.Finding.Judgment.{Judgment}

-- `Exposed`.
pub record Exposed : Type 0 where
  pub url : String
  pub reason : String
  pub key : String

-- `Matter`.
pub record Matter : Type 0 where
  pub asset : String
  pub name : String
  pub what : String
  pub key : String

-- `Production`.
pub record Production : Type 0 where
  pub name : String
  pub key : String

-- `Declarations`; its two maps are association lists by asset id.
pub record Declarations : Type 0 where
  pub exposed : List Exposed
  pub matters_most : List Matter
  pub production : List (String × Production)
  pub internet : List (String × String)

-- `instance`.
pub record Instance : Type 0 where
  pub def : Def
  pub j : Judgment
  pub owner : String

-- What a row answers when it applies: what it rests on, and its sentence.
abbrev pub Match : Type 0
Match = Option (Ref × String)

-- `rule`: one row of the table. `ids` is `none` for any finding.
pub record Rule : Type 0 where
  pub name : String
  pub ids : Option (List String)
  pub past_high : Bool
  pub lower : Bool
  pub match : Declarations → Instance → Match
  pub not_applied : Option (Declarations → Instance → Match)

-- `attribute`.
unfoldable pub attribute : Judgment → String → Option Attribute
attribute j name = find_first (λ a. a.name == name) j.attributes

-- `ownWords`.
unfoldable pub own_words : Judgment → String → String
own_words j why = if not (j.why == "") then "" else why

first_read : Judgment → Ref → Ref
first_read j ref = elim j.reads [ [] ↦ ref | r ∷ rs ↦ record ref { observation = r } ]

-- `refOf`.
unfoldable pub ref_of : Judgment → Ref → Ref
unfolding first_read
ref_of j ref =
    let seen = if ref.key == "" && ref.observation == "" then first_read j ref else ref in
    if seen.key == "" && seen.excerpt == "" then record seen { excerpt = j.excerpt } else seen

-- `repoName`.
unfoldable pub repo_name : String → Production → String
repo_name asset p =
    if has_prefix asset "repo:github:" then trim_prefix asset "repo:github:" else p.name

cited : Judgment → String → Attribute → Ref × String
cited j why a = (ref_of j a.ref, own_words j why)

-- `cites`: a row that matches a judgment carrying the attribute.
unfoldable pub cites : String → String → Declarations → Instance → Match
unfolding cited attribute
cites attr why d i = elim (attribute i.j attr) [ none ↦ none | some a ↦ some (cited i.j why a) ]

-- The attributes about a repository declared production that are named `name`.
on_production : Declarations → String → Attribute → Bool
on_production d name a = is_some (map_get d.production a.asset) && a.name == name

string_less : String → String → Bool
string_less s t = elim (compare s t) [ Ordering.lt ↦ true | _ ↦ false ]

by_asset : Attribute → Attribute → Bool
unfolding string_less
by_asset x y = string_less x.asset y.asset

and_more : ℕ → String
and_more n =
    if n == 1
    then "; and 1 more production repository"
    else if ltb 1 n
    then "; and " + decimal n + " more production repositories"
    else ""

unsettled : List Attribute → Match
unfolding and_more
unsettled [] = none
unsettled (a ∷ rest) = some (
  a.ref,
  "not applied: write access to production repositories was not established ("
      + a.ref.excerpt
      + and_more (length rest)
      + ").",
)

-- `productionWriteUnsettled`.
unfoldable pub production_write_unsettled : Declarations → Instance → Match
unfolding on_production unsettled by_asset
production_write_unsettled d i =
    if any (on_production d "write_held") i.j.attributes
    then none
    else unsettled (sort_stable by_asset (keep (on_production d "write_unsettled") i.j.attributes))
