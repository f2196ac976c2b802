-- ===== src/Finding/Catalog.antt =====
-- internal/finding/catalog.go: the definition of a finding, and the catalog of definitions. The
-- catalog is the list of the registered definitions; the compiled tables that fill it are data, so
-- what is shown here holds of every catalog that `register` builds.
pub mod Registered
use scheck.Prelude.{
  String, Bool, true, false, not, ◌||◌, Option, none, some, List, [], ◌∷◌, find_first, is_some, ltb,
  ◌==◌, string_eq, if◌then◌else◌, Eq,
}
use scheck.Prelude.Strings.{has_prefix}
use scheck.Finding.Severity.{Severity, rank}
use scheck.Finding.Chain.{AttributeRaise}

-- `Remediation`.
pub record Remediation : Type 0 where
  pub summary : String
  pub commands : List String
  pub caveat : String

-- `Area`; the undeclared one is the empty text.
pub data Area : Type 0 where
  identity secrets cloud data_area cicd external web hosts email logging : Area
  undeclared_area : Area

-- `Exposure`.
pub data Exposure : Type 0 where
  exposure_undeclared not_exposure is_exposure : Exposure

-- `Def`. `ceiling` is `none` where Go has the empty severity.
pub record Def : Type 0 where
  pub id : String
  pub title : String
  pub category : String
  pub area : Area
  pub exposure : Exposure
  pub judges : String
  pub base_severity : Severity
  pub impact : String
  pub remediation : Remediation
  pub premise : List String
  pub subject : String
  pub ceiling : Option Severity
  pub host_access : Bool
  pub attributes : List AttributeRaise
  pub multi_fact : Bool

-- The map `defs`.
abbrev pub Catalog : Type 0
Catalog = List Def

-- `Lookup`.
unfoldable pub lookup : Catalog → String → Option Def
lookup defs id = find_first (λ d. d.id == id) defs

area_declared : Area → Bool
area_declared undeclared_area = false
area_declared _ = true

exposure_declared : Exposure → Bool
exposure_declared exposure_undeclared = false
exposure_declared _ = true

ceiling_below : Option Severity → Severity → Bool
ceiling_below none base = false
ceiling_below (some c) base = ltb (rank c) (rank base)

incomplete : Def → Bool
unfolding area_declared exposure_declared
incomplete d =
    d.id == ""
    || d.title == ""
    || d.impact == ""
    || d.remediation.summary == ""
    || not (area_declared d.area)
    || not (exposure_declared d.exposure)
    || d.judges == ""

-- `Register`; `none` is its panic.
unfoldable pub register : Catalog → Def → Option Catalog
unfolding lookup incomplete ceiling_below rank
register defs d =
    if is_some (lookup defs d.id)
    then none
    else if incomplete d
    then none
    else if ceiling_below d.ceiling d.base_severity
    then none
    else some (d ∷ defs)

-- The areas in which a data.matters_most entry raises a finding of any asset but a host.
matters_area : Area → Bool
matters_area identity = true
matters_area secrets = true
matters_area data_area = true
matters_area external = true
matters_area _ = false

-- `Def.MattersMostRaises`.
unfoldable pub matters_most_raises : Def → String → Bool
unfolding has_prefix matters_area
matters_most_raises d owner =
    if has_prefix owner "host:" then d.host_access else matters_area d.area
