-- ===== src/Engagement/Severity/Rows.antt =====
-- severity.go: the rows of the table, in the order in which they are applied.
use scheck.Prelude.{
  String, Bool, true, false, Option, none, some, List, [], ◌∷◌, find_first, contains, map_get, ◌==◌,
  string_eq, if◌then◌else◌,
}
use scheck.Prelude.Strings.{◌+◌}
use scheck.Finding.Chain.{Ref, Attribute}
use scheck.Finding.Catalog.{Exposure, is_exposure, matters_most_raises}
use scheck.Engagement.Severity.Table.{
  Exposed, Matter, Production, Declarations, Instance, Match, Rule, attribute, own_words, ref_of,
  repo_name, cites, production_write_unsettled,
}

abbrev key_ref : String → Ref
key_ref k = record { key = k; observation = ""; excerpt = "" }

exposes : Exposure → Bool
exposes is_exposure = true
exposes _ = false

-- The declaration of a judgment's URL.
unfoldable pub declared_exposed : Declarations → String → Option Exposed
declared_exposed d url = find_first (λ e. e.url == url) d.exposed

exposed_match : Option Exposed → Match
exposed_match none = none
exposed_match (some e) =
    some (key_ref e.key, "You declared this URL exposed on purpose: " + e.reason)

unfoldable pub exposed_on_purpose : Declarations → Instance → Match
unfolding exposes declared_exposed exposed_match
exposed_on_purpose d i =
    if exposes i.def.exposure then exposed_match (declared_exposed d i.j.subject.key) else none

matter_match : Option Matter → Match
matter_match none = none
matter_match (some m) = some (
  key_ref m.key,
  "You listed "
      + m.name
      + " under data.matters_most"
      + (if m.what == "" then "" else " as holding " + m.what)
      + ", so this ranks one step higher.",
)

unfoldable pub data_matters_most : Declarations → Instance → Match
unfolding matter_match
data_matters_most d i =
    if matters_most_raises i.def i.owner
    then matter_match (find_first (λ m. m.asset == i.owner) d.matters_most)
    else none

abbrev production_ids : List String
production_ids =
    "github.writable_deploy_key" ∷ "github.repository_workflow_default_write"
    ∷ "github.default_branch_unprotected" ∷ "github.pr_target_unsafe_checkout" ∷ []

abbrev internet_ids : List String
internet_ids = "db.listens_unfiltered" ∷ "svc.listens_beyond_declared" ∷ []

production_match : Option Production → Match
production_match none = none
production_match (some p) = some (
  key_ref p.key,
  "This repository is declared to deploy to production, so this rating rises one step.",
)

unfoldable pub deploys_to_production : Declarations → Instance → Match
unfolding production_match
deploys_to_production d i =
    if contains production_ids i.j.id then production_match (map_get d.production i.owner) else none

internet_match : Option String → Match
internet_match none = none
internet_match (some key) =
    some (key_ref key, "You declared this host internet-facing, so this ranks one step higher.")

unfoldable pub exposure_internet : Declarations → Instance → Match
unfolding internet_match
exposure_internet d i = internet_match (map_get d.internet i.owner)

contradiction_match : Instance → Option Attribute → Match
contradiction_match i none = none
contradiction_match i (some a) =
    if a.ref.key == ""
    then none
    else some (
      a.ref,
      own_words i.j (
          "What was observed contradicts what you declared at " + a.ref.key
          + ", so this ranks one step higher."),
    )

unfoldable pub contradiction : Declarations → Instance → Match
unfolding contradiction_match
contradiction d i = contradiction_match i (attribute i.j "contradiction")

abbrev still_admin : String
still_admin =
    "This person left and still holds administrator rights, so this ranks one step higher."

or_repository_admin : Declarations → Instance → Match → Option Production → Match
or_repository_admin d i (some m) p = some m
or_repository_admin d i none none = none
or_repository_admin d i none (some p) = cites "repository_admin" still_admin d i

-- An owner holds admin everywhere; a repository's admin counts where the repository is production.
unfoldable pub former_admin : Declarations → Instance → Match
unfolding or_repository_admin
former_admin d i =
    or_repository_admin d i (cites "admin" still_admin d i) (map_get d.production i.owner)

production_write_match : Instance → Option Attribute → Option Production → Match
production_write_match i (some a) (some p) = some (
  ref_of i.j a.ref,
  own_words i.j (
      "This person left and can still push to "
      + repo_name i.owner p
      + ", which you declared deploys to production, so this ranks one step higher."),
)
production_write_match i _ _ = none

unfoldable pub production_write : Declarations → Instance → Match
unfolding production_write_match
production_write d i =
    production_write_match i (attribute i.j "write") (map_get d.production i.owner)

public_match : Instance → Option Attribute → Match
public_match i none = none
public_match i (some a) = some (
  ref_of i.j a.ref,
  "This finding concerns a secret in an observed public repository, so the rating rises to critical. Credential usability was not tested.",
)

unfoldable pub public_repository : Declarations → Instance → Match
unfolding public_match
public_repository d i = public_match i (attribute i.j "public_repository")

abbrev row : String → Option (List String) → Bool → (Declarations → Instance → Match) → Rule
row name ids past match = record {
  name = name;
  ids = ids;
  past_high = past;
  lower = false;
  match = match;
  not_applied = none;
}

abbrev one_id : String → Option (List String)
one_id id = some (id ∷ [])

abbrev pub secret_ids : List String
secret_ids = "github.secret_scanning_open" ∷ "github.history_credential" ∷ []

-- The row that lowers: the first of the table.
abbrev pub exposed_row : Rule
exposed_row = record (row "exposed_on_purpose" none false exposed_on_purpose) { lower = true }

-- The rows that raise.
abbrev pub raising_rows : List Rule
raising_rows =
    row "data_matters_most" none false data_matters_most
    ∷ row "deploys_to:production" none false deploys_to_production
    ∷ row "exposure:internet" (some internet_ids) false exposure_internet
    ∷ row "contradiction" none true contradiction
    ∷ row "attribute:admin" (one_id "identity.former_person_has_access") true former_admin
    ∷ record (row "attribute:production_write" (one_id "identity.former_person_has_access") true
        production_write) { not_applied = some production_write_unsettled }
    ∷ row "attribute:admin" (one_id "workspace.external_forwarding") false (
        cites "admin"
          "This mailbox belongs to a super administrator, so this ranks one step higher.")
    ∷ row "attribute:admin_grantor" (one_id "workspace.oauth_broad_scope") false (
        cites "admin_grantor"
          "An administrator account granted this app, so this ranks one step higher.")
    ∷ row "attribute:public_repository" (some secret_ids) true public_repository
    ∷ []

-- `rules`: the table.
unfoldable pub rules : List Rule
rules = exposed_row ∷ raising_rows
