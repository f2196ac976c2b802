-- ===== src/Engagement/Gate/Operation.antt =====
-- internal/engagement/gate/op.go: the validation of an operation up to what it says of its response. The
-- decoding of an escaped path or query is Go's net/url, a parameter.
pub mod Safe
use scheck.Prelude.{
  String, ℕ, Bool, true, false, not, ◌&&◌, ◌||◌, Option, none, some, List, [], ◌∷◌, ◌++◌, map, any,
  all, contains, keep, map_get, is_some, leb, ◌==◌, nat_eq, string_eq, if◌then◌else◌, ◌≡◌,
}
use scheck.Prelude.Strings.{◌+◌, has_prefix, has_infix, to_lower, split}
use scheck.Engagement.Gate.Declared.{
  Level, passive, observe, probe, scan, other_level, Method, get, head, post, tls, other_method,
  Class, read, principal, credential_exchange, other_class, Auth, no_auth, github_token,
  workspace_adc, ParamType, no_type, login, repo_name, dns_name, host_type, scheme_type, url_path,
  cursor, count, user_key, branch_name, commit_sha, workflow_file, secret_name, alert_number,
  customer_id, collaborator_login, Param, Op, Provider, providers, Rule, no_id, unknown_provider,
  wrong_version, no_level, post_not_exchange, unknown_method, exchange_not_post, unknown_class,
  reads_credentials, bad_template, untyped_param, param_twice, path_not_url_path, path_not_web,
  exchange_takes_params, not_https, not_a_provider_host, not_token_endpoint, not_token_path,
  bad_web_url, web_credential, web_not_read, web_query, web_subject, not_declared,
  optional_not_whole, bad_escape, no_subject, has_subject, target_not_in_subject,
  query_not_in_subject, unused_param, Validated, valid, broken, ◌>>=◌, Checks, check_all,
}
use scheck.Engagement.Gate.Template.{
  cut, whole_if_none, placeholders, is_placeholder, Template, template,
}
use scheck.Engagement.Gate.Uses.{
  is_read, type_of, target, subject_of, template_uses, subject_checks, unused_checks,
}

is_level : Level → Bool
is_level other_level = false
is_level _ = true

pub is_post : Method → Bool
is_post post = true
is_post _ = false

is_method : Method → Bool
is_method other_method = false
is_method _ = true

pub is_exchange : Class → Bool
is_exchange credential_exchange = true
is_exchange _ = false

is_class : Class → Bool
is_class other_class = false
is_class _ = true

pub is_no_auth : Auth → Bool
is_no_auth no_auth = true
is_no_auth _ = false

or_as_written : String → Option String → String
or_as_written s none = s
or_as_written s (some d) = d

-- `neverReadIn`, whether it finds a segment.
pub never_read_in : (String → Option String) → String → Bool
never_read_in unescape s = has_infix (to_lower (or_as_written s (unescape s))) "/verificationcodes"

-- `checkDeclaration`, of an operation and its provider.
declaration : (String → Option String) → Op → Option Provider → Checks
declaration unescape op prov =
    (not (op.id == ""), no_id)
    ∷ (is_some prov, unknown_provider)
    ∷ (
      op.api_version == "" || (op.provider == "github" && op.api_version == "2026-03-10"),
      wrong_version,
    )
    ∷ (is_level op.level, no_level)
    ∷ (not (is_post op.method) || is_exchange op.class, post_not_exchange)
    ∷ (is_method op.method, unknown_method)
    ∷ (not (is_exchange op.class) || is_post op.method, exchange_not_post)
    ∷ (is_class op.class, unknown_class)
    ∷ (not (never_read_in unescape op.url), reads_credentials)
    ∷ []

template_checks : Op → Template → Checks
template_checks op t =
    (
      t.has_scheme
          && not (t.host == "")
          && (has_prefix t.path "/" || is_placeholder t.path)
          && not (has_infix op.url "#" || has_infix op.url "@" || has_infix op.url " "),
      bad_template,
    )
    ∷ []

is_typed : ParamType → Bool
is_typed no_type = false
is_typed _ = true

is_url_path : ParamType → Bool
is_url_path url_path = true
is_url_path _ = false

-- The loop that fills `types`.
declared_checks : List String → List Param → Checks
declared_checks seen [] = []
declared_checks seen (p ∷ ps) =
    (not (p.name == "") && is_typed p.type, untyped_param)
    ∷ (not (contains seen p.name), param_twice)
    ∷ declared_checks (p.name ∷ seen) ps

is_nil : List Param → Bool
is_nil [] = true
is_nil (p ∷ ps) = false

-- `declareParams`.
param_checks : Op → Provider → Template → Checks
param_checks op prov t =
    declared_checks [] op.params
    ++ ((
      not (is_placeholder t.path)
          || all (λ n. is_url_path (type_of op n).type) (placeholders t.path),
      path_not_url_path,
    )
        ∷ (prov.web || all (λ p. not (is_url_path p.type)) op.params, path_not_web)
        ∷ (
          is_read op.class || (is_nil op.params && not (has_infix op.url "{")),
          exchange_takes_params,
        )
        ∷ [])

-- `workspaceTokenURL` and `tokenEndpoints`.
pub token_url : String
token_url = "https://oauth2.googleapis.com/token"

token_endpoints : List String
token_endpoints = "oauth2.googleapis.com" ∷ []

api_destination : Op → Provider → Template → Checks
api_destination op prov t =
    (t.scheme == "https", not_https)
    ∷ (not (has_infix t.host "{") && contains prov.hosts t.host, not_a_provider_host)
    ∷ (not (is_exchange op.class) || contains token_endpoints t.host, not_token_endpoint)
    ∷ (not (is_exchange op.class) || op.url == token_url, not_token_path)
    ∷ []

web_destination : Op → Template → Checks
web_destination op t =
    (
      (t.scheme == "{scheme}" || t.scheme == "https" || t.scheme == "http") && t.host == "{host}",
      bad_web_url,
    )
    ∷ (is_no_auth op.auth, web_credential)
    ∷ (is_read op.class, web_not_read)
    ∷ (t.query == "", web_query)
    ∷ (op.subject == "", web_subject)
    ∷ []

-- `checkDestination`.
destination : Op → Provider → Template → Checks
destination op prov t = if prov.web then web_destination op t else api_destination op prov t

-- `compiled`, of what is validated here.
pub record Compiled : Type 0 where
  pub op : Op
  pub template : Template
  pub subject : String

no_provider : Provider
no_provider = record { web = false; hosts = [] }

or_none : Option Provider → Provider
or_none none = no_provider
or_none (some p) = p

-- The provider of an operation.
pub provider_of : Op → Provider
provider_of op = or_none (map_get providers op.provider)

-- `validate` up to what the operation says of its response, with the decoding of a path and that of a query.
pub validate : (String → Option String) → (String → Option String) → Op → Validated Compiled
validate path_unescape query_unescape op = do
  let t = template op.url
  let prov = provider_of op
  declared ← check_all (declaration path_unescape op (map_get providers op.provider))
  shaped ← check_all (template_checks op t)
  typed ← check_all (param_checks op prov t)
  placed ← check_all (destination op prov t)
  used ← check_all (template_uses query_unescape op t)
  subjected ← check_all (subject_checks query_unescape op prov t)
  all_used ← check_all (unused_checks query_unescape op prov t)
  valid (record { op = op; template = t; subject = subject_of op prov t })
