-- ===== src/Engagement/Gate/Uses.antt =====
-- internal/engagement/gate/op.go: which placeholders an operation's templates use, and what of them may vary within its
-- subject, with the exemptions of github_ci.go and workspace.go. The decoding of a query is Go's net/url, a parameter.
use scheck.Prelude.{
  String, Bool, true, false, not, ◌&&◌, ◌||◌, Option, none, some, List, [], ◌∷◌, ◌++◌, map, all,
  contains, keep, map_get, is_some, ◌==◌, nat_eq, string_eq, if◌then◌else◌,
}
use scheck.Prelude.Strings.{◌+◌, split}
use scheck.Engagement.Gate.Declared.{
  Class, read, Auth, workspace_adc, ParamType, no_type, cursor, count, branch_name, commit_sha,
  workflow_file, secret_name, alert_number, customer_id, collaborator_login, Param, Op, Provider,
  not_declared, optional_not_whole, bad_escape, no_subject, has_subject, target_not_in_subject,
  query_not_in_subject, unused_param, Checks,
}
use scheck.Engagement.Gate.Template.{cut, whole_if_none, placeholders, is_placeholder, Template}

unfoldable pub is_read : Class → Bool
is_read read = true
is_read _ = false

types_of : List Param → List (String × Param)
types_of ps = map (λ p. (p.name, p)) ps

or_untyped : Option Param → Param
or_untyped none = record { name = ""; type = no_type; optional = false }
or_untyped (some p) = p

-- `c.types[name]`.
pub type_of : Op → String → Param
type_of op name = or_untyped (map_get (types_of op.params) name)

-- The text of the template whose placeholders pick the target.
pub target : Template → String
target t = t.scheme + ("://" + (t.host + t.path))

-- The subject: that of a web operation is its URL.
pub subject_of : Op → Provider → Template → String
subject_of op prov t = if prov.web then "url:" + target t else op.subject

-- `uses.in`.
pub use_checks : Op → Bool → List String → Checks
use_checks op whole [] = []
use_checks op whole (n ∷ ns) =
    (is_some (map_get (types_of op.params) n), not_declared)
    ∷ (not (type_of op n).optional || whole, optional_not_whole)
    ∷ use_checks op whole ns

-- One `key=value` of the query, decoded; `none` is an escape that is not a URL's.
decoded : Option String → Option String → Option (String × String)
decoded (some k) (some v) = some (k, v)
decoded _ _ = none

key_value : (String → Option String) → String → Option (String × String)
key_value unescape kv =
    let (k, v) = whole_if_none kv (cut kv "=") in decoded (unescape k) (unescape v)

query_value : Op → Option (String × String) → Checks
query_value op none = (false, bad_escape) ∷ []
query_value op (some (k, v)) = use_checks op (is_placeholder v) (placeholders v)

query_checks : Op → List (Option (String × String)) → Checks
query_checks op [] = []
query_checks op (q ∷ qs) = query_value op q ++ query_checks op qs

-- The parts of the query, decoded.
pub query_parts : (String → Option String) → Template → List (Option (String × String))
query_parts unescape t = map (key_value unescape) (keep (λ kv. not (kv == "")) (split t.query b'&'))

-- `uses.template`.
pub template_uses : (String → Option String) → Op → Template → Checks
template_uses unescape op t =
    use_checks op false (placeholders (t.scheme + ("://" + t.host)))
    ++ (use_checks op false (placeholders t.path) ++ query_checks op (query_parts unescape t))

-- `ciResource`, `workspaceResource` and `collaboratorResource`.
ci_resource : ParamType → Bool
ci_resource branch_name = true
ci_resource commit_sha = true
ci_resource workflow_file = true
ci_resource secret_name = true
ci_resource alert_number = true
ci_resource _ = false

is_customer : ParamType → Bool
is_customer customer_id = true
is_customer _ = false

is_collaborator : ParamType → Bool
is_collaborator collaborator_login = true
is_collaborator _ = false

is_workspace : Auth → Bool
is_workspace workspace_adc = true
is_workspace _ = false

is_page : ParamType → Bool
is_page cursor = true
is_page count = true
is_page _ = false

workspace_resource : Op → String → Bool
workspace_resource op n = is_workspace op.auth && n == "customer" && is_customer (type_of op n).type

-- What may vary in the path beside the subject.
pub exempt : Op → String → Bool
exempt op n =
    ci_resource (type_of op n).type
    || workspace_resource op n
    || is_collaborator (type_of op n).type

pub query_exempt : Op → String → Bool
query_exempt op n =
    is_page (type_of op n).type || ci_resource (type_of op n).type || workspace_resource op n

pub names_of_query : List (Option (String × String)) → List String
names_of_query [] = []
names_of_query (none ∷ qs) = names_of_query qs
names_of_query (some (k, v) ∷ qs) = placeholders v ++ names_of_query qs

-- `uses.subject`.
unfoldable pub subject_checks : (String → Option String) → Op → Provider → Template → Checks
subject_checks unescape op prov t =
    let subject = subject_of op prov t in
    let inside = placeholders subject in
    (not (is_read op.class) || not (subject == ""), no_subject)
    ∷ (is_read op.class || subject == "", has_subject)
    ∷ (use_checks op false inside
        ++ ((
          all (λ n. contains inside n || exempt op n) (placeholders (target t)),
          target_not_in_subject,
        )
            ∷ (
              all (λ n. contains inside n || query_exempt op n)
                  (names_of_query (query_parts unescape t)),
              query_not_in_subject,
            )
            ∷ []))

-- `uses.unused`.
pub unused_checks : (String → Option String) → Op → Provider → Template → Checks
unused_checks unescape op prov t =
    let seen =
      placeholders (target t)
      ++ (names_of_query (query_parts unescape t) ++ placeholders (subject_of op prov t)) in
    (all (λ p. contains seen p.name) op.params, unused_param) ∷ []
