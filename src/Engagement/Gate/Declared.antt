-- ===== src/Engagement/Gate/Declared.antt =====
-- internal/engagement/gate/op.go and throttle.go: what an operation declares of its request, the table of the providers,
-- and the rules of its validation.
use scheck.Prelude.{String, Bool, true, false, List, [], ◌∷◌, if◌then◌else◌}

-- `Level`, `Method`, `Class` and `Auth`; a value that is none of the declared ones is an `other`.
pub data Level : Type 0 where
  passive observe probe scan other_level : Level

pub data Method : Type 0 where
  get head post tls other_method : Method

pub data Class : Type 0 where
  read principal credential_exchange other_class : Class

pub data Auth : Type 0 where
  no_auth github_token workspace_adc : Auth

-- `ParamType`.
pub data ParamType : Type 0 where
  no_type login repo_name dns_name host_type scheme_type url_path cursor count user_key : ParamType
  branch_name commit_sha workflow_file secret_name alert_number customer_id collaborator_login :
      ParamType

-- `Param`.
pub record Param : Type 0 where
  pub name : String
  pub type : ParamType
  pub optional : Bool

-- `Op`, less what it declares of its response.
pub record Op : Type 0 where
  pub id : String
  pub provider : String
  pub api_version : String
  pub method : Method
  pub url : String
  pub subject : String
  pub params : List Param
  pub class : Class
  pub level : Level
  pub auth : Auth

-- `provider`, what validation reads of it.
pub record Provider : Type 0 where
  pub web : Bool
  pub hosts : List String

-- `providers`.
pub providers : List (String × Provider)
providers =
    ("github", record { web = false; hosts = "api.github.com" ∷ [] })
    ∷ (
      "google",
      record {
        web = false;
        hosts = "admin.googleapis.com" ∷ "gmail.googleapis.com" ∷ "oauth2.googleapis.com" ∷ [];
      },
    )
    ∷ ("crt.sh", record { web = false; hosts = "crt.sh" ∷ [] })
    ∷ ("web", record { web = true; hosts = [] })
    ∷ []

-- The rules that an operation may break.
pub data Rule : Type 0 where
  no_id unknown_provider wrong_version no_level post_not_exchange unknown_method exchange_not_post
        unknown_class :
      Rule
  reads_credentials bad_template untyped_param param_twice path_not_url_path path_not_web
        exchange_takes_params :
      Rule
  not_https not_a_provider_host not_token_endpoint not_token_path bad_web_url web_credential
        web_not_read web_query :
      Rule
  web_subject not_declared optional_not_whole bad_escape no_subject has_subject
        target_not_in_subject :
      Rule
  query_not_in_subject unused_param : Rule

pub data Validated {ℓ} (A : Type ℓ) : Type ℓ where
  valid : A → Validated A
  broken : Rule → Validated A

infixl 10 ◌>>=◌
abbrev pub ◌>>=◌ {ℓ κ} : {A : Type ℓ} {B : Type κ} → Validated A → (A → Validated B) → Validated B
valid a >>= f = f a
broken e >>= f = broken e

-- The checks of a step, in their order: each with the rule that is broken if it fails.
abbrev pub Checks : Type 0
Checks = List (Bool × Rule)

unfoldable pub check_all : Checks → Validated Bool
check_all [] = valid true
check_all ((holds, rule) ∷ rest) =
    let later = check_all rest in if holds then later else broken rule
