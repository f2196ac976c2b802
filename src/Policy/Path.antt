-- ===== src/Policy/Path.antt =====
-- internal/policy/path.go: whether a path that was resolved on the target may be read.
pub mod Tables
pub mod Order
pub mod Secrets
pub mod Sensitive
use scheck.Prelude.{
  String, Bool, true, false, not, ◌&&◌, ◌||◌, Option, none, some, List, [], ◌∷◌, ◌++◌, any,
  find_first, is_some, contains, ◌==◌, string_eq, if◌then◌else◌,
}
use scheck.Prelude.Strings.{◌+◌, has_prefix, has_suffix, trim_prefix, split}
use scheck.Policy.Glob.{glob}
use scheck.Policy.Clean.{clean, base}
use Tables.{
  Kind, SensitiveRule, match_full, match_base, match_component, allowed_prefixes, metadata_prefixes,
  sensitive_rules,
}

-- `PathDecision`.
pub data PathDecision : Type 0 where
  deny allow metadata_only : PathDecision

-- `PathVerdict`.
pub record PathVerdict : Type 0 where
  pub decision : PathDecision
  pub rule : String

abbrev verdict : PathDecision → String → PathVerdict
verdict d r = record { decision = d; rule = r }

under_root : String → String → Bool
under_root p root = p == root || has_prefix p (root + "/")

-- `Canonical`.
pub canonical : String → Bool → String
canonical p mac_os =
    if mac_os && any (under_root p) ("/private/etc" ∷ "/private/var" ∷ "/private/tmp" ∷ [])
    then trim_prefix p "/private"
    else p

-- `underPrefix`.
unfoldable pub under_prefix : String → String → Bool
under_prefix p prefix = p == prefix || has_prefix p (prefix + "/")

-- Each leading segment matches the pattern that stands in its place.
pub segments_match : List String → List String → Bool
segments_match ps [] = true
segments_match [] (g ∷ gs) = false
segments_match (p ∷ ps) (g ∷ gs) = glob g p && segments_match ps gs

abbrev pub segments : String → List String
segments p = split (trim_prefix p "/") b'/'

-- `underGlobPrefix`.
unfoldable pub under_glob_prefix : String → String → Bool
under_glob_prefix p pattern = segments_match (segments p) (segments pattern)

-- `allowedContent`.
unfoldable pub allowed_content : String → Bool
allowed_content p = any (under_glob_prefix p) allowed_prefixes

pub rule_of : Option (String × String) → Option String
rule_of none = none
rule_of (some (prefix, rule)) = some rule

-- `metadataPrefix`; the prefixes of its map do not overlap, so one order stands for all.
unfoldable pub metadata_prefix : String → Option String
metadata_prefix p =
    rule_of (find_first (λ (x : String × String). under_prefix p x.0) metadata_prefixes)

unfoldable pub all_but_last : List String → List String
all_but_last [] = []
all_but_last (s ∷ []) = []
all_but_last (s ∷ t ∷ rest) = s ∷ all_but_last (t ∷ rest)

-- The `switch` of `sensitive`: whether a rule decides on a path.
unfoldable pub hits : String → SensitiveRule → Bool
hits p r = elim r.kind [
  | match_full ↦ glob r.pattern p
  | match_base ↦
      glob r.pattern (base p) && not (r.name == "ssh_identity" && has_suffix (base p) ".pub")
  | match_component ↦ contains (all_but_last (segments p)) r.pattern
]

pub name_of : Option SensitiveRule → Option String
name_of none = none
name_of (some r) = some r.name

-- `sensitive`: the name of the first rule that decides.
unfoldable pub sensitive : String → Option String
sensitive p = name_of (find_first (hits p) sensitive_rules)

-- `PathPolicy`.
pub record PathPolicy : Type 0 where
  pub extra_deny : List String

denied_prefix : String → List String
denied_prefix d = let d' = clean d in if not (d' == "/") && has_prefix d' "/" then d' ∷ [] else []

pub denied_prefixes : List String → List String
denied_prefixes [] = []
denied_prefixes (d ∷ ds) = denied_prefix d ++ denied_prefixes ds

-- `NewPathPolicy`.
unfoldable pub new_path_policy : List String → PathPolicy
new_path_policy ds = record { extra_deny = denied_prefixes ds }

-- The decision from the name of a sensitive rule, whether the tree is allowed, and the metadata rule.
unfoldable pub classify_by : Option String → Bool → Option String → PathVerdict
classify_by (some name) allowed metadata =
    if allowed || is_some metadata
    then verdict metadata_only ("path.sensitive:" + name)
    else verdict deny "path.not_allowed"
classify_by none true metadata = verdict allow ""
classify_by none false (some rule) = verdict metadata_only rule
classify_by none false none = verdict deny "path.not_allowed"

-- What `Decide` answers for a cleaned path that no denied prefix covers.
unfoldable pub classify : String → PathVerdict
classify p = classify_by (sensitive p) (allowed_content p) (metadata_prefix p)

unfoldable pub decide_by : Bool → Bool → PathVerdict → PathVerdict
decide_by false denied v = verdict deny "path.not_allowed"
decide_by true true v = verdict deny "path.config_deny"
decide_by true false v = v

-- `PathPolicy.Decide`.
unfoldable pub decide : PathPolicy → String → PathVerdict
decide pp path =
    let p = clean path in
    decide_by (has_prefix p "/") (any (under_prefix p) pp.extra_deny) (classify p)
