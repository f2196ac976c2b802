-- ===== src/Policy/Path/Sensitive.antt =====
-- What the path policy never lets be read, and what it lets be read.
use scheck.Prelude.{
  ◌≡◌, ◌∙◌, ◌↔◌, String, Bool, true, false, Option, any, is_some, is_some-find_first, arith,
  string_eq,
}
use scheck.Prelude.Strings.{has_prefix}
use scheck.Policy.Clean.{clean}
use scheck.Policy.Path.{
  allow, PathPolicy, decide, decide_by, classify, classify_by, name_of, under_prefix, sensitive,
  hits, allowed_content,
}
use scheck.Policy.Path.Tables.{sensitive_rules, SensitiveRule}

is_some-name_of : (o : Option SensitiveRule) → is_some (name_of o) ≡ is_some o
unfolding name_of
is_some-name_of o = ground arith

sensitive-any : (p : String) → is_some (sensitive p) ≡ any (hits p) sensitive_rules
unfolding sensitive
sensitive-any p = is_some-name_of _ ∙ is_some-find_first (hits p) sensitive_rules

decide_by-allow :
    (rooted denied : Bool) (name : Option String) (allowed : Bool) (metadata : Option String)
    → ((decide_by rooted denied (classify_by name allowed metadata)).decision ≡ allow)
      ↔ ((rooted ≡ true) × (denied ≡ false) × (is_some name ≡ false) × (allowed ≡ true))
unfolding decide_by classify_by
decide_by-allow rooted denied name allowed metadata = ground arith

-- A path is allowed exactly when its cleaned form is absolute, no denied prefix covers it, no
-- sensitive rule decides on it, and it stands in an allowed tree.
pub decide-allow_iff :
    (pp : PathPolicy) (path : String)
    → ((decide pp path).decision ≡ allow) ↔ (
        (has_prefix (clean path) "/" ≡ true)
        × (any (under_prefix (clean path)) pp.extra_deny ≡ false)
        × (any (hits (clean path)) sensitive_rules ≡ false)
        × (allowed_content (clean path) ≡ true))
unfolding decide classify
decide-allow_iff pp path = rw (← sensitive-any (clean path)) (decide_by-allow _ _ _ _ _)
