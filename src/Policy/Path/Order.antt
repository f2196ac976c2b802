-- ===== src/Policy/Path/Order.antt =====
-- Denials: config can only add them.
use scheck.Prelude.{
  ℕ, ◌≤◌, ◌≡◌, refl, String, Bool, ◌||◌, List, [], ◌∷◌, ◌++◌, any-append, arith, string_eq,
}
use mathlib.Core.List.{append_assoc}
use scheck.Policy.Clean.{clean}
use scheck.Policy.Path.{
  PathDecision, deny, allow, metadata_only, PathVerdict, decide, decide_by, classify,
  new_path_policy, denied_prefixes, under_prefix,
}

-- How much a decision lets be read: nothing, metadata, content.
abbrev pub permits : PathDecision → ℕ
permits deny = 0
permits metadata_only = 1
permits allow = 2

denied_prefixes-append :
    (ds es : List String) → denied_prefixes (ds ++ es) ≡ denied_prefixes ds ++ denied_prefixes es
unfolding denied_prefixes
denied_prefixes-append [] es = refl
denied_prefixes-append (d ∷ ds) es = rw (denied_prefixes-append ds es) (rw append_assoc)

decide_by-le :
    (rooted denied more : Bool) (v : PathVerdict)
    → permits (decide_by rooted (denied || more) v).decision
      ≤ permits (decide_by rooted denied v).decision
unfolding decide_by
decide_by-le rooted denied more v = ground arith

-- A policy with more denied prefixes permits no more.
decide-le :
    (xs ys : List String) (p : String)
    → permits (decide (record { extra_deny = xs ++ ys }) p).decision
      ≤ permits (decide (record { extra_deny = xs }) p).decision
unfolding decide
decide-le xs ys p =
    rw (any-append (under_prefix (clean p)) xs ys) (decide_by-le _ _ _ (classify (clean p)))

-- Config can only add denials: with further `deny_paths`, no path is permitted more than without.
more_denials :
    (ds es : List String) (p : String)
    → permits (decide (new_path_policy (ds ++ es)) p).decision
      ≤ permits (decide (new_path_policy ds) p).decision
unfolding new_path_policy
more_denials ds es p = rw denied_prefixes-append (decide-le _ _ p)
