-- ===== src/Samples/Paths.antt =====
-- Paths that the policy decides on, and texts that the redaction pass rewrites.
use scheck.Prelude.{
  String, ℕ, ◌≡◌, ◌≢◌, ◌↔◌, refl, Bool, true, false, not, ◌&&◌, none, some, List, [], ◌∷◌, any, all,
  All, contains, string_eq,
}
use scheck.Prelude.Strings.{has_prefix, has_infix, trim_prefix, split, cons_head, join, codes}
use scheck.Prelude.Sort.{sort_stable}
use scheck.Policy.Clean.{clean, elements, push_all, push, pop, base, last_or}
use scheck.Policy.Path.{
  PathPolicy, new_path_policy, decide, allow, under_prefix, hits, allowed_content, all_but_last,
  segments,
}
use scheck.Policy.Path.Tables.{sensitive_rules, allowed_prefixes}
use scheck.Policy.Path.Sensitive.{decide-allow_iff}
use scheck.Policy.Path.Secrets.{ssh_dir_not_allowed}
use scheck.Policy.Redact.{Bytes, RedactRule, redact_up_to, collect, before}
use scheck.Policy.Redact.Pieces.{pieces, render}
use scheck.Policy.Redact.Hidden.{Hides, redact_up_to-Hides}

abbrev pub policy : PathPolicy
policy = new_path_policy ("/etc/internal" ∷ [])

decide-allow_iff_example : ((decide policy "/etc/hosts").decision ≡ allow) ↔ (
    (has_prefix (clean "/etc/hosts") "/" ≡ true)
    × (any (under_prefix (clean "/etc/hosts")) policy.extra_deny ≡ false)
    × (any (hits (clean "/etc/hosts")) sensitive_rules ≡ false)
    × (allowed_content (clean "/etc/hosts") ≡ true))
decide-allow_iff_example = decide-allow_iff policy "/etc/hosts"

ssh_dir : contains (all_but_last (segments (clean "/etc/x/.ssh/config"))) ".ssh" ≡ true
unfolding all_but_last clean elements push_all push pop has_prefix trim_prefix split cons_head join
ssh_dir = refl

ssh_dir_not_allowed_example : (decide policy "/etc/x/.ssh/config").decision ≢ allow
ssh_dir_not_allowed_example = ssh_dir_not_allowed policy "/etc/x/.ssh/config" ssh_dir

tls_base : base (clean "/etc/ssl/tls.key") ≡ "tls.key"
unfolding base last_or clean elements push_all push pop has_prefix split cons_head join
tls_base = refl

-- A key that ends, one that is taken to run to the end of the text, and a password inside the first.
abbrev key_rules : List RedactRule
key_rules = rule_at "private-key" 2 9 ∷ rule_at "private-key" 2 16 ∷ rule_at "kv-secret" 3 5 ∷ []
  where
    rule_at : String → ℕ → ℕ → RedactRule
    rule_at name start stop = record {
      name = name;
      find_all = λ b. record { group = some (start, stop); key = none } ∷ [];
      keep_if = none;
      skip_key = none;
    }

abbrev text : Bytes
text = codes "k='-----KEY-----"

redact_up_to-Hides_example :
    ((redact_up_to key_rules text 16).0
      ≡ render text (pieces 16 0 (sort_stable before (collect text 0 key_rules))))
    × All
        (λ s.
          All
            (Hides (collect text 0 key_rules) s)
            (pieces 16 0 (sort_stable before (collect text 0 key_rules))))
        (collect text 0 key_rules)
redact_up_to-Hides_example = redact_up_to-Hides key_rules text 16

-- No pattern of the tables holds a character that only `path.Match` gives a meaning.
no_class : String → Bool
no_class s = not (has_infix s "?") && not (has_infix s "[") && not (has_infix s "\\")

allowed_prefixes-no_class : all no_class allowed_prefixes ≡ true
unfolding no_class allowed_prefixes has_infix has_prefix
allowed_prefixes-no_class = refl

sensitive_rules-no_class : all (λ r. no_class r.pattern) sensitive_rules ≡ true
unfolding no_class sensitive_rules has_infix has_prefix
sensitive_rules-no_class = refl
