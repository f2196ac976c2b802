-- ===== src/Policy/Path/Secrets.antt =====
-- Files whose content is never read, by name and by directory.
use Prim.Native.Char.{Char, code}
use Prim.Native.String.append
use scheck.Prelude.{
  ℕ, ◌≡◌, ◌≢◌, refl, sym, subst, String, true, some, get_elem?, any-get_elem?, contains, string_eq,
}
use scheck.Prelude.Strings.{◌+◌, Free}
use scheck.Policy.Clean.{clean, base}
use scheck.Policy.Glob.{glob}
use scheck.Policy.Glob.Laws.{Matches, glob_iff}
use scheck.Policy.Path.{PathPolicy, allow, decide, hits, segments, all_but_last}
use scheck.Policy.Path.Sensitive.{decide-allow_iff}
use scheck.Policy.Path.Tables.{sensitive_rules, SensitiveRule}

-- A star and then `p` match a name and then what `p` matches.
Matches-star :
    (c : Char) (p s t : String)
    → code c ≡ b'*'
    → Free b'/' s
    → Matches p t
    → Matches (String.◌∷◌ c p) (s + t)
Matches-star c p String.[] t e n m =
    subst (Matches (String.◌∷◌ c p)) (sym (append.nil t)) (Matches.leave e m)
Matches-star c p (String.◌∷◌ x s) t e n m =
    subst (Matches (String.◌∷◌ c p)) (sym (append.cons x s t))
      (Matches.take e n.0 (Matches-star c p s t e n.1 m))

glob-key : (name : String) → Free b'/' name → glob "*.key" (name + ".key") ≡ true
unfolding glob
glob-key name n =
    (glob_iff "*.key" (name + ".key")).1
      (Matches-star "*" ".key" name ".key" refl n ((glob_iff ".key" ".key").0 refl))

module _ (pp : PathPolicy) (path : String) where
  -- A rule of the table that decides on the cleaned path keeps its content from being read.
  not-allowed :
      (i : ℕ) (r : SensitiveRule)
      → get_elem? sensitive_rules i ≡ some r
      → hits (clean path) r ≡ true
      → (decide pp path).decision ≢ allow
  not-allowed i r e h a =
      let hit = any-get_elem? (hits (clean path)) sensitive_rules i r e h in
      let (_, _, none_hits, _) = (decide-allow_iff pp path).0 a in cc

  -- Whatever the policy, nothing under a directory `.ssh` is read.
  pub ssh_dir_not_allowed :
      contains (all_but_last (segments (clean path))) ".ssh" ≡ true
      → (decide pp path).decision ≢ allow
  unfolding hits sensitive_rules
  ssh_dir_not_allowed h = not-allowed 14 _ refl h

  -- Whatever the policy, no file is read whose name ends in `.key`.
  key_file_not_allowed :
      (name : String)
      → Free b'/' name
      → base (clean path) ≡ name + ".key"
      → (decide pp path).decision ≢ allow
  unfolding hits sensitive_rules
  key_file_not_allowed name n e = not-allowed 7 _ refl (rw e (rw (glob-key name n)))
