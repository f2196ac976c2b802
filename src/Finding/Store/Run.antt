-- ===== src/Finding/Store/Run.antt =====
-- internal/finding/store.go: a run of the store, as the sequence of the calls that the model makes of it.
use scheck.Prelude.{List, [], ◌∷◌}
use scheck.Finding.Cited.{Checked, accepted, refused, Ensures}
use scheck.Finding.Candidate.{Candidate}
use scheck.Finding.Store.{Store, report, rule_out}

-- The store that a checked operation leaves: a refusal leaves the old one.
unfoldable pub kept : {A : Type 0} → (A → Store) → Store → Checked A → Store
kept read s (accepted a) = read a
kept read s (refused why) = s

-- What the model calls, and the store that it leaves.
pub data Op : Type 0 where
  reports rules_out : Candidate → Op

unfoldable pub apply : Store → Op → Store
apply s (reports c) = kept (λ r. r.0) s (report s c)
apply s (rules_out c) = kept (λ t. t) s (rule_out s c)

unfoldable pub run : Store → List Op → Store
run s [] = s
run s (op ∷ ops) = run (apply s op) ops

pub kept-Ensures :
    {A : Type 0} (P : Store → Type 0) (read : A → Store) (s : Store) (r : Checked A)
    → P s
    → Ensures (λ a. P (read a)) r
    → P (kept read s r)
unfolding kept
kept-Ensures P read s (accepted a) h k = k
kept-Ensures P read s (refused why) h k = h
