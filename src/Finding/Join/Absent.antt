-- ===== src/Finding/Join/Absent.antt =====
-- The join without its second fact.
use scheck.Prelude.{Bool, false, none, List, [], ◌∷◌, any, map, ◌≡◌, ◌≢◌, refl, arith, any-append}
use scheck.Check.Record.{Record, Parsed, kv, raw, lines, records, absent}
use scheck.Finding.Predicate.{matched}
use scheck.Finding.Join.{
  StatusWithLoginShell, outcome, told, sort_accounts, decide_records, decide, shells_of,
}
use scheck.Finding.Join.Told.{fires}
use scheck.Finding.Join.Verdicts.{decide_records_accounts, undecided_none}

none-fires : (recs : List Record) → any fires (map (outcome none) recs) ≡ false
unfolding outcome told
none-fires [] = refl
none-fires (rec ∷ recs) = none-fires recs

decide_records-none :
    (p : StatusWithLoginShell) (is_part : Bool) (recs : List Record)
    → (decide_records p is_part none recs).verdict.status ≢ matched
unfolding decide_records
decide_records-none p is_part [] h = cc
decide_records-none p is_part (rec ∷ recs) h = ground (
  arith,
  (decide_records_accounts p is_part none rec recs).0.0 h,
  any-append fires (sort_accounts p (rec ∷ recs)).0
      (map (outcome none) (sort_accounts p (rec ∷ recs)).1),
  none-fires (sort_accounts p (rec ∷ recs)).1,
  undecided_none p (rec ∷ recs),
)

-- Without a second fact the join never fires.
pub decide-absent :
    (p : StatusWithLoginShell) (x : Parsed) → (decide p x absent).verdict.status ≢ matched
unfolding decide shells_of
decide-absent p (kv m) h = cc
decide-absent p (raw s) h = cc
decide-absent p (lines ls) h = cc
decide-absent p (records r) h = decide_records-none p r.is_partial r.items h
decide-absent p absent h = cc
