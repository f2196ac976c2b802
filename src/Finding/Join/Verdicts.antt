-- ===== src/Finding/Join/Verdicts.antt =====
-- The verdict of the join, from the answers that its accounts got.
use scheck.Prelude.{
  String, Bool, true, false, not, ◌&&◌, ◌||◌, Option, List, [], ◌∷◌, ◌++◌, any, all, map, ◌≡◌, All,
  ◌∙◌, refl, ◌↔◌, ◌⊎◌, inl, inr, arith, ◌==◌, string_eq, any-append, Bool-cases,
}
use scheck.Check.Record.{Record, Records}
use scheck.Finding.Predicate.{Status, matched, not_matched, not_assessed, not_applicable}
use scheck.Finding.Join.{
  StatusWithLoginShell, unread_account, AccountOutcome, outcome, Sums, sums, add_status, verdict_of,
  refused_verdict, some_account, no_sums, sort_accounts, add_sorted, sorted, Sorted, odd, candidate,
  other, undecided, decide_records,
}
use scheck.Finding.Join.Told.{is_matched, is_not_matched, fires, refuses, Told, outcomes-Told}

-- Whether a list of texts is empty.
abbrev has_text : List String → Bool
has_text [] = false
has_text (x ∷ xs) = true

has_text-append : (xs : List String) (x : String) → has_text (xs ++ x ∷ []) ≡ true
has_text-append [] x = refl
has_text-append (y ∷ xs) x = refl

add-fired :
    (st : Status) (a : AccountOutcome) (s : Sums) (b : Bool)
    → (has_text (add_status st a s).fired || b) ≡ (has_text s.fired || (is_matched st || b))
unfolding add_status
add-fired matched a s b = ground (arith, has_text-append s.fired a.excerpt)
add-fired not_matched a s b = ground arith
add-fired not_applicable a s b = ground arith
add-fired not_assessed a s b = ground arith

sums-fired :
    (s : Sums) (rest : List AccountOutcome)
    → has_text (sums s rest).fired ≡ (has_text s.fired || any fires rest)
unfolding sums
sums-fired s [] = ground arith
sums-fired s (a ∷ rest) =
    sums-fired (add_status a.status a s) rest ∙ add-fired a.status a s (any fires rest)

-- The account got an answer.
abbrev answered : AccountOutcome → Bool
answered a = fires a || refuses a

answered-Told : (a : AccountOutcome) → Told a → (answered a ≡ true) ⊎ ((a.reason == "") ≡ false)
answered-Told a (inl h) = inl (rw h refl)
answered-Told a (inr (inl h)) = inl (rw h refl)
answered-Told a (inr (inr h)) = inr h.1

add-unknown :
    (st : Status) (a : AccountOutcome) (s : Sums) (b : Bool)
    → ((is_matched st || is_not_matched st) ≡ true) ⊎ ((a.reason == "") ≡ false)
    → (((add_status st a s).unknown == "") && b)
      ≡ ((s.unknown == "") && ((is_matched st || is_not_matched st) && b))
unfolding add_status
add-unknown matched a s b h = ground arith
add-unknown not_matched a s b h = ground arith
add-unknown not_applicable a s b h = ground arith
add-unknown not_assessed a s b h = ground arith

sums-unknown :
    (s : Sums) (rest : List AccountOutcome)
    → All Told rest
    → ((sums s rest).unknown == "") ≡ ((s.unknown == "") && all answered rest)
unfolding sums
sums-unknown s [] h = ground arith
sums-unknown s (a ∷ rest) h =
    sums-unknown (add_status a.status a s) rest h.1
    ∙ add-unknown a.status a s (all answered rest) (answered-Told a h.0)

verdict-matched :
    (is_part odds : Bool) (s : Sums)
    → ((verdict_of is_part odds s).status ≡ matched) ↔ (has_text s.fired ≡ true)
unfolding verdict_of refused_verdict
verdict-matched is_part odds s = ground arith

verdict-not_matched :
    (is_part odds : Bool) (s : Sums)
    → ((verdict_of is_part odds s).status ≡ not_matched) ↔ (
        (has_text s.fired ≡ false)
        × (is_part ≡ false)
        × (odds ≡ false)
        × ((s.unknown == "") ≡ true))
unfolding verdict_of refused_verdict
verdict-not_matched is_part odds s = ground arith

refuses-all :
    (rest : List AccountOutcome)
    → ((any fires rest ≡ false) × (all answered rest ≡ true)) ↔ (all refuses rest ≡ true)
refuses-all [] = ground arith
refuses-all (a ∷ rest) = ground (arith, refuses-all rest, both a.status)
  where
    both : (st : Status) → (is_matched st && is_not_matched st) ≡ false
    both st = ground arith

pub all-append {ℓ} :
    {A : Type ℓ} (p : A → Bool) (xs ys : List A) → all p (xs ++ ys) ≡ (all p xs && all p ys)
all-append p [] ys = refl
all-append p (x ∷ xs) ys = ground (arith, all-append p xs ys)

-- An undecided account neither fires nor refuses.
Idle : List AccountOutcome → Type 0
Idle rest = (any fires rest ≡ false) × (all refuses rest ≡ not (some_account rest))

has_answer : Sorted → Bool
has_answer (odd a) = fires a || refuses a
has_answer _ = false

verdict_iff :
    (is_part : Bool) (odds outcomes : List AccountOutcome)
    → Idle odds
    → All Told outcomes
    → (((verdict_of is_part (some_account odds) (sums no_sums outcomes)).status ≡ matched)
        ↔ (any fires (odds ++ outcomes) ≡ true))
      × (((verdict_of is_part (some_account odds) (sums no_sums outcomes)).status ≡ not_matched)
          ↔ ((is_part ≡ false) × (all refuses (odds ++ outcomes) ≡ true)))
unfolding Idle no_sums
verdict_iff is_part odds outcomes idle h = ground (
  arith,
  any-append fires odds outcomes,
  all-append refuses odds outcomes,
  refuses-all outcomes,
  sums-fired no_sums outcomes,
  sums-unknown no_sums outcomes h,
  verdict-matched is_part (some_account odds) (sums no_sums outcomes),
  verdict-not_matched is_part (some_account odds) (sums no_sums outcomes),
)

add_sorted-Idle :
    (rec : Record) (x : Sorted) (found : List AccountOutcome × List Record)
    → has_answer x ≡ false
    → Idle found.0
    → Idle (add_sorted rec x found).0
unfolding add_sorted Idle some_account has_answer
add_sorted-Idle rec (odd a) found h idle = ground (arith, h)
add_sorted-Idle rec candidate found h idle = idle
add_sorted-Idle rec other found h idle = idle

sorted-has_answer : (p : StatusWithLoginShell) (rec : Record) → has_answer (sorted p rec) ≡ false
unfolding sorted undecided has_answer
sorted-has_answer p rec = elim (Bool-cases (unread_account p rec)) [
  | inl e ↦ rw e refl
  | inr e ↦ rw e (ground arith)
]

sort_accounts-Idle : (p : StatusWithLoginShell) (recs : List Record) → Idle (sort_accounts p recs).0
unfolding sort_accounts Idle some_account
sort_accounts-Idle p [] = (refl, refl)
sort_accounts-Idle p (rec ∷ recs) =
    add_sorted-Idle rec (sorted p rec) (sort_accounts p recs) (sorted-has_answer p rec)
      (sort_accounts-Idle p recs)

-- The verdict over a listing that holds accounts, from the answers of the accounts: `matched` exactly when one is, and
-- `not_matched` exactly when the listing is complete and every one is.
pub decide_records_accounts :
    (p : StatusWithLoginShell) (is_part : Bool) (shells : Option Records) (rec : Record)
    (recs : List Record)
    → (((decide_records p is_part shells (rec ∷ recs)).verdict.status ≡ matched)
        ↔ (any fires (decide_records p is_part shells (rec ∷ recs)).accounts ≡ true))
      × (((decide_records p is_part shells (rec ∷ recs)).verdict.status ≡ not_matched) ↔ (
          (is_part ≡ false)
          × (all refuses (decide_records p is_part shells (rec ∷ recs)).accounts ≡ true)))
unfolding decide_records
decide_records_accounts p is_part shells rec recs =
    let found = sort_accounts p (rec ∷ recs) in
    verdict_iff is_part found.0 (map (outcome shells) found.1) (sort_accounts-Idle p (rec ∷ recs))
      (outcomes-Told shells found.1)

-- No undecided account fires.
pub undecided_none :
    (p : StatusWithLoginShell) (recs : List Record) → any fires (sort_accounts p recs).0 ≡ false
unfolding Idle
undecided_none p recs = (sort_accounts-Idle p recs).0

pub undecided_refuses :
    (p : StatusWithLoginShell) (recs : List Record)
    → all refuses (sort_accounts p recs).0 ≡ not (some_account (sort_accounts p recs).0)
unfolding Idle
undecided_refuses p recs = (sort_accounts-Idle p recs).1
