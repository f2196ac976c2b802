-- ===== src/Finding/Join/Accounts.antt =====
-- The verdict of the join, from the records of the two listings: which states and which shells it takes for an account
-- that can be logged in to, and which for one that cannot.
use scheck.Prelude.{
  String, Bool, true, false, not, ◌&&◌, ◌||◌, Option, none, some, List, [], ◌∷◌, any, all, map,
  map_get, ◌≡◌, ◌∙◌, refl, ap, ◌↔◌, inl, inr, arith, any-append, ◌==◌, string_eq, Bool-cases,
  if◌then◌else◌,
}
use scheck.Prelude.Strings.{to_lower, equal_fold, trim_space}
use scheck.Check.Record.{Record, Records, field, has_marker}
use scheck.Check.Shells.{refuses_login, interactive_shell}
use scheck.Finding.Predicate.{matched, not_matched, known}
use scheck.Finding.Join.{
  StatusWithLoginShell, AccountOutcome, unread_account, marked, account_named, outcome,
  with_account, with_shell, told, decided, some_account, sort_accounts, add_sorted, sorted,
  undecided, decide_records,
}
use scheck.Finding.Join.Told.{fires, refuses}
use scheck.Finding.Join.Verdicts.{
  decide_records_accounts, undecided_none, undecided_refuses, all-append,
}

-- The shell of an account's line, if it was read in full: the line holds no marker, is not the last one of a listing
-- that is cut, and names a shell.
line_shell : Bool → Option (Record × Bool) → Option String
line_shell is_part none = none
line_shell is_part (some (acct, last)) =
    if marked acct || (last && is_part) then none else map_get acct "shell"

-- The shell of the account of a name.
pub shell_of : Option Records → String → Option String
shell_of none name = none
shell_of (some shells) name = line_shell shells.is_partial (account_named shells.items name)

-- A test of a shell that was read.
abbrev pub shell_is : (String → Bool) → Option String → Bool
shell_is test none = false
shell_is test (some shell) = test shell

abbrev pub opens : String → Bool
opens shell = interactive_shell shell && not (refuses_login shell)

abbrev pub is_whole : String → Bool
is_whole text = not (text == "") && not (has_marker text)

-- Neither the account's name nor its state is empty or holds a marker.
abbrev pub is_read : StatusWithLoginShell → Record → Bool
is_read p rec = is_whole (trim_space (field rec p.name)) && is_whole (trim_space (field rec "name"))

-- The account was read, and its state is the one that the rule looks for.
abbrev pub holds : StatusWithLoginShell → Record → Bool
holds p rec = is_read p rec && equal_fold (trim_space (field rec p.name)) p.value

-- The account was read, and its state is another one that the rule knows.
abbrev pub holds_other : StatusWithLoginShell → Record → Bool
holds_other p rec =
    is_read p rec
    && not (equal_fold (trim_space (field rec p.name)) p.value)
    && known (to_lower (trim_space (field rec p.name))) p.known_values

-- The account has the state, and its shell lets it log in.
abbrev pub can_log_in : StatusWithLoginShell → Option Records → Record → Bool
can_log_in p shells rec =
    holds p rec && shell_is opens (shell_of shells (trim_space (field rec "name")))

-- The account has another state, or its shell refuses logins.
abbrev pub is_cleared : StatusWithLoginShell → Option Records → Record → Bool
is_cleared p shells rec =
    holds_other p rec
    || (holds p rec && shell_is refuses_login (shell_of shells (trim_space (field rec "name"))))

-- The answer says of a shell what its tests say.
abbrev Answers : AccountOutcome → Option String → Type 0
Answers a shell = (fires a ≡ shell_is opens shell) × (refuses a ≡ shell_is refuses_login shell)

with_shell-Answers :
    (rec acct : Record) (cut : Bool) (o : Option String)
    → Answers (with_shell rec acct cut o) (if marked acct || cut then none else o)
unfolding with_shell told decided
with_shell-Answers rec acct cut none = ground arith
with_shell-Answers rec acct cut (some shell) = ground arith

with_account-Answers :
    (rec : Record) (is_part : Bool) (found : Option (Record × Bool))
    → Answers (with_account rec is_part found) (line_shell is_part found)
unfolding with_account line_shell told
with_account-Answers rec is_part none = (refl, refl)
with_account-Answers rec is_part (some (acct, last)) =
    with_shell-Answers rec acct (last && is_part) (map_get acct "shell")

outcome-Answers :
    (shells : Option Records) (rec : Record)
    → Answers (outcome shells rec) (shell_of shells (trim_space (field rec "name")))
outcome-Answers none rec = unfold outcome told shell_of in (refl, refl)
outcome-Answers (some shells) rec =
    unfold outcome in
    unfold shell_of in
    with_account-Answers rec shells.is_partial
      (account_named shells.items (trim_space (field rec "name")))

unread-is_read :
    (p : StatusWithLoginShell) (rec : Record) → is_read p rec ≡ not (unread_account p rec)
unfolding unread_account
unread-is_read p rec = ground arith

-- What one record adds to the answers.
step :
    (p : StatusWithLoginShell) (shells : Option Records) (rec : Record)
    (found : List AccountOutcome × List Record)
    → (any fires (map (outcome shells) (add_sorted rec (sorted p rec) found).1)
        ≡ (can_log_in p shells rec || any fires (map (outcome shells) found.1)))
      × ((not (some_account (add_sorted rec (sorted p rec) found).0)
            && all refuses (map (outcome shells) (add_sorted rec (sorted p rec) found).1))
          ≡ (is_cleared p shells rec
              && (not (some_account found.0) && all refuses (map (outcome shells) found.1))))
unfolding add_sorted sorted some_account undecided
step p shells rec found = elim (Bool-cases (unread_account p rec)) [
  | inl e ↦ rw (unread-is_read p rec, e) (refl, refl)
  | inr e ↦ elim (Bool-cases (equal_fold (trim_space (field rec p.name)) p.value)) [
    | inl u ↦ rw (unread-is_read p rec, e, u) (ground (arith, outcome-Answers shells rec))
    | inr u ↦ elim (Bool-cases (known (to_lower (trim_space (field rec p.name))) p.known_values)) [
      | inl v ↦ rw (unread-is_read p rec, e, u, v) (refl, refl)
      | inr v ↦ rw (unread-is_read p rec, e, u, v) (refl, refl)
    ]
  ]
]

-- The answers of a listing, from its records.
answers :
    (p : StatusWithLoginShell) (shells : Option Records) (recs : List Record)
    → (any fires (map (outcome shells) (sort_accounts p recs).1) ≡ any (can_log_in p shells) recs)
      × ((not (some_account (sort_accounts p recs).0)
            && all refuses (map (outcome shells) (sort_accounts p recs).1))
          ≡ all (is_cleared p shells) recs)
unfolding sort_accounts some_account
answers p shells [] = (refl, refl)
answers p shells (rec ∷ recs) =
    let ih = answers p shells recs in
    let s = step p shells rec (sort_accounts p recs) in
    (s.0 ∙ ap (can_log_in p shells rec ||◌) ih.0, s.1 ∙ ap (is_cleared p shells rec &&◌) ih.1)

accounts_of :
    (p : StatusWithLoginShell) (is_part : Bool) (shells : Option Records) (rec : Record)
    (recs : List Record)
    → (any fires (decide_records p is_part shells (rec ∷ recs)).accounts
        ≡ any (can_log_in p shells) (rec ∷ recs))
      × (all refuses (decide_records p is_part shells (rec ∷ recs)).accounts
          ≡ all (is_cleared p shells) (rec ∷ recs))
unfolding decide_records
accounts_of p is_part shells rec recs =
    let found = sort_accounts p (rec ∷ recs) in
    let a = answers p shells (rec ∷ recs) in
    (
      any-append fires found.0 (map (outcome shells) found.1)
          ∙ ap (◌|| any fires (map (outcome shells) found.1)) (undecided_none p (rec ∷ recs))
          ∙ a.0,
      all-append refuses found.0 (map (outcome shells) found.1)
          ∙ ap (◌&& all refuses (map (outcome shells) found.1)) (undecided_refuses p (rec ∷ recs))
          ∙ a.1,
    )

-- Of a listing that holds accounts, the join fires exactly when some account has the state that the rule looks for and
-- a shell that lets it log in. It says that there is none exactly when the listing is complete and every account has
-- another state, one that the rule knows, or a shell that refuses logins. A state counts only where it and the name
-- are neither empty nor hold a marker, and a shell only where the account's line holds no marker and is not the last
-- one of a listing that is cut.
pub decide_records_iff :
    (p : StatusWithLoginShell) (is_part : Bool) (shells : Option Records) (rec : Record)
    (recs : List Record)
    → (((decide_records p is_part shells (rec ∷ recs)).verdict.status ≡ matched)
        ↔ (any (can_log_in p shells) (rec ∷ recs) ≡ true))
      × (((decide_records p is_part shells (rec ∷ recs)).verdict.status ≡ not_matched)
          ↔ ((is_part ≡ false) × (all (is_cleared p shells) (rec ∷ recs) ≡ true)))
decide_records_iff p is_part shells rec recs =
    let a = accounts_of p is_part shells rec recs in
    rw (← a.0, ← a.1) (decide_records_accounts p is_part shells rec recs)
