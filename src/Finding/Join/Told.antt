-- ===== src/Finding/Join/Told.antt =====
-- What the join answers for each account, and that it gives a reason where it has no answer.
use scheck.Prelude.{
  String, Bool, true, false, ◌&&◌, Option, none, some, List, [], ◌∷◌, map, map_get, ◌≡◌, All, refl,
  ◌⊎◌, inl, inr, ◌==◌, string_eq, if◌then◌else◌, Bool-cases,
}
use scheck.Prelude.Strings.{◌+◌, trim_space}
use scheck.Prelude.Split.{nonempty-append}
use scheck.Check.Record.{Record, Records}
use scheck.Check.Shells.{refuses_login, interactive_shell}
use scheck.Finding.Predicate.{record_excerpt, Status, matched, not_matched, not_assessed}
use scheck.Finding.Join.{
  AccountOutcome, uid_of, marked, shell_excerpt, outcome, with_account, with_shell, told, decided,
}

abbrev pub is_matched : Status → Bool
is_matched matched = true
is_matched _ = false

abbrev pub is_not_matched : Status → Bool
is_not_matched not_matched = true
is_not_matched _ = false

-- The account's answer is `matched`.
abbrev pub fires : AccountOutcome → Bool
fires a = is_matched a.status

-- The account's answer is `not_matched`.
abbrev pub refuses : AccountOutcome → Bool
refuses a = is_not_matched a.status

-- An answer that says why, if it says neither that the account fires nor that it refuses logins.
abbrev pub Told : AccountOutcome → Type 0
Told a =
    (a.status ≡ matched)
    ⊎ (a.status ≡ not_matched)
    ⊎ ((a.status ≡ not_assessed) × ((a.reason == "") ≡ false))

reason-told : (t : String) → ("unrecognized-shell:" + t == "") ≡ false
reason-told t = nonempty-append "u" "nrecognized-shell:" t

unmarked-Told :
    (rec acct : Record) (cut : Bool) (shell : String)
    → Told (
        if cut
        then told rec (uid_of acct) "account-line-cut"
        else if refuses_login shell
        then decided rec (uid_of acct) not_matched (record_excerpt acct)
        else if interactive_shell shell
        then decided rec (uid_of acct) matched (shell_excerpt acct shell)
        else told rec (uid_of acct) ("unrecognized-shell:" + trim_space shell))
unfolding told decided
unmarked-Told rec acct true shell = inr (inr (refl, refl))
unmarked-Told rec acct false shell = elim (Bool-cases (refuses_login shell)) [
  | inl e ↦ rw e (inr (inl refl))
  | inr e ↦ elim (Bool-cases (interactive_shell shell)) [
    | inl u ↦ rw (e, u) (inl refl)
    | inr u ↦ rw (e, u) (inr (inr (refl, reason-told (trim_space shell))))
  ]
]

with_shell-Told :
    (rec acct : Record) (cut : Bool) (shell : Option String) → Told (with_shell rec acct cut shell)
unfolding with_shell told decided
with_shell-Told rec acct cut none = inr (inr (refl, refl))
with_shell-Told rec acct cut (some shell) = elim (Bool-cases (marked acct)) [
  | inl e ↦ rw e (inr (inr (refl, refl)))
  | inr e ↦ rw e (unmarked-Told rec acct cut shell)
]

with_account-Told :
    (rec : Record) (is_part : Bool) (found : Option (Record × Bool))
    → Told (with_account rec is_part found)
unfolding with_account told
with_account-Told rec is_part none = inr (inr (refl, refl))
with_account-Told rec is_part (some (acct, last)) =
    with_shell-Told rec acct (last && is_part) (map_get acct "shell")

outcome-Told : (shells : Option Records) (rec : Record) → Told (outcome shells rec)
unfolding outcome told
outcome-Told none rec = inr (inr (refl, refl))
outcome-Told (some shells) rec = with_account-Told rec shells.is_partial _

pub outcomes-Told :
    (shells : Option Records) (recs : List Record) → All Told (map (outcome shells) recs)
outcomes-Told shells [] = tt
outcomes-Told shells (rec ∷ recs) = (outcome-Told shells rec, outcomes-Told shells recs)
