-- ===== src/Engagement/Rules/Databases/Disproved.antt =====
-- When R1 says of a host that no database listens beyond localhost.
use scheck.Prelude.{
  String, ℕ, ◌≡◌, refl, ap, ◌∙◌, Bool, true, false, not, ◌&&◌, ◌||◌, Option, none, some, List, [],
  ◌∷◌, any, any-append, contains, is_some, ◌==◌, string_eq, nat_eq, Bool-cases, inl, inr, arith,
}
use scheck.Engagement.Rules.Listeners.{
  Listener, PortGroup, Listening, beyond, is_database, table_ports, owner_doubt,
}
use scheck.Engagement.Rules.Databases.{
  Verdict, disproved, Reason, Outcome, Reach, doubt_of, later, last_doubt, are_databases,
  subject_by, db_subject, some_listener, add_outcome, subjects, host, close, db_listens_unfiltered,
  outcome, by_doubt, by_unknown, by_reach, without_database,
}

-- The socket is a database's, or on a database's usual port, behind a container or of an owner that is not shown.
pub may_be_database : ℕ → Listener → Bool
may_be_database port l =
    is_database l.process l.port
    || (contains table_ports port && (owner_doubt l || l.process == ""))

is_disproved : Verdict → Bool
is_disproved disproved = true
is_disproved _ = false

is_host : Option String → Bool
is_host none = true
is_host (some key) = false

-- The outcome says of the host itself that nothing was found.
pub clears_host : Outcome → Bool
clears_host o = is_host o.subject && is_disproved o.verdict

is_cons : {A : Type 0} → List A → Bool
is_cons [] = false
is_cons (x ∷ xs) = true

doubt_of-may :
    (port : ℕ) (l : Listener)
    → (is_database l.process l.port || is_some (doubt_of port l)) ≡ may_be_database port l
unfolding doubt_of may_be_database
doubt_of-may port l = ground arith

is_some-later : (a b : Option Reason) → is_some (later a b) ≡ (is_some a || is_some b)
unfolding later
is_some-later none b = refl
is_some-later (some r) b = refl

loop_may :
    (port : ℕ) (before : Option Reason) (ls : List Listener)
    → (is_cons (are_databases ls) || is_some (last_doubt port before ls))
      ≡ (is_some before || any (may_be_database port) ls)
unfolding are_databases last_doubt is_cons
loop_may port before [] = ground arith
loop_may port before (l ∷ ls) = elim (Bool-cases (is_database l.process l.port)) [
  | inl e ↦ rw e (ground (arith, e, doubt_of-may port l))
  | inr e ↦ rw e (
      ground (
        arith,
        e,
        doubt_of-may port l,
        loop_may port (later (doubt_of port l) before) ls,
        is_some-later (doubt_of port l) before,
      ))
]

module _ (reach : List Listener → Reach) where
  is_some-subject_by :
      (g : PortGroup) (dbs : List Listener) (doubt : Option Reason)
      → is_some (subject_by reach g dbs doubt) ≡ (is_cons dbs || is_some doubt)
  unfolding subject_by without_database is_cons
  is_some-subject_by g [] none = refl
  is_some-subject_by g [] (some r) = refl
  is_some-subject_by g (d ∷ ds) doubt = refl

  is_some-some_listener :
      (g : PortGroup) (ls : List Listener)
      → is_some (some_listener reach g ls) ≡ any (may_be_database g.port) ls
  unfolding some_listener db_subject
  is_some-some_listener g [] = refl
  is_some-some_listener g (l ∷ ls) =
      is_some-subject_by g (are_databases (l ∷ ls)) (last_doubt g.port none (l ∷ ls))
      ∙ loop_may g.port none (l ∷ ls)

  is_cons-add_outcome :
      (o : Option Outcome) (rest : List Outcome)
      → is_cons (add_outcome o rest) ≡ (is_some o || is_cons rest)
  unfolding add_outcome is_cons
  is_cons-add_outcome none rest = refl
  is_cons-add_outcome (some o) rest = refl

  -- Some listener beyond loopback may be a database.
  any_may : List PortGroup → Bool
  any_may gs = any (λ g. any (may_be_database g.port) (beyond g)) gs

  is_cons-subjects : (gs : List PortGroup) → is_cons (subjects reach gs) ≡ any_may gs
  unfolding subjects any_may is_cons
  is_cons-subjects [] = refl
  is_cons-subjects (g ∷ gs) =
      is_cons-add_outcome (some_listener reach g (beyond g)) (subjects reach gs)
      ∙ ground (arith, is_some-some_listener g (beyond g), is_cons-subjects gs)

  by_doubt_subject :
      (g : PortGroup) (doubt : Option Reason) → is_host (by_doubt g doubt).subject ≡ false
  unfolding by_doubt outcome is_host
  by_doubt_subject g none = refl
  by_doubt_subject g (some r) = refl

  by_unknown_subject :
      (g : PortGroup) (doubt : Option Reason) (u : Option String)
      → is_host (by_unknown g doubt u).subject ≡ false
  unfolding by_unknown outcome is_host
  by_unknown_subject g doubt none = by_doubt_subject g doubt
  by_unknown_subject g doubt (some why) = refl

  by_reach_subject :
      (g : PortGroup) (doubt : Option Reason) (r : Reach)
      → is_host (by_reach g doubt r).subject ≡ false
  unfolding by_reach outcome is_host
  by_reach_subject g doubt r = elim (Bool-cases r.is_open) [
    | inl e ↦ rw e refl
    | inr e ↦ rw e (by_unknown_subject g doubt r.unknown)
  ]

  add_subject :
      (g : PortGroup) (dbs : List Listener) (doubt : Option Reason) (rest : List Outcome)
      → any clears_host (add_outcome (subject_by reach g dbs doubt) rest) ≡ any clears_host rest
  unfolding subject_by without_database add_outcome clears_host outcome is_host
  add_subject g [] none rest = refl
  add_subject g [] (some r) rest = refl
  add_subject g (d ∷ ds) doubt rest = ground (arith, by_reach_subject g doubt (reach (d ∷ ds)))

  add_listeners :
      (g : PortGroup) (ls : List Listener) (rest : List Outcome)
      → any clears_host (add_outcome (some_listener reach g ls) rest) ≡ any clears_host rest
  unfolding some_listener db_subject add_outcome
  add_listeners g [] rest = refl
  add_listeners g (l ∷ ls) rest =
      add_subject g (are_databases (l ∷ ls)) (last_doubt g.port none (l ∷ ls)) rest

  none_clears : (gs : List PortGroup) → any clears_host (subjects reach gs) ≡ false
  unfolding subjects
  none_clears [] = refl
  none_clears (g ∷ gs) = add_listeners g (beyond g) (subjects reach gs) ∙ none_clears gs

  close_clears :
      (complete : Bool) (out : List Outcome)
      → any clears_host out ≡ false
      → any clears_host (close complete out) ≡ (complete && not (is_cons out))
  unfolding close host clears_host is_host is_disproved is_cons
  close_clears false out h = any-append clears_host out _ ∙ ground (arith, h)
  close_clears true [] h = refl
  close_clears true (o ∷ out) h = h

  -- The host is said to have no database that listens beyond localhost exactly when the listing is complete and no
  -- socket beyond loopback is a database's or, on a database's usual port, one whose owner is a container or is not
  -- shown.
  pub db_listens_unfiltered-clears_host :
      (l : Listening)
      → any clears_host (db_listens_unfiltered reach (some l))
        ≡ (l.complete && not (any (λ g. any (may_be_database g.port) (beyond g)) l.groups))
  unfolding db_listens_unfiltered any_may
  db_listens_unfiltered-clears_host l =
      close_clears l.complete (subjects reach l.groups) (none_clears l.groups)
      ∙ ap (λ b. l.complete && not b) (is_cons-subjects l.groups)
