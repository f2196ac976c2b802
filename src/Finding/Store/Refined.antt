-- ===== src/Finding/Store/Refined.antt =====
-- What a run of the store does, seen from outside: each id is in one of three states, and each call moves the
-- state of one id or of none.
use scheck.Prelude.{
  String, ℕ, Bool, true, false, ◌≡◌, ◌≢◌, refl, sym, ◌∙◌, ap, subst, Option, none, some, List, [],
  ◌∷◌, any, map_get, is_some, ◌==◌, string_eq, if◌then◌else◌, Bool-cases, inl, inr, arith,
}
use scheck.Prelude.Strings.{trim_space}
use scheck.Finding.Report.{Finding}
use scheck.Finding.Candidate.{Candidate, validate}
use scheck.Finding.Candidate.Accepted.{IsModels, validate-IsModels}
use scheck.Finding.Cited.{
  Checked, accepted, refused, Ensures, Ensures-bind, evidence, is_finding, no_note,
}
use scheck.Finding.Store.{
  Store, RuledOut, is_ruled, file, report, add_ruled, rule_out, session, ruled_id, unless,
}
use scheck.Finding.Store.Run.{Op, reports, rules_out, apply, run, kept}
use scheck.Finding.Store.Sound.{keep-is_ruled, add_ruled-is_ruled, unless-none}

-- The state of an id: nothing was said of it, it was ruled out, or it is a finding.
pub data Seen : Type 0 where
  unseen denied listed : Seen

seen : Bool → Bool → Seen
seen true ruled = listed
seen false true = denied
seen false false = unseen

-- The state of an id in a store.
pub view : Store → String → Seen
view s id = seen (is_some (map_get s.by_id id)) (any (is_ruled id) s.ruled_out)

-- The states with that of one id replaced.
pub moved : String → Seen → (String → Seen) → String → Seen
moved x to v id = if x == id then to else v id

-- One call: it is refused and moves nothing, it makes its id a finding, or it rules out its id, which is no
-- finding.
pub data Step (v : String → Seen) : Op → (String → Seen) → Type 0 where
  stays : (op : Op) (w : String → Seen) → ((id : String) → w id ≡ v id) → Step v op w
  lists :
      (c : Candidate) (w : String → Seen)
      → ((id : String) → w id ≡ moved c.id listed v id)
      → Step v (reports c) w
  denies :
      (c : Candidate) (w : String → Seen)
      → v c.id ≢ listed
      → ((id : String) → w id ≡ moved c.id denied v id)
      → Step v (rules_out c) w

-- The calls, one after the other.
pub data Steps : (String → Seen) → List Op → (String → Seen) → Type 0 where
  done : (v : String → Seen) → Steps v [] v
  then_steps :
      (op : Op) (ops : List Op) (v u w : String → Seen)
      → Step v op u
      → Steps u ops w
      → Steps v (op ∷ ops) w

file-view :
    (s : Store) (f : Finding) (o : Option ℕ)
    → map_get s.by_id f.id ≡ o
    → (id : String) → view (file s f o) id ≡ moved f.id listed (view s) id
unfolding view file moved seen
file-view s f (some i) e id = elim (Bool-cases (f.id == id)) [
  | inl u ↦ rw (u, sym ((string_eq.beq_iff f.id id).0 u), e) refl
  | inr u ↦ rw u refl
]
file-view s f none e id = elim (Bool-cases (f.id == id)) [
  | inl u ↦ rw u refl
  | inr u ↦
      rw (u, keep-is_ruled id f.id s.ruled_out, u)
        (ap (seen (is_some (map_get s.by_id id))) (ground arith))
]

added-view :
    (s : Store) (r : RuledOut)
    → map_get s.by_id r.id ≡ none
    → (id : String)
    → view (record s { ruled_out = add_ruled s.ruled_out r }) id ≡ moved r.id denied (view s) id
unfolding view moved seen
added-view s r e id = elim (Bool-cases (r.id == id)) [
  | inl u ↦
      rw (add_ruled-is_ruled id s.ruled_out r, u, sym ((string_eq.beq_iff r.id id).0 u), e)
        (ground arith)
  | inr u ↦
      rw (add_ruled-is_ruled id s.ruled_out r, u)
        (ap (seen (is_some (map_get s.by_id id))) (ground arith))
]

free-view : (s : Store) (id : String) → map_get s.by_id id ≡ none → view s id ≢ listed
unfolding view seen
free-view s id e h = ground (arith, e, h)

report-view :
    (s : Store) (c : Candidate)
    → Ensures (λ r. (id : String) → view r.0 id ≡ moved c.id listed (view s) id) (report s c)
unfolding report
report-view s c =
    Ensures-bind (λ r. (id : String) → view r.0 id ≡ moved c.id listed (view s) id)
      (validate (session s) c) _
      λ f e id.
        file-view s f (map_get s.by_id f.id) refl id
        ∙ ap (λ x. moved x listed (view s) id) (models-id f e)
  where
    models-id : (f : Finding) → validate (session s) c ≡ accepted f → f.id ≡ c.id
    models-id f e = (subst (Ensures (IsModels c)) e (validate-IsModels (session s) c)).id

Denied : Store → Candidate → Store → Type 0
Denied s c t = (view s c.id ≢ listed) × ((id : String) → view t id ≡ moved c.id denied (view s) id)

rule_out-view : (s : Store) (c : Candidate) → Ensures (Denied s c) (rule_out s c)
unfolding rule_out Denied
rule_out-view s c = Ensures-bind (Denied s c) (ruled_id s c.id) _ λ k e1.
    Ensures-bind (Denied s c) (unless (is_some (map_get s.by_id c.id)) is_finding) _ λ o e2.
      Ensures-bind (Denied s c) (unless (trim_space c.note == "") no_note) _ λ n e3.
        Ensures-bind (Denied s c) (evidence s.output [] c.evidence) _
          λ evs e4. (free-view s c.id (unless-none e2), added-view s _ (unless-none e2))

reports-Step :
    (s : Store) (c : Candidate) (r : Checked (Store × Finding))
    → Ensures (λ r. (id : String) → view r.0 id ≡ moved c.id listed (view s) id) r
    → Step (view s) (reports c) (view (kept (λ r. r.0) s r))
unfolding kept
reports-Step s c (accepted r) h = Step.lists c (view r.0) h
reports-Step s c (refused why) h = Step.stays (reports c) (view s) λ id. refl

rules_out-Step :
    (s : Store) (c : Candidate) (r : Checked Store)
    → Ensures (Denied s c) r
    → Step (view s) (rules_out c) (view (kept (λ t. t) s r))
unfolding kept Denied
rules_out-Step s c (accepted t) h = Step.denies c (view t) h.0 h.1
rules_out-Step s c (refused why) h = Step.stays (rules_out c) (view s) λ id. refl

apply-Step : (s : Store) (op : Op) → Step (view s) op (view (apply s op))
unfolding apply
apply-Step s (reports c) = reports-Step s c (report s c) (report-view s c)
apply-Step s (rules_out c) = rules_out-Step s c (rule_out s c) (rule_out-view s c)

-- Each run of calls of the store is a run of the machine that keeps one of three states for each id: a call moves
-- its own id only, no call moves a finding's id away, and only an id that is no finding is ruled out.
pub run-Steps : (s : Store) (ops : List Op) → Steps (view s) ops (view (run s ops))
unfolding run
run-Steps s [] = Steps.done (view s)
run-Steps s (op ∷ ops) =
    Steps.then_steps op ops (view s) (view (apply s op)) (view (run (apply s op) ops))
      (apply-Step s op) (run-Steps (apply s op) ops)
