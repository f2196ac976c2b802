-- ===== src/Finding/Store/Sound.antt =====
-- What holds of the store whatever the model reports: the index is right, and no id is at once a finding and
-- ruled out.
use scheck.Prelude.{
  String, ℕ, zero, suc, Bool, true, false, not, ◌&&◌, ◌||◌, ◌≡◌, refl, sym, ◌∙◌, ap, Option, none,
  some, List, [], ◌∷◌, any, any-append, keep, map_get, is_some, ◌==◌, string_eq, Bool-cases, inl,
  inr, arith,
}
use scheck.Check.Catalog.{Check}
use scheck.Finding.Catalog.{Catalog}
use scheck.Finding.Adjustments.{Grader}
use scheck.Finding.Posture.{Rule, FactSheet}
use scheck.Finding.Report.{Finding}
use scheck.Finding.Evaluate.Reported.{has_id}
use scheck.Prelude.Strings.{trim_space}
use scheck.Finding.Candidate.{Candidate, validate}
use scheck.Finding.Cited.{Output, is_finding, no_note, accepted, Ensures, Ensures-bind, evidence}
use scheck.Finding.Store.Run.{Op, reports, rules_out, apply, run, kept-Ensures}
use scheck.Finding.Store.{
  Store, RuledOut, index_from, new_store, merge, merge_at, is_ruled, file, report, add_ruled,
  merge_ruled, rule_out, session, ruled_id, unless,
}

-- Every id of the index has a finding, every finding's id is in the index, and no ruled-out id is.
pub record IsSound (s : Store) : Type 0 where
  pub indexed : (id : String) → is_some (map_get s.by_id id) ≡ any (has_id id) s.findings
  pub denied :
      (id : String) → (any (is_ruled id) s.ruled_out && is_some (map_get s.by_id id)) ≡ false

merge_at-has_id :
    (id : String) (fs : List Finding) (i : ℕ) (f : Finding)
    → any (has_id id) (merge_at fs i f) ≡ any (has_id id) fs
unfolding merge_at merge
merge_at-has_id id [] i f = refl
merge_at-has_id id (h ∷ fs) zero f = refl
merge_at-has_id id (h ∷ fs) (suc i) f = ground (arith, merge_at-has_id id fs i f)

map_get-cons :
    (id x : String) (i : ℕ) (index : List (String × ℕ))
    → is_some (map_get ((x, i) ∷ index) id) ≡ (x == id || is_some (map_get index id))
map_get-cons id x i index = elim (Bool-cases (x == id)) [ inl e ↦ rw e refl | inr e ↦ rw e refl ]

swap : {u : Bool} (a b c : Bool) → u ≡ (a || b) → (u || c) ≡ (b || (a || c))
swap a b c e = ground (arith, e)

index_from-has_id :
    (id : String) (i : ℕ) (index : List (String × ℕ)) (fs : List Finding)
    → is_some (map_get (index_from i index fs) id)
      ≡ (is_some (map_get index id) || any (has_id id) fs)
unfolding index_from
index_from-has_id id i index [] = ground arith
index_from-has_id id i index (f ∷ fs) =
    index_from-has_id id (suc i) ((f.id, i) ∷ index) fs
    ∙ swap (f.id == id) (is_some (map_get index id)) (any (has_id id) fs)
        (map_get-cons id f.id i index)

same_id : (x y id : String) → (x == y) ≡ true → (x == id) ≡ (y == id)
same_id x y id e = ap (λ z. z == id) ((string_eq.beq_iff x y).0 e)

other_id : (x y id : String) → (x == y) ≡ false → ((x == id) && (y == id)) ≡ false
other_id x y id e =
    ground (arith, string_eq.beq_iff x id, string_eq.beq_iff y id, string_eq.beq_iff x y)

-- Deleting the entries of an id leaves those of the others.
pub keep-is_ruled :
    (id x : String) (rs : List RuledOut)
    → any (is_ruled id) (keep (λ r. not (is_ruled x r)) rs)
      ≡ (any (is_ruled id) rs && not (x == id))
unfolding is_ruled
keep-is_ruled id x [] = ground arith
keep-is_ruled id x (r ∷ rs) = elim (Bool-cases (r.id == x)) [
  | inl e ↦ rw e (ground (arith, keep-is_ruled id x rs, same_id r.id x id e))
  | inr e ↦ rw e (ground (arith, keep-is_ruled id x rs, other_id r.id x id e))
]

pub add_ruled-is_ruled :
    (id : String) (rs : List RuledOut) (r : RuledOut)
    → any (is_ruled id) (add_ruled rs r) ≡ (any (is_ruled id) rs || r.id == id)
unfolding add_ruled merge_ruled is_ruled
add_ruled-is_ruled id [] r = ground arith
add_ruled-is_ruled id (h ∷ rs) r = elim (Bool-cases (h.id == r.id)) [
  | inl e ↦ rw e (ground (arith, same_id h.id r.id id e))
  | inr e ↦ rw e (ground (arith, add_ruled-is_ruled id rs r))
]

-- The store that evaluation fills is sound.
pub new_store-IsSound :
    (checks : List Check) (defs : Catalog) (rules : List Rule) (disabled : List String)
    (sheet : Option FactSheet) (grader : Grader) (output : Option (String → Option Output))
    → IsSound (new_store checks defs rules disabled sheet grader output)
unfolding new_store
new_store-IsSound checks defs rules disabled sheet grader output = record {
  indexed = λ id. index_from-has_id id 0 [] _;
  denied = λ id. refl;
}

file-IsSound :
    (s : Store) (f : Finding) (o : Option ℕ)
    → map_get s.by_id f.id ≡ o
    → IsSound s
    → IsSound (file s f o)
unfolding file
file-IsSound s f (some i) e w = record {
  indexed = λ id. w.indexed id ∙ sym (merge_at-has_id id s.findings i f);
  denied = w.denied;
}
file-IsSound s f none e w = record {
  indexed = λ id. sym (any-append (has_id id) s.findings (f ∷ []) ∙ ground (arith, w.indexed id));
  denied = λ id. ground (arith, keep-is_ruled id f.id s.ruled_out, w.denied id);
}

pub report-IsSound :
    (s : Store) (c : Candidate) → IsSound s → Ensures (λ r. IsSound r.0) (report s c)
unfolding report
report-IsSound s c w =
    Ensures-bind (λ r. IsSound r.0) (validate (session s) c) _
      λ f e. file-IsSound s f (map_get s.by_id f.id) refl w

added-IsSound :
    (s : Store) (r : RuledOut)
    → map_get s.by_id r.id ≡ none
    → IsSound s
    → IsSound (record s { ruled_out = add_ruled s.ruled_out r })
added-IsSound s r e w = record {
  indexed = w.indexed;
  denied = λ id. elim (Bool-cases (r.id == id)) [
    | inl u ↦
        rw (add_ruled-is_ruled id s.ruled_out r, sym ((string_eq.beq_iff r.id id).0 u), e)
          (ground arith)
    | inr u ↦ rw (add_ruled-is_ruled id s.ruled_out r, u) (ground (arith, w.denied id))
  ];
}

pub unless-none : {o : Option ℕ} {k : Bool} → unless (is_some o) is_finding ≡ accepted k → o ≡ none
unfolding unless
unless-none e = ground (arith, e)

pub rule_out-IsSound : (s : Store) (c : Candidate) → IsSound s → Ensures IsSound (rule_out s c)
unfolding rule_out
rule_out-IsSound s c w = Ensures-bind IsSound (ruled_id s c.id) _ λ k e1.
    Ensures-bind IsSound (unless (is_some (map_get s.by_id c.id)) is_finding) _ λ o e2.
      Ensures-bind IsSound (unless (trim_space c.note == "") no_note) _ λ n e3.
        Ensures-bind IsSound (evidence s.output [] c.evidence) _
          λ evs e4. added-IsSound s _ (unless-none e2) w

apply-IsSound : (s : Store) (op : Op) → IsSound s → IsSound (apply s op)
unfolding apply
apply-IsSound s (reports c) w = kept-Ensures IsSound _ s (report s c) w (report-IsSound s c w)
apply-IsSound s (rules_out c) w = kept-Ensures IsSound _ s (rule_out s c) w (rule_out-IsSound s c w)

-- Whatever the model reports and rules out, in whatever order, a sound store stays sound.
pub run-IsSound : (s : Store) (ops : List Op) → IsSound s → IsSound (run s ops)
unfolding run
run-IsSound s [] w = w
run-IsSound s (op ∷ ops) w = run-IsSound (apply s op) ops (apply-IsSound s op w)
