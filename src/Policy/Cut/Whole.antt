-- ===== src/Policy/Cut/Whole.antt =====
-- A cut never goes through a marker.
use scheck.Prelude.{
  ℕ, zero, suc, ◌+◌, ◌-◌, ◌≤◌, ◌<◌, ◌≡◌, ◌≢◌, ◌⊎◌, refl, ap, ◌∙◌, sym, subst, min, true, false, not,
  ◌&&◌, Option, none, some, [], ◌∷◌, take, drop, slice, length, is_some, ltb, ◌==◌, nat_eq,
  get_elem?, Bool-cases, Option-cases, some_inj, inl, inr, arith,
}
use scheck.Policy.Redact.{Bytes}
use scheck.Policy.Cut.{
  starts_with, last_index, index_byte, next_place, open_marker, past_end, past_marker, cut_at,
}

starts_with-length : (b pat : Bytes) → starts_with b pat ≡ true → length pat ≤ length b
unfolding starts_with
starts_with-length b [] h = omega arith
starts_with-length [] (p ∷ ps) h = cc
starts_with-length (x ∷ b) (p ∷ ps) h = ground (arith, starts_with-length b ps)

starts_with-drop-length :
    (i : ℕ) (b : Bytes) (p : ℕ) (ps : Bytes)
    → starts_with (drop i b) (p ∷ ps) ≡ true
    → i + length (p ∷ ps) ≤ length b
unfolding starts_with
starts_with-drop-length zero b p ps h = omega (arith, starts_with-length b (p ∷ ps) h)
starts_with-drop-length (suc i) [] p ps h = cc
starts_with-drop-length (suc i) (x ∷ b) p ps h = omega (arith, starts_with-drop-length i b p ps h)

starts_with-take :
    (n : ℕ) (b pat : Bytes)
    → starts_with b pat ≡ true
    → length pat ≤ n
    → starts_with (take n b) pat ≡ true
unfolding starts_with
starts_with-take n b [] h k = refl
starts_with-take n [] (p ∷ ps) h k = cc
starts_with-take zero (x ∷ b) (p ∷ ps) h k = absurd (omega arith)
starts_with-take (suc n) (x ∷ b) (p ∷ ps) h k = ground (arith, starts_with-take n b ps)

starts_with-drop-take :
    (i n : ℕ) (b : Bytes) (p : ℕ) (ps : Bytes)
    → starts_with (drop i b) (p ∷ ps) ≡ true
    → i + length (p ∷ ps) ≤ n
    → starts_with (drop i (take n b)) (p ∷ ps) ≡ true
unfolding starts_with
starts_with-drop-take zero n b p ps h k = starts_with-take n b (p ∷ ps) h (omega arith)
starts_with-drop-take (suc i) n [] p ps h k = cc
starts_with-drop-take (suc i) zero (x ∷ b) p ps h k = absurd (omega arith)
starts_with-drop-take (suc i) (suc n) (x ∷ b) p ps h k =
    starts_with-drop-take i n b p ps h (omega arith)

-- The last place is not before any other.
last_index_last :
    (i : ℕ) (b : Bytes) (p : ℕ) (ps : Bytes)
    → starts_with (drop i b) (p ∷ ps) ≡ true
    → (l : ℕ) × (last_index b (p ∷ ps) ≡ some l) × (i ≤ l)
unfolding last_index starts_with
last_index_last zero [] p ps h = cc
last_index_last (suc i) [] p ps h = cc
last_index_last zero (x ∷ b) p ps h = elim (Option-cases (last_index b (p ∷ ps))) [
  | inl e ↦ (0, rw e (rw h refl), omega arith)
  | inr (l, e) ↦ (suc l, rw e refl, omega arith)
]
last_index_last (suc i) (x ∷ b) p ps h =
    let (l, e, le) = last_index_last i b p ps h in (suc l, rw e refl, omega arith)

last_index-length :
    (b : Bytes) (pat : Bytes) (l : ℕ) → last_index b pat ≡ some l → l + length pat ≤ length b
unfolding last_index
last_index-length [] pat l h = cc
last_index-length (x ∷ b) pat l h = elim (Option-cases (last_index b pat)) [
  | inl e ↦ elim (Bool-cases (starts_with (x ∷ b) pat)) [
    | inl u ↦ ground (arith, rw (e, u) at h, starts_with-length (x ∷ b) pat u)
    | inr u ↦ absurd (ground (arith, rw (e, u) at h))
  ]
  | inr (m, e) ↦ ground (arith, rw e at h, last_index-length b pat m e)
]

length-take-le : (n : ℕ) (b : Bytes) → length (take n b) ≤ n
length-take-le zero b = omega arith
length-take-le (suc n) [] = omega arith
length-take-le (suc n) (x ∷ b) = omega (arith, length-take-le n b)

-- What a search for a byte says.
Finds : Bytes → ℕ → Option ℕ → Type 0
Finds b c none = (k : ℕ) → get_elem? b k ≢ some c
Finds b c (some j) = get_elem? b j ≡ some c

search_next :
    (x : ℕ) (b : Bytes) (c : ℕ)
    → (x == c) ≡ false
    → (o : Option ℕ) → Finds b c o
    → Finds (x ∷ b) c (next_place o)
unfolding Finds next_place
search_next x b c e none h = not_at
  where
    not_at : (k : ℕ) → get_elem? (x ∷ b) k ≢ some c
    not_at zero g = ground (arith, g)
    not_at (suc k) g = h k g
search_next x b c e (some j) h = h

-- A byte that is found is at its place, and a byte that is not found is at none.
index_byte-get_elem? : (b : Bytes) (c : ℕ) → Finds b c (index_byte b c)
unfolding Finds index_byte next_place
index_byte-get_elem? [] c = λ k g. cc
index_byte-get_elem? (x ∷ b) c = elim (Bool-cases (x == c)) [
  | inl e ↦ rw e (ap some ((nat_eq.beq_iff x c).0 e))
  | inr e ↦ rw e (search_next x b c e (index_byte b c) (index_byte-get_elem? b c))
]

zero_plus : (k : ℕ) → k ≡ 0 + k
zero_plus k = omega arith

suc_plus : (i k : ℕ) → suc (i + k) ≡ suc i + k
suc_plus i k = omega arith

get_elem?-drop : (i k : ℕ) (b : Bytes) → get_elem? (drop i b) k ≡ get_elem? b (i + k)
get_elem?-drop zero k b = ap (get_elem? b) (zero_plus k)
get_elem?-drop (suc i) k [] = refl
get_elem?-drop (suc i) k (x ∷ b) = get_elem?-drop i k b ∙ ap (get_elem? (x ∷ b)) (suc_plus i k)

get_elem?-take :
    (n k : ℕ) (b : Bytes) (c : ℕ)
    → get_elem? (take n b) k ≡ some c
    → (k < n) × (get_elem? b k ≡ some c)
get_elem?-take zero k b c h = cc
get_elem?-take (suc n) k [] c h = cc
get_elem?-take (suc n) zero (x ∷ b) c h = (omega arith, h)
get_elem?-take (suc n) (suc k) (x ∷ b) c h =
    (omega (arith, (get_elem?-take n k b c h).0), (get_elem?-take n k b c h).1)

-- A `]` stands between the start of the marker and the cut.
abbrev pub Closed : Bytes → ℕ → ℕ → Type 0
Closed red i cut = (j : ℕ) × (i ≤ j) × (j < cut) × (get_elem? red j ≡ some b']')

module _ (red : Bytes) (cut i k : ℕ) (ik : i ≤ k) (at_k : get_elem? red k ≡ some b']') where
  -- The marker starts before the cut, and at or before `l`, the last that does.
  Last : ℕ → Type 0
  Last l = (i ≤ l) × (l < cut)

  past_end-Closed :
      (l : ℕ) (o : Option ℕ)
      → (i < cut → Last l)
      → Finds (drop l red) b']' o
      → i < past_end cut l o
      → Closed red i (past_end cut l o)
  unfolding past_end Finds Last
  past_end-Closed l none h f lt = (k, ik, before (Bool-cases (ltb k l)), at_k)
    where
      before : (ltb k l ≡ true) ⊎ (ltb k l ≡ false) → k < cut
      before (inl e) = ground (arith, h lt)
      before (inr e) =
          absurd
            (f (k - l) (get_elem?-drop l (k - l) red ∙ ap (get_elem? red) (ground arith) ∙ at_k))
  past_end-Closed l (some j) h f lt =
      (l + j, omega arith, omega arith, sym (get_elem?-drop l j red) ∙ f)

  slice-Closed :
      (l : ℕ) (o : Option ℕ)
      → Last l
      → is_some o ≡ true
      → Finds (slice red l cut) b']' o
      → Closed red i cut
  unfolding Finds Last
  slice-Closed l none h e f = cc
  slice-Closed l (some j) h e f =
      let (lt, g) = get_elem?-take (cut - l) j (drop l red) b']' f in
      (l + j, omega (arith, h.0), omega (arith, lt), sym (get_elem?-drop l j red) ∙ g)

  past_marker-Closed :
      (o : Option ℕ)
      → (i < cut → (l : ℕ) × (o ≡ some l) × Last l)
      → i < past_marker red cut o
      → Closed red i (past_marker red cut o)
  unfolding past_marker Last
  past_marker-Closed none h lt = absurd (cc (h lt).1)
  past_marker-Closed (some l) h lt =
      elim (Bool-cases (ltb l cut && not (is_some (index_byte (slice red l cut) b']')))) [
        | inl e ↦ rw e (
            past_end-Closed l (index_byte (drop l red) b']') (λ lt'. last_of l (h lt'))
              (index_byte-get_elem? (drop l red) b']') (rw e at lt))
        | inr e ↦ rw e (
            slice-Closed l (index_byte (slice red l cut) b']') (last_of l (h (rw e at lt)))
              (ground (arith, e, (last_of l (h (rw e at lt))).1))
              (index_byte-get_elem? (slice red l cut) b']'))
      ]
    where
      last_of : (l : ℕ) → (m : ℕ) × (some l ≡ some m) × Last m → Last l
      last_of l (m, e, w) = subst Last (sym (some_inj e)) w

-- A redaction marker that starts before the cut, and that is closed by a `]`, is closed before the cut.
pub cut_at-Closed :
    (red : Bytes) (cut i k : ℕ)
    → starts_with (drop i red) open_marker ≡ true
    → i < cut_at red cut
    → i ≤ k
    → get_elem? red k ≡ some b']'
    → Closed red i (cut_at red cut)
unfolding cut_at open_marker Last
cut_at-Closed red cut i k s lt ik g =
    past_marker-Closed red cut i k ik g
      (last_index (take (min (length red) (cut + 9)) red) open_marker) last_before lt
  where
    last_before :
        i < cut
        → (l : ℕ) × (last_index (take (min (length red) (cut + 9)) red) open_marker ≡ some l)
          × Last red cut i k ik g l
    last_before h =
        let n = min (length red) (cut + 9) in
        let fits = starts_with-drop-length i red _ _ s in
        let (l, e, le) =
          last_index_last i (take n red) _ _ (starts_with-drop-take i n red _ _ s (omega arith)) in
        (
          l,
          e,
          (le, omega (arith, last_index-length (take n red) open_marker l e, length-take-le n red)),
        )
