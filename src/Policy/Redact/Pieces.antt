-- ===== src/Policy/Redact/Pieces.antt =====
-- What the pass writes, as pieces: a part of the input, or a marker. `write_out` is their rendering.
use scheck.Prelude.{
  ℕ, ◌-◌, ◌≡◌, refl, String, List, [], ◌∷◌, ◌++◌, slice, ltb, leb, arith, if◌then◌else◌, Bool-cases,
  inl, inr,
}
use scheck.Policy.Redact.{Bytes, Span, marker, rest_of, write_out}

pub data Piece : Type 0 where
  plain : ℕ → ℕ → Piece
  hidden : String → ℕ → Piece

pub render : Bytes → List Piece → Bytes
render b [] = []
render b (plain l r ∷ ps) = slice b l r ++ render b ps
render b (hidden rule n ∷ ps) = marker rule n ++ render b ps

abbrev pub tail_pieces : ℕ → ℕ → List Piece
tail_pieces up_to last = if ltb last up_to then plain last up_to ∷ [] else []

unfoldable pub pieces : ℕ → ℕ → List Span → List Piece
pieces up_to last [] = tail_pieces up_to last
pieces up_to last (sp ∷ spans) =
    let skip = pieces up_to last spans in
    let rest = pieces up_to sp.stop spans in
    if ltb sp.start last
    then skip
    else if leb up_to sp.start
    then tail_pieces up_to last
    else plain last sp.start ∷ hidden sp.rule (sp.stop - sp.start) ∷ rest

append_nil : (b : Bytes) → b ++ [] ≡ b
append_nil [] = refl
append_nil (x ∷ b) = rw (append_nil b)

rest_of-render :
    (b : Bytes) (up_to last : ℕ) → rest_of b up_to last ≡ render b (tail_pieces up_to last)
unfolding rest_of render
rest_of-render b up_to last = ground (arith, append_nil (slice b last up_to))

-- The bytes that the loop writes are the rendering of its pieces: the parts of the input it keeps, and a
-- marker in the place of each span it hides.
pub write_out-render :
    (b : Bytes) (up_to last : ℕ) (spans : List Span)
    → (write_out b up_to last spans).0 ≡ render b (pieces up_to last spans)
unfolding write_out pieces render
write_out-render b up_to last [] = rest_of-render b up_to last
write_out-render b up_to last (sp ∷ spans) = elim (Bool-cases (ltb sp.start last)) [
  | inl e ↦ rw e (write_out-render b up_to last spans)
  | inr e ↦ elim (Bool-cases (leb up_to sp.start)) [
    | inl u ↦ rw (e, u) (rest_of-render b up_to last)
    | inr u ↦ rw (e, u) (rw (write_out-render b up_to sp.stop spans))
  ]
]
