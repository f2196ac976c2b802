-- ===== src/Check/Typed/Complete.antt =====
-- When a set of accounts is complete, and which lines its records come from.
use scheck.Prelude.{
  String, ℕ, ◌≡◌, refl, ap, Bool, not, ◌&&◌, ◌||◌, some, List, [], ◌∷◌, map, any, keep, length,
  ◌==◌, if◌then◌else◌, ltb, nat_eq, Bool-cases, inl, inr, arith,
}
use scheck.Prelude.Strings.{has_prefix, has_infix, split, fields}
use scheck.Check.Catalog.{parse_accounts}
use scheck.Check.Record.{Record, Records, is_marker_line}
use scheck.Check.Typed.{Patterns, account_line, by_shape, with_markers, parse_records}
use scheck.Check.Rows.{Line, skipped, unparsed, row, count, read_rows, text_at}

abbrev pub is_comment : String → Bool
is_comment l = has_prefix l "#"

-- The line mentions a marker.
abbrev pub is_marked : String → Bool
is_marked l = has_infix l "[REDACTED" || has_infix l "[TRUNCATED"

-- The line has the seven fields of a passwd line, or the two columns of a listing by `dscl`.
abbrev pub has_shape : String → Bool
has_shape l = length (split l b':') == 7 || length (fields l) == 2

-- The line tells of an account, and nothing of it is hidden.
abbrev pub is_account : String → Bool
is_account l = not (is_comment l) && not (is_marked l) && has_shape l

-- The line should tell of an account, and cannot be read as one.
abbrev pub is_unread : String → Bool
is_unread l = not (is_comment l) && (is_marked l || not (has_shape l))

-- The account of a line: the name, the number, the home and the shell where there are seven fields, and else the
-- name and the number.
abbrev pub account_of : String → Record
account_of l =
    let f = split l b':' in
    let g = fields l in
    if length f == 7
    then ("name", text_at f 0)
      ∷ ("uid", text_at f 2)
      ∷ ("home", text_at f 5)
      ∷ ("shell", text_at f 6)
      ∷ []
    else ("name", text_at g 0) ∷ ("uid", text_at g 1) ∷ []

-- What the parser makes of a line.
reading : String → Line
reading l = if is_comment l then skipped else if is_account l then row (account_of l) else unparsed

account_line-reading : (l : String) → account_line l ≡ reading l
unfolding account_line reading
account_line-reading l = elim (Bool-cases (is_comment l)) [
  | inl e ↦ rw e refl
  | inr e ↦ elim (Bool-cases (is_marked l)) [
    | inl u ↦ rw (e, u) refl
    | inr u ↦ elim (Bool-cases (length (split l b':') == 7)) [
      | inl v ↦ rw (e, u, v) refl
      | inr v ↦ elim (Bool-cases (length (fields l) == 2)) [
        | inl x ↦ rw (e, u, v, x) refl
        | inr x ↦ rw (e, u, v, x) refl
      ]
    ]
  ]
]

-- What a line adds to the records, and to the count of lines that were not recognized.
count-reading :
    (l : String) (rest : List Record × ℕ)
    → ((count (reading l) rest).0 ≡ (if is_account l then account_of l ∷ rest.0 else rest.0))
      × (ltb 0 (count (reading l) rest).1 ≡ (is_unread l || ltb 0 rest.1))
unfolding count reading
count-reading l rest = elim (Bool-cases (is_comment l)) [
  | inl e ↦ rw e (refl, refl)
  | inr e ↦ elim (Bool-cases (is_marked l)) [
    | inl u ↦ rw (e, u) (refl, ground arith)
    | inr u ↦ elim (Bool-cases (has_shape l)) [
      | inl v ↦ rw (e, u, v) (refl, refl)
      | inr v ↦ rw (e, u, v) (refl, ground arith)
    ]
  ]
]

body : List String → List String
body ls = keep (λ l. not (is_marker_line l)) ls

body-accounts :
    (ls : List String)
    → (read_rows account_line (body ls)).0
      ≡ map account_of (keep (λ l. not (is_marker_line l) && is_account l) ls)
unfolding body read_rows
body-accounts [] = refl
body-accounts (l ∷ ls) = elim (Bool-cases (is_marker_line l)) [
  | inl e ↦ rw e (body-accounts ls)
  | inr e ↦
      rw (e, account_line-reading l, (count-reading l (read_rows account_line (body ls))).0)
        (elim (Bool-cases (is_account l)) [
          | inl u ↦ rw u (ap (◌∷◌ (account_of l)) (body-accounts ls))
          | inr u ↦ rw u (body-accounts ls)
        ])
]

body-unread :
    (ls : List String)
    → (any is_marker_line ls || ltb 0 (read_rows account_line (body ls)).1)
      ≡ any (λ l. is_marker_line l || is_unread l) ls
unfolding body read_rows
body-unread [] = refl
body-unread (l ∷ ls) = elim (Bool-cases (is_marker_line l)) [
  | inl e ↦ rw e refl
  | inr e ↦
      rw (e, account_line-reading l, (count-reading l (read_rows account_line (body ls))).1)
        (ground (arith, body-unread ls))
]

-- A listing of accounts always gives records. They are those of the lines that are neither a marker nor a comment,
-- mention no marker, and have the seven fields of a passwd line or two columns, one for each in their order; and
-- the set is partial exactly if some line is a marker or, being no comment, mentions one or has neither shape.
pub parse_records_accounts :
    (pats : Patterns) (bin : String) (ls : List String)
    → (r : Records) × (parse_records pats parse_accounts bin ls ≡ some r)
      × (r.items ≡ map account_of (keep (λ l. not (is_marker_line l) && is_account l) ls))
      × (r.is_partial ≡ any (λ l. is_marker_line l || is_unread l) ls)
unfolding parse_records by_shape with_markers body
parse_records_accounts pats bin ls = (
  record {
    items = (read_rows account_line (body ls)).0;
    is_partial = any is_marker_line ls || ltb 0 (read_rows account_line (body ls)).1;
  },
  refl,
  body-accounts ls,
  body-unread ls,
)
