-- ===== src/Policy/Cut.antt =====
-- internal/policy/redact.go: cutting text that is already redacted, and `Finish`, which redacts and then cuts.
pub mod Whole
use scheck.Prelude.{
  ℕ, zero, suc, ◌+◌, ◌-◌, max, min, String, Bool, true, false, not, ◌&&◌, ◌||◌, Option, none, some,
  List, [], ◌∷◌, ◌++◌, take, drop, slice, length, is_some, ltb, leb, ◌==◌, nat_eq, get_elem?,
  if◌then◌else◌,
}
use scheck.Prelude.Strings.{◌+◌ as concat, decimal, codes}
use scheck.Policy.Redact.{Bytes, Hit, RedactRule, redact_up_to}

-- `bytes.HasPrefix`.
unfoldable pub starts_with : Bytes → Bytes → Bool
starts_with b [] = true
starts_with [] (p ∷ ps) = false
starts_with (x ∷ b) (p ∷ ps) = x == p && starts_with b ps

-- `bytes.LastIndex`, of a pattern that is not empty; `none` is -1.
unfoldable pub last_index : Bytes → Bytes → Option ℕ
last_index [] pat = none
last_index (x ∷ b) pat = elim (last_index b pat) [
  | some i ↦ some (suc i)
  | none ↦ if starts_with (x ∷ b) pat then some 0 else none
]

unfoldable pub next_place : Option ℕ → Option ℕ
next_place none = none
next_place (some i) = some (suc i)

-- `bytes.IndexByte`.
unfoldable pub index_byte : Bytes → ℕ → Option ℕ
index_byte [] c = none
index_byte (x ∷ b) c = let rest = index_byte b c in if x == c then some 0 else next_place rest

-- `[REDACTED:`.
unfoldable pub open_marker : Bytes
open_marker = codes "[REDACTED:"

unfoldable pub past_end : ℕ → ℕ → Option ℕ → ℕ
past_end cut i none = cut
past_end cut i (some j) = i + j + 1

-- The cut behind the marker that starts at a place, if that ends behind the cut.
unfoldable pub past_marker : Bytes → ℕ → Option ℕ → ℕ
past_marker red cut none = cut
past_marker red cut (some i) =
    if ltb i cut && not (is_some (index_byte (slice red i cut) b']'))
    then past_end cut i (index_byte (drop i red) b']')
    else cut

-- The end of the part that is kept, for a cut: moved behind the last marker that starts before it.
unfoldable pub cut_at : Bytes → ℕ → ℕ
cut_at red cut =
    past_marker red cut (last_index (take (min (length red) (cut + 9)) red) open_marker)

-- The mark of a cut.
mark_cut : Bool → ℕ → Bytes
mark_cut source_truncated dropped = codes (
    concat "\n[TRUNCATED:"
      (concat (decimal dropped) (if source_truncated then "+ bytes]" else " bytes]")))

-- `Truncate`: the text, and whether it is cut.
truncate : Bytes → Bool → ℕ → Bytes × Bool
truncate red source_truncated cap =
    if ltb cap (length red)
    then (
      take (cut_at red cap) red ++ mark_cut source_truncated (length red - cut_at red cap),
      true,
    )
    else if source_truncated
    then (red ++ codes "\n[TRUNCATED:unknown bytes]", true)
    else (red, false)

-- `RedactSlack`.
pub redact_slack : ℕ
redact_slack = 4096

-- `Redactor.Finish`.
pub finish : List RedactRule → Bytes → Bool → ℕ → Bytes × Bool × List Hit
finish rules b source_truncated cap =
    let (red, hits) =
      redact_up_to rules b (if source_truncated then length b - redact_slack else length b) in
    let (text, truncated) = truncate red source_truncated cap in (text, truncated, hits)

-- `utf8.RuneStart`.
rune_start : Option ℕ → Bool
rune_start none = true
rune_start (some x) = not (leb 0x80 x && ltb x 0xc0)

-- The cut moved back to the start of a character.
on_boundary : Bytes → ℕ → ℕ
on_boundary red zero = zero
on_boundary red (suc cut) =
    let back = on_boundary red cut in if rune_start (get_elem? red (suc cut)) then suc cut else back

-- `CutLabel`.
cut_label : Bytes → ℕ → Bytes
cut_label red cap =
    let cut = cut_at red (on_boundary red cap) in
    if leb (length red) cap
    then red
    else if leb (length red) cut
    then red
    else take cut red
      ++ codes (concat "[TRUNCATED:" (concat (decimal (length red - cut)) " bytes]"))
