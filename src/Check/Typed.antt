-- ===== src/Check/Typed.antt =====
-- internal/check/typed.go: the parsers of the tools' output, from its lines to records. What the regular
-- expressions of the file find in a text is a parameter, since Go's regexp engine is not modelled.
pub mod Complete
use Prim.Native.Char.{Char, code}
use Prim.Native.String
use scheck.Check.Rows.{
  Line, count, read_rows, text_at, last_sep, base_name, without_last, ends_with, trim_last,
  split_host_port, skipped, unparsed, row,
}
use scheck.Prelude.{
  String, ℕ, zero, suc, ◌+◌, Bool, true, false, not, ◌&&◌, ◌||◌, Option, none, some, List, [], ◌∷◌,
  ◌++◌, any, keep, drop, length, get_elem?, leb, ltb, ◌==◌, string_eq, nat_eq, if◌then◌else◌,
}
use scheck.Prelude.Strings.{
  has_prefix, has_infix, trim_prefix, trim_space, to_lower, equal_fold, fields, join, split,
}
use scheck.Check.Catalog.{
  Check, Parser, parse_listeners, parse_accounts, parse_passwd_status, parse_units, parse_updates,
  parse_launchd, parse_file_mode,
}
use scheck.Check.Record.{Record, Records, is_marker_line}

-- The expressions `ssProcess`, `unitsListed`, `suLabel`, `suVersion` and `aptLine`: their first submatches that the
-- parsers read.
pub record Patterns : Type 0 where
  pub ss_process : String → Option (String × String)
  pub units_listed : String → Bool
  pub su_label : String → Option String
  pub su_version : String → Option String
  pub apt_line : String → Option (String × String)

-- One line of `parseSS`.
ss_line : Patterns → String → Line
ss_line pats l =
    let f = fields l in
    let (addr, port) = split_host_port (text_at f 4) in
    let rec =
      ("protocol", text_at f 0)
      ∷ ("state", text_at f 1)
      ∷ ("address", addr)
      ∷ ("port", port)
      ∷ [] in
    if ltb (length f) 5
    then unparsed
    else if ltb 6 (length f)
    then row (rec ++ owner (pats.ss_process (join (drop 6 f) " ")))
    else row rec
  where
    owner : Option (String × String) → Record
    owner none = []
    owner (some (process, pid)) = ("process", process) ∷ ("pid", pid) ∷ []

-- One line of `parseLsof`.
lsof_line : String → Line
lsof_line l =
    let f = fields l in
    let (addr, port) = split_host_port (text_at f 8) in
    if ltb 0 (length f) && text_at f 0 == "COMMAND"
    then skipped
    else if not (has_infix l "(LISTEN)")
    then skipped
    else if ltb (length f) 9
    then unparsed
    else row (
        ("protocol", to_lower (text_at f 7))
        ∷ ("state", "LISTEN")
        ∷ ("address", addr)
        ∷ ("port", port)
        ∷ ("pid", text_at f 1)
        ∷ ("process", text_at f 0)
        ∷ [])

-- One line of `parseAccounts`.
pub account_line : String → Line
account_line l =
    let f = split l b':' in
    let g = fields l in
    if has_prefix l "#"
    then skipped
    else if has_infix l "[REDACTED" || has_infix l "[TRUNCATED"
    then unparsed
    else if length f == 7
    then row (
        ("name", text_at f 0)
        ∷ ("uid", text_at f 2)
        ∷ ("home", text_at f 5)
        ∷ ("shell", text_at f 6)
        ∷ [])
    else if length g == 2
    then row (("name", text_at g 0) ∷ ("uid", text_at g 1) ∷ [])
    else unparsed

-- One line of `parsePasswdStatus`.
passwd_status_line : String → Line
passwd_status_line l =
    let f = fields l in
    if ltb (length f) 2
    then unparsed
    else row (("name", text_at f 0) ∷ ("status", text_at f 1) ∷ [])

-- One line of `parseUnits`.
unit_line : Patterns → String → Line
unit_line pats l =
    let f = fields l in
    if pats.units_listed l
    then skipped
    else if leb 2 (length f) && text_at f 0 == "UNIT" && text_at f 1 == "FILE"
    then skipped
    else if ltb (length f) 2
    then unparsed
    else row (("name", text_at f 0) ∷ ("state", text_at f 1) ∷ [])

version_of : Option String → Record
version_of none = []
version_of (some v) = ("version", trim_space v) ∷ []

-- The version on the line behind a label.
next_version : Patterns → List String → Record
next_version pats [] = []
next_version pats (l ∷ ls) = version_of (pats.su_version l)

-- The loop of `parseUpdates` over the lines of `softwareupdate`.
software_updates : Patterns → List String → List Record
software_updates pats [] = []
software_updates pats (l ∷ ls) =
    labelled (pats.su_label (trim_space l)) (next_version pats ls) (software_updates pats ls)
  where
    labelled : Option String → Record → List Record → List Record
    labelled none version rest = rest
    labelled (some label) version rest = (("name", trim_space label) ∷ version) ∷ rest

-- The other cases of `parseUpdates`, one line of each.
apt_row : Option (String × String) → Line
apt_row none = unparsed
apt_row (some (name, version)) = row (("name", name) ∷ ("version", version) ∷ [])

apt_update : Patterns → String → Line
apt_update pats l =
    if has_prefix l "Listing" || has_prefix l "WARNING" || has_prefix l "N: "
    then skipped
    else apt_row (pats.apt_line l)

zypper_update : String → Line
zypper_update l =
    let f = split l b'|' in
    let name = trim_space (text_at f 1) in
    if ltb (length f) 4 || has_prefix (trim_space l) "-"
    then skipped
    else if name == "" || equal_fold name "Name"
    then skipped
    else row (("name", name) ∷ ("version", trim_space (text_at f 2)) ∷ [])

dnf_update : String → Line
dnf_update l =
    let f = fields l in
    if has_prefix l "Last metadata" || has_prefix l "Obsoleting"
    then skipped
    else if ltb (length f) 3
    then unparsed
    else row (("name", text_at f 0) ∷ ("version", text_at f 1) ∷ [])

-- `parseUpdates`.
updates : Patterns → String → List String → List Record × ℕ
updates pats bin ls =
    if bin == "softwareupdate"
    then (software_updates pats ls, 0)
    else if bin == "apt"
    then read_rows (apt_update pats) ls
    else if bin == "zypper"
    then read_rows zypper_update ls
    else read_rows dnf_update ls

-- One line of `parseLaunchd`.
launchd_line : String → Line
launchd_line l =
    let f = fields l in
    if leb 3 (length f) && text_at f 0 == "PID" && text_at f 2 == "Label"
    then skipped
    else if ltb (length f) 3
    then unparsed
    else row (("pid", text_at f 0) ∷ ("status", text_at f 1) ∷ ("label", text_at f 2) ∷ [])

-- `parseFileMode`; `none` is its error.
file_mode : List String → Option (List Record × ℕ)
file_mode [] = none
file_mode (l ∷ ls) =
    let f = split (trim_space l) b':' in
    let rec =
      ("symbolic", text_at f 0)
      ∷ ("mode", text_at f 1)
      ∷ ("user", text_at f 2)
      ∷ ("group", text_at f 3)
      ∷ ("size", text_at f 4)
      ∷ [] in
    if ltb (length f) 5
    then none
    else if leb 7 (length f)
    then some ((rec ++ ("name", text_at f 6) ∷ []) ∷ [], 0)
    else some (rec ∷ [], 0)

-- `parseListeners`.
listener_rows : Patterns → String → List String → List Record × ℕ
listener_rows pats bin ls =
    if bin == "lsof" then read_rows lsof_line ls else read_rows (ss_line pats) ls

-- The switch of `parseRecords`: the records and how many lines were not recognized.
pub by_shape : Patterns → Parser → String → List String → Option (List Record × ℕ)
by_shape pats parse_listeners bin body = some (listener_rows pats bin body)
by_shape pats parse_accounts bin body = some (read_rows account_line body)
by_shape pats parse_passwd_status bin body = some (read_rows passwd_status_line body)
by_shape pats parse_units bin body = some (read_rows (unit_line pats) body)
by_shape pats parse_updates bin body = some (updates pats bin body)
by_shape pats parse_launchd bin body = some (read_rows launchd_line body)
by_shape pats parse_file_mode bin body = file_mode body
by_shape pats _ bin body = none

pub with_markers : Bool → Option (List Record × ℕ) → Option Records
with_markers marked none = none
with_markers marked (some (items, bad)) =
    some (record { items = items; is_partial = marked || ltb 0 bad })

-- `parseRecords`, from the lines of the output; `none` is an error.
pub parse_records : Patterns → Parser → String → List String → Option Records
parse_records pats kind bin ls =
    with_markers (any is_marker_line ls)
      (by_shape pats kind (base_name bin) (keep (λ l. not (is_marker_line l)) ls))
