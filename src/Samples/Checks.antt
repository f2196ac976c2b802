-- ===== src/Samples/Checks.antt =====
-- Checks, their arguments and their output.
use scheck.Prelude.{
  String, ◌≡◌, ◌≢◌, ◌<◌, refl, true, false, not, ◌&&◌, ◌||◌, none, some, List, [], ◌∷◌, any, map,
  keep, arith, drop,
}
use scheck.Prelude.Int.{pos}
use scheck.Prelude.Strings.{join, codes, split, cons_head}
use scheck.Finding.Severity.{baseline}
use scheck.Check.Catalog.{
  Check, linux, macos, kind_path, path_metadata, parse_lines, parse_accounts, register, lookup,
  applies_to, is_id, register_one, is_word, word_tail, lower_letter, clashes, platform_beq,
}
use scheck.Check.Catalog.Registered.{lookup-register}
use scheck.Check.Bind.{bind}
use scheck.Check.Bind.Valid.{Ensures, AllFill, bind-AllFill}
use scheck.Check.Record.{Records, is_marker_line}
use scheck.Check.Typed.{Patterns, parse_records}
use scheck.Check.Typed.Complete.{account_of, is_account, is_unread, parse_records_accounts}
use scheck.Policy.Redact.{Bytes}
use scheck.Policy.Cut.{
  cut_at, open_marker, starts_with, last_index, past_marker, index_byte, past_end, next_place,
}
use scheck.Policy.Cut.Whole.{Closed, cut_at-Closed}
use scheck.Sudoers.{escape}
use scheck.Sudoers.Words.{words, words-join-escape}

abbrev pub stat_check : Check
stat_check = record {
  id = "fs.stat";
  platform = linux;
  argv = "stat" ∷ "--" ∷ "{path}" ∷ [];
  params =
      record { name = "path"; kind = kind_path; values = []; lowest = pos 0; highest = pos 0 } ∷ [];
  parser = parse_lines;
  baseline = false;
  min_profile = baseline;
  elevated = false;
  exit_ok = none;
  hard = pos 0;
  output = pos 0;
  path_use = path_metadata;
  canary = false;
  extract = "";
}

abbrev mac_stat : Check
mac_stat = record stat_check { platform = macos }

registered : register [] (stat_check ∷ mac_stat ∷ []) ≡ some (stat_check ∷ mac_stat ∷ [])
unfolding register register_one is_id is_word word_tail lower_letter clashes platform_beq split
    cons_head
registered = refl

lookup-register_example : lookup (stat_check ∷ mac_stat ∷ []) mac_stat.id macos ≡ some mac_stat
unfolding applies_to platform_beq
lookup-register_example =
    lookup-register (stat_check ∷ mac_stat ∷ []) (stat_check ∷ mac_stat ∷ []) 1 mac_stat macos
      registered refl refl

bind-AllFill_example :
    Ensures
      (AllFill stat_check (("path", "/etc/passwd") ∷ []) ("stat" ∷ "--" ∷ "{path}" ∷ []))
      (bind stat_check (("path", "/etc/passwd") ∷ []))
bind-AllFill_example = bind-AllFill stat_check (("path", "/etc/passwd") ∷ [])

-- Expressions that match nothing.
abbrev pub no_patterns : Patterns
no_patterns = record {
  ss_process = λ s. none;
  units_listed = λ s. false;
  su_label = λ s. none;
  su_version = λ s. none;
  apt_line = λ s. none;
}

abbrev passwd : List String
passwd = "# users" ∷ "ada:x:1000:1000::/home/ada:/bin/bash" ∷ "bob:[REDACTED:x]:1:1::/:/bin/sh" ∷ []

parse_records_accounts_example :
    (r : Records) × (parse_records no_patterns parse_accounts "cat" passwd ≡ some r)
    × (r.items ≡ map account_of (keep (λ l. not (is_marker_line l) && is_account l) passwd))
    × (r.is_partial ≡ any (λ l. is_marker_line l || is_unread l) passwd)
parse_records_accounts_example = parse_records_accounts no_patterns "cat" passwd

-- A cut of two bytes behind the start of a marker.
abbrev marked : Bytes
marked = codes "ab[REDACTED:k:3 bytes]cd"

marked_start : starts_with (drop 2 marked) open_marker ≡ true
unfolding starts_with open_marker
marked_start = refl

marked_cut : 2 < cut_at marked 4
unfolding cut_at last_index past_marker index_byte past_end next_place starts_with open_marker
marked_cut = omega arith

cut_at-Closed_example : Closed marked 2 (cut_at marked 4)
cut_at-Closed_example = cut_at-Closed marked 4 2 21 marked_start marked_cut (omega arith) refl

abbrev tok_a : String
tok_a = "a b:c"

abbrev tok_b : String
tok_b = "--x=\\y"

nonempty_a : tok_a ≢ ""
nonempty_a = λ e. cc

nonempty_b : tok_b ≢ ""
nonempty_b = λ e. cc

words-join-escape_example :
    words (join (map escape (tok_a ∷ tok_b ∷ [])) " ") ≡ some (tok_a ∷ tok_b ∷ [])
words-join-escape_example = words-join-escape tok_a (tok_b ∷ []) (nonempty_a, (nonempty_b, tt))
