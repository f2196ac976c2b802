-- ===== src/Samples/Hosts.antt =====
-- Facts of a host, and the posture rules that read them.
use scheck.Prelude.{
  none, ◌≡◌, ◌↔◌, refl, true, false, some, List, [], ◌∷◌, any, all, keep, map, string_eq,
}
use scheck.Check.Record.{Record, Records, records}
use scheck.Check.Catalog.{Check, linux, parse_passwd_status, path_none}
use scheck.Prelude.Int.{pos}
use scheck.Finding.Severity.{high, baseline}
use scheck.Finding.Catalog.{Def, register, hosts, not_exposure}
use scheck.Finding.Catalog.Registered.{IsRegistered, added, empty}
use scheck.Finding.Evaluate.Reported.{has_id, fires_for, evaluate-fires_for}
use scheck.Finding.Predicate.{matched, not_matched, FieldEquals, eval_field_equals}
use scheck.Finding.Predicate.Fields.{holds, clear, eval_field_equals_iff}
use scheck.Finding.Join.{StatusWithLoginShell, decide_records}
use scheck.Finding.Join.Accounts.{can_log_in, is_cleared, decide_records_iff}
use scheck.Finding.Posture.{
  Rule, FactSheet, Reading, login_shell, ok, denied, usable, no_fact, eval_rule, of_result,
  by_status, reason_code,
}
use scheck.Finding.Posture.Unusable.{RestsOn, eval_rule-RestsOn}
use scheck.Finding.Evaluate.{assess, on_platform, sorted_rules, evaluate}
use scheck.Finding.Evaluate.Coverage.{evaluate-assessments}

abbrev no_password : Record
no_password = ("name", "ada") ∷ ("status", "NP") ∷ []

abbrev locked : Record
locked = ("name", "bob") ∷ ("status", "L") ∷ []

abbrev shells : Records
shells = record {
  items = (("name", "ada") ∷ ("uid", "1000") ∷ ("shell", "/usr/sbin/nologin") ∷ []) ∷ [];
  is_partial = false;
}

abbrev join_rule : StatusWithLoginShell
join_rule = record { name = "status"; value = "NP"; known_values = "p" ∷ "l" ∷ "np" ∷ [] }

abbrev status_rule : FieldEquals
status_rule = record { name = "status"; value = "NP"; known_values = "p" ∷ "l" ∷ "np" ∷ [] }

decide_records_iff_example :
    (((decide_records join_rule false (some shells) (no_password ∷ locked ∷ [])).verdict.status
        ≡ matched)
      ↔ (any (can_log_in join_rule (some shells)) (no_password ∷ locked ∷ []) ≡ true))
    × (((decide_records join_rule false (some shells) (no_password ∷ locked ∷ [])).verdict.status
          ≡ not_matched)
        ↔ ((false ≡ false)
            × (all (is_cleared join_rule (some shells)) (no_password ∷ locked ∷ []) ≡ true)))
decide_records_iff_example =
    decide_records_iff join_rule false (some shells) no_password (locked ∷ [])

eval_field_equals_iff_example :
    (((eval_field_equals status_rule
          (records (record { items = no_password ∷ []; is_partial = true }))).status
        ≡ matched)
      ↔ (any (holds status_rule) (no_password ∷ []) ≡ true))
    × (((eval_field_equals status_rule
            (records (record { items = no_password ∷ []; is_partial = true }))).status
          ≡ not_matched)
        ↔ ((true ≡ false) × (all (clear status_rule) (no_password ∷ []) ≡ true)))
eval_field_equals_iff_example =
    eval_field_equals_iff status_rule (record { items = no_password ∷ []; is_partial = true })

abbrev pub checks : List Check
checks =
    record {
      id = "accounts.passwd_status";
      platform = linux;
      argv = "passwd" ∷ "-S" ∷ "-a" ∷ [];
      params = [];
      parser = parse_passwd_status;
      baseline = true;
      min_profile = baseline;
      elevated = true;
      exit_ok = none;
      hard = pos 0;
      output = pos 0;
      path_use = path_none;
      canary = false;
      extract = "";
    }
    ∷ []

abbrev pub rule : Rule
rule = record {
  finding = "accounts.empty_password";
  check = "accounts.passwd_status";
  platform = linux;
  when = login_shell join_rule;
  second = "accounts.passwd";
}

abbrev status_reading : Reading
status_reading = record {
  observation = "o1";
  status = ok;
  reason_code = "";
  parsed = records (record { items = no_password ∷ []; is_partial = false });
}

abbrev denied_reading : Reading
denied_reading = record {
  observation = "o2";
  status = denied;
  reason_code = "path";
  parsed = records shells;
}

-- The first check was read, and the second denied.
abbrev half_read : FactSheet
half_read = record {
  platform = linux;
  results = ("accounts.passwd_status", status_reading) ∷ ("accounts.passwd", denied_reading) ∷ [];
}

abbrev unread : FactSheet
unread = record { platform = linux; results = [] }

not_run : usable "accounts.passwd_status" [] unread ≡ no_fact "check-not-run"
unfolding usable of_result
not_run = refl

second_denied : usable "accounts.passwd" [] half_read ≡ no_fact "check-denied:path"
unfolding usable of_result by_status reason_code
second_denied = refl

-- Both checks were read, and the account without a password has a shell.
abbrev both_read : FactSheet
both_read = record {
  platform = linux;
  results =
      ("accounts.passwd_status", status_reading)
      ∷ (
        "accounts.passwd",
        record {
          observation = "o3";
          status = ok;
          reason_code = "";
          parsed = records (record {
            items = (("name", "ada") ∷ ("uid", "1000") ∷ ("shell", "/bin/bash") ∷ []) ∷ [];
            is_partial = false;
          });
        },
      )
      ∷ [];
}

eval_rule-RestsOn_example :
    RestsOn rule [] both_read (eval_rule checks rule linux [] both_read).status
eval_rule-RestsOn_example = eval_rule-RestsOn checks rule linux [] both_read

evaluate-assessments_example :
    (evaluate checks [] (rule ∷ []) [] (some half_read)).assessments
    ≡ map (assess checks [] [] half_read) (keep (on_platform linux) (sorted_rules (rule ∷ [])))
evaluate-assessments_example = evaluate-assessments checks [] [] half_read (rule ∷ [])

abbrev pub password_def : Def
password_def = record {
  id = "accounts.empty_password";
  title = "An account with no password";
  category = "accounts";
  area = hosts;
  exposure = not_exposure;
  judges = "account";
  base_severity = high;
  impact = "Anyone can log in.";
  remediation = record { summary = "Lock it."; commands = []; caveat = "" };
  premise = [];
  subject = "account";
  ceiling = none;
  host_access = true;
  attributes = [];
  multi_fact = false;
}

password_def-IsRegistered : IsRegistered (password_def ∷ [])
unfolding register
password_def-IsRegistered = added [] (password_def ∷ []) password_def empty refl

abbrev bash_reading : Reading
bash_reading = record {
  observation = "o3";
  status = ok;
  reason_code = "";
  parsed = records (record {
    items = (("name", "ada") ∷ ("uid", "1000") ∷ ("shell", "/bin/bash") ∷ []) ∷ [];
    is_partial = false;
  });
}

-- An account without a password, with an interactive shell.
abbrev pub exposed_host : FactSheet
exposed_host = record {
  platform = linux;
  results = ("accounts.passwd_status", status_reading) ∷ ("accounts.passwd", bash_reading) ∷ [];
}

evaluate-fires_for_example :
    any
      (has_id "accounts.empty_password")
      (evaluate checks (password_def ∷ []) (rule ∷ []) [] (some exposed_host)).findings
    ≡ any
        (fires_for checks (password_def ∷ []) [] exposed_host "accounts.empty_password")
        (rule ∷ [])
evaluate-fires_for_example =
    evaluate-fires_for checks (password_def ∷ []) [] exposed_host "accounts.empty_password"
      (rule ∷ []) password_def-IsRegistered
