-- ===== src/Samples/Gates.antt =====
-- Addresses, limiters and listeners.
use Prim.Native.Nat.{◌^◌}
use scheck.Prelude.{
  ℕ, ◌≡◌, ◌+◌, ◌*◌, true, false, not, ◌&&◌, none, some, List, [], ◌∷◌, any, is_some, arith, inr,
}
use scheck.Engagement.Gate.Address.{
  Addr, prefix4, v4, v6, mapped_base, nat64_base, six_to4_base, at_least_not_public, classify_to,
}
use scheck.Engagement.Gate.Address.Embedded.{class_of, classify_to_total, classify_to-embedded}
use scheck.Engagement.Gate.Answer.{AddressRef, network, refuse_answer}
use scheck.Engagement.Gate.Answer.Permitted.{is_permitted, refuse_answer-permitted}
use scheck.Engagement.Gate.Limiter.{
  Limiter, Provider, served, ended, acquire, take_tick, start_at, release_all, throttle,
}
use scheck.Engagement.Gate.Limiter.Spaced.{Step, Steps, Spaced, Fits, Steps-Spaced}
use scheck.Engagement.Gate.Limiter.Balanced.{held_of, count_of, taken_by, throttle_balanced}
use scheck.Engagement.Rules.Listeners.{Listening, Listener, beyond, read_listening}
use scheck.Engagement.Rules.Databases.{Reach, db_listens_unfiltered}
use scheck.Engagement.Rules.Databases.Disproved.{
  clears_host, may_be_database, db_listens_unfiltered-clears_host,
}

-- 169.254.169.254.
abbrev metadata_v4 : ℕ
metadata_v4 = 0xa9fea9fe

classify_to_total_example :
    (classify_to 2 (v4 metadata_v4) ≡ some (class_of (v4 metadata_v4)))
    × (classify_to 2 (v6 metadata_v4 "") ≡ some (class_of (v6 metadata_v4 "")))
classify_to_total_example = classify_to_total 0 metadata_v4

classify_to-embedded_example :
    (classify_to 2 (v6 (mapped_base + metadata_v4) "")
      ≡ at_least_not_public (classify_to 1 (v4 metadata_v4)))
    × (classify_to 2 (v6 (nat64_base + metadata_v4) "")
        ≡ at_least_not_public (classify_to 1 (v4 metadata_v4)))
    × (classify_to 2 (v6 (six_to4_base + metadata_v4 * 2 ^ 80 + 1) "")
        ≡ at_least_not_public (classify_to 1 (v4 metadata_v4)))
classify_to-embedded_example = classify_to-embedded 0 metadata_v4 1 (omega arith) (omega arith)

abbrev paced : Limiter
paced = record { interval = 100; next = 0; capacity = 2; held = 0 }

abbrev paced1 : Limiter
paced1 = record { interval = 100; next = 107; capacity = 2; held = 1 }

abbrev paced2 : Limiter
paced2 = record { interval = 100; next = 207; capacity = 2; held = 2 }

first : Step paced (7 ∷ []) paced1
unfolding acquire take_tick start_at
first = Step.acquires served 7 (inr (omega arith))

second : Step paced1 (107 ∷ []) paced2
unfolding acquire take_tick start_at
second = Step.acquires served 8 (inr (omega arith))

paced_run : Steps paced (7 ∷ 107 ∷ []) paced2
paced_run =
    Steps.then_steps paced paced1 paced2 (7 ∷ []) (107 ∷ []) first
      (Steps.then_steps paced1 paced2 paced2 (107 ∷ []) [] second (Steps.done paced2))

Steps-Spaced_example :
    Spaced 100 0 (7 ∷ 107 ∷ []) × (paced2.capacity ≡ paced.capacity) × Fits paced2
Steps-Spaced_example = Steps-Spaced paced paced2 (7 ∷ 107 ∷ []) (omega arith) paced_run

abbrev crt_sh : Provider
crt_sh = record { web = false; rate = some 1000000000; concurrency = 1 }

-- The wait for the provider's limiter fails, and the slot of the asset is given back.
throttle_balanced_example :
    (held_of (throttle [] "a" "crt.sh" crt_sh (some 5) 2 served 0 ended 9).0 "asset:a"
      ≡ held_of [] "asset:a"
        + count_of "asset:a"
            (taken_by (throttle [] "a" "crt.sh" crt_sh (some 5) 2 served 0 ended 9).1))
    × (held_of
          (release_all
            (throttle [] "a" "crt.sh" crt_sh (some 5) 2 served 0 ended 9).0
            (taken_by (throttle [] "a" "crt.sh" crt_sh (some 5) 2 served 0 ended 9).1))
          "asset:a"
        ≡ held_of [] "asset:a")
throttle_balanced_example =
    throttle_balanced [] "a" "crt.sh" crt_sh (some 5) 2 served 0 ended 9 "asset:a"

-- Postgres, open to all.
abbrev postgres : Listening
postgres =
    read_listening (λ s. none)
      ((("protocol", "tcp")
          ∷ ("state", "LISTEN")
          ∷ ("address", "0.0.0.0")
          ∷ ("port", "5432")
          ∷ ("process", "postgres")
          ∷ [])
        ∷ [])
      false

abbrev all_open : List Listener → Reach
all_open ls = record { is_open = true; unknown = none }

db_listens_unfiltered-clears_host_example :
    any clears_host (db_listens_unfiltered all_open (some postgres)) ≡ (
      postgres.complete && not (any (λ g. any (may_be_database g.port) (beyond g)) postgres.groups))
db_listens_unfiltered-clears_host_example = db_listens_unfiltered-clears_host all_open postgres

-- 10.0.0.0/8 is a root, and 10.1.0.0/16 an exclude, which also holds 10.1.2.3 behind NAT64.
abbrev ten : List AddressRef
ten = network (prefix4 0x0a000000 8) ∷ []

abbrev ten_one : List AddressRef
ten_one = network (prefix4 0x0a010000 16) ∷ []

abbrev answer : List Addr
answer = v6 (nat64_base + 0x0a010203) "" ∷ v4 0x0a020304 ∷ v4 0x0a020304 ∷ []

refuse_answer-permitted_example :
    is_some (refuse_answer ten_one ten answer) ≡ any (λ a. not (is_permitted ten_one ten a)) answer
refuse_answer-permitted_example = refuse_answer-permitted ten_one ten answer
