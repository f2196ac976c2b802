-- ===== src/Engagement/Gate/Limiter.antt =====
-- internal/engagement/gate/throttle.go and admit.go: the limiters that pace the requests, and the two that a
-- request passes. Times and durations are nanoseconds. A rate is `none` where Go's is not positive, and otherwise
-- the interval that it stands for, since Go computes that in floating point.
pub mod Spaced
pub mod Balanced
use Prim.Native.Nat.{◌-◌}
use scheck.Prelude.{
  String, ℕ, zero, suc, ◌+◌, max, Bool, true, false, not, ◌&&◌, ◌||◌, Option, none, some, List, [],
  ◌∷◌, map_get, ltb, ◌==◌, string_eq, nat_eq, if◌then◌else◌,
}
use Prim.Native.String.{◌++◌ as append}

-- `limiter`: of the channel `sem`, its capacity and how many slots are taken.
pub record Limiter : Type 0 where
  pub interval : ℕ
  pub next : ℕ
  pub capacity : ℕ
  pub held : ℕ

interval_of : Option ℕ → ℕ
interval_of none = 0
interval_of (some i) = i

-- `newLimiter`.
pub new_limiter : Option ℕ → ℕ → Limiter
new_limiter rate concurrency = record {
  interval = interval_of rate;
  next = 0;
  capacity = if ltb concurrency 1 then 1 else concurrency;
  held = 0;
}

-- The start that `acquire` gives at a time, and the limiter that it leaves: it takes a slot.
unfoldable pub start_at : Limiter → ℕ → ℕ
start_at l t = max l.next t

unfoldable pub take_tick : Limiter → ℕ → Limiter
take_tick l t = record l { next = start_at l t + l.interval; held = suc l.held }

-- `release`.
unfoldable pub release : Limiter → Limiter
release l = record l { held = l.held - 1 }

-- What happens to the context while `acquire` waits: nothing, or it ends in the wait for a slot or in the sleep.
pub data Wait : Type 0 where
  served ended ended_asleep : Wait

-- What `acquire` does once its waits are over, at a time `t`: the limiter, and the start of the request unless the
-- context ended. Without a free slot only the context's end lets it return; a sleep of no length does not end.
unfoldable pub acquire : Limiter → Wait → ℕ → Limiter × Option ℕ
acquire l ended t = (l, none)
acquire l served t = (take_tick l t, some (start_at l t))
acquire l ended_asleep t =
    if ltb t (start_at l t)
    then (release (take_tick l t), none)
    else (take_tick l t, some (start_at l t))

-- `limiters`.
abbrev pub Limiters : Type 0
Limiters = List (String × Limiter)

or_new : Option ℕ → ℕ → Option Limiter → Limiter
or_new rate concurrency none = new_limiter rate concurrency
or_new rate concurrency (some l) = l

-- `limiters.get`: the limiter of the key, made on first use.
pub get : Limiters → String → Option ℕ → ℕ → Limiter
get ls key rate concurrency = or_new rate concurrency (map_get ls key)

-- The map after the limiter of a key has changed.
pub put : Limiters → String → Limiter → Limiters
put ls key l = (key, l) ∷ ls

-- `acquire` of the limiter of a key.
pub acquire_key : Limiters → String → Option ℕ → ℕ → Wait → ℕ → Limiters × Option ℕ
acquire_key ls key rate concurrency w t =
    let (l, start) = acquire (get ls key rate concurrency) w t in (put ls key l, start)

pub release_found : Limiters → String → Option Limiter → Limiters
release_found ls key none = ls
release_found ls key (some l) = put ls key (release l)

pub release_key : Limiters → String → Limiters
release_key ls key = release_found ls key (map_get ls key)

-- `slices.Backward` over the releases.
pub release_all : Limiters → List String → Limiters
release_all ls [] = ls
release_all ls (key ∷ taken) = release_all (release_key ls key) taken

-- What `throttle` reads of a provider.
pub record Provider : Type 0 where
  pub web : Bool
  pub rate : Option ℕ
  pub concurrency : ℕ

is_given : Option ℕ → Bool
is_given none = false
is_given (some i) = true

-- The ceiling of the asset: its own, the default of a web asset, or none.
pub asset_ceiling : Provider → Option ℕ → ℕ → Option (Option ℕ × ℕ)
asset_ceiling prov rate conc =
    let (rate', conc') =
      if prov.web && not (is_given rate) then (some 200000000, 2) else (rate, conc) in
    if is_given rate' || ltb 0 conc'
    then some (rate', (if conc' == 0 then max prov.concurrency 1 else conc'))
    else none

-- What follows the second `acquire`: the keys to release later, the last taken first, or `none` where the context
-- ended, and all is released.
pub on_start : List String → String → Limiters × Option ℕ → Limiters × Option (List String)
on_start taken key r = elim r.1 [
  | none ↦ (release_all r.0 taken, none)
  | some start ↦ (r.0, some (key ∷ taken))
]

-- The second limiter, which a web provider has not.
pub take_provider :
    Limiters → List String → Provider → String → Wait → ℕ → Limiters × Option (List String)
take_provider ls taken prov key w t =
    if prov.web
    then (ls, some taken)
    else on_start taken key (acquire_key ls key prov.rate prov.concurrency w t)

-- What follows the first `acquire`.
pub after_asset :
    Limiters × Option ℕ → String → Provider → String → Wait → ℕ → Limiters × Option (List String)
after_asset r asset prov key w t = elim r.1 [
  | none ↦ (r.0, none)
  | some start ↦ take_provider r.0 (asset ∷ []) prov key w t
]

pub by_ceiling :
    Option (Option ℕ × ℕ)
    → Limiters
    → String
    → String
    → Provider
    → Wait
    → ℕ
    → Wait
    → ℕ
    → Limiters × Option (List String)
by_ceiling none ls asset key prov w t v u = take_provider ls [] prov key v u
by_ceiling (some c) ls asset key prov w t v u =
    after_asset (acquire_key ls asset c.0 c.1 w t) asset prov key v u

-- `Gate.throttle`, with the asset's throttle, and what the two waits come to and when.
pub throttle :
    Limiters
    → String
    → String
    → Provider
    → Option ℕ
    → ℕ
    → Wait
    → ℕ
    → Wait
    → ℕ
    → Limiters × Option (List String)
throttle ls asset provider prov rate conc w t v u =
    by_ceiling (asset_ceiling prov rate conc) ls (append "asset:" asset)
      (append "provider:" provider) prov w t v u
