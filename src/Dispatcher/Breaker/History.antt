-- ===== src/Dispatcher/Breaker/History.antt =====
-- The circuit breaker against its history: what was recorded for a key since its last success.
use multi_agent_agent_hub.Prelude.{
  ℕ, zero, suc, ◌-◌, ◌<◌, ◌||◌, ◌≡◌, refl, String, Option, none, some, List, [], ◌∷◌, leb,
  if◌then◌else◌, str_eq, eq_iff, arith,
}
use multi_agent_agent_hub.Prelude.Dict.{lookup, lookup-insert, lookup-erase}
use multi_agent_agent_hub.Dispatcher.Breaker.{
  BreakerState, CircuitBreaker, new_circuit_breaker, allow, record_success, record_failure,
}

-- What a dispatcher recorded, the newest first.
pub data Event : Type 0 where
  succeeded : String → Event
  failed : String → ℕ → Event

-- The breaker after the recordings, over all keys.
unfoldable pub replay : ℕ → ℕ → List Event → CircuitBreaker
replay threshold cooldown [] = new_circuit_breaker threshold cooldown
replay threshold cooldown (succeeded key ∷ h) = record_success (replay threshold cooldown h) key
replay threshold cooldown (failed key now ∷ h) =
    record_failure (replay threshold cooldown h) key now

-- How often the key failed since its last success.
abbrev pub failures_since_success : String → List Event → ℕ
failures_since_success key [] = 0
failures_since_success key (succeeded j ∷ h) =
    if str_eq j key then 0 else failures_since_success key h
failures_since_success key (failed j now ∷ h) =
    let rest = failures_since_success key h in if str_eq j key then suc rest else rest

-- When the key failed last; 0 if it never did.
abbrev pub last_failure : String → List Event → ℕ
last_failure key [] = 0
last_failure key (succeeded j ∷ h) = last_failure key h
last_failure key (failed j now ∷ h) = if str_eq j key then now else last_failure key h

-- The state that the map holds for a key with that many failures.
abbrev state_for : ℕ → ℕ → ℕ → Option BreakerState
state_for threshold zero last = none
state_for threshold (suc n) last =
    some (record { failures = suc n; opened_at = if leb threshold (suc n) then last else 0 })

threshold-replay :
    (t c : ℕ) (h : List Event) → ((replay t c h).threshold ≡ t) × ((replay t c h).cooldown ≡ c)
unfolding replay new_circuit_breaker record_success record_failure
threshold-replay t c [] = (refl, refl)
threshold-replay t c (succeeded j ∷ h) = threshold-replay t c h
threshold-replay t c (failed j now ∷ h) = threshold-replay t c h

lookup-replay :
    (t c : ℕ) (key : String) (h : List Event)
    → lookup key (replay t c h).states
      ≡ state_for t (failures_since_success key h) (last_failure key h)
unfolding replay new_circuit_breaker record_success record_failure
lookup-replay t c key [] = unfold lookup in refl
lookup-replay t c key (succeeded j ∷ h) =
    simp lookup-erase (ground (arith, lookup-replay t c key h))
lookup-replay t c key (failed j now ∷ h) = simp lookup-insert (
    ground
      (arith, lookup-replay t c key h, lookup-replay t c j h, threshold-replay t c h, eq_iff j key))

-- After any recordings, a call of a key is let through exactly when the key failed fewer times than
-- the threshold since its last success, or the cooldown has passed since its last failure. What was
-- recorded for other keys plays no part. The threshold is at least 1.
pub allow-replay :
    (t c : ℕ) (h : List Event) (key : String) (now : ℕ)
    → 0 < t
    → allow (replay t c h) key now
      ≡ (leb (suc (failures_since_success key h)) t || leb c (now - last_failure key h))
unfolding allow
allow-replay t c h key now p = rw (lookup-replay t c key h) (ground (arith, threshold-replay t c h))
