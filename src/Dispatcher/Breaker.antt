-- ===== src/Dispatcher/Breaker.antt =====
-- The circuit breaker of services/orchestrator/dispatcher/resilience.go. The mutex makes a method one
-- step. Times are nanoseconds of the monotonic clock, and a method takes the clock's reading. A
-- threshold and a cooldown are natural numbers, since WithCircuitBreaker refuses all others.
pub mod History
mod Tests
use multi_agent_agent_hub.Prelude.{
  ℕ, suc, ◌-◌, String, Bool, true, false, Option, none, some, ltb, leb, if◌then◌else◌, List, [],
  ◌∷◌, zero, str_eq, ◌+◌, ◌||◌,
}
use multi_agent_agent_hub.Prelude.Int.{ℤ, pos, pos_part, ltb_ℤ, leb_ℤ}
use multi_agent_agent_hub.Prelude.Dict.{Dict, empty, lookup, insert, erase}

pub record BreakerState : Type 0 where
  pub failures : ℕ
  pub opened_at : ℕ

pub record CircuitBreaker : Type 0 where
  pub threshold : ℕ
  pub cooldown : ℕ
  pub states : Dict BreakerState

unfoldable pub new_circuit_breaker : ℕ → ℕ → CircuitBreaker
new_circuit_breaker threshold cooldown = record {
  threshold = threshold;
  cooldown = cooldown;
  states = empty;
}

-- The option's guard; `none` leaves the dispatcher without a breaker.
unfoldable pub with_circuit_breaker : ℤ → ℤ → Option CircuitBreaker → Option CircuitBreaker
unfolding new_circuit_breaker
with_circuit_breaker fail_threshold cooldown old =
    if ltb_ℤ fail_threshold (pos 1) || leb_ℤ cooldown (pos 0)
    then old
    else some (new_circuit_breaker (pos_part fail_threshold) (pos_part cooldown))

abbrev allow_state : CircuitBreaker → ℕ → Option BreakerState → Bool
allow_state b now none = true
allow_state b now (some st) =
    if ltb st.failures b.threshold
    then true
    else if leb b.cooldown (now - st.opened_at)
    then true
    else false

unfoldable pub allow : CircuitBreaker → String → ℕ → Bool
allow b key now = allow_state b now (lookup key b.states)

unfoldable pub record_success : CircuitBreaker → String → CircuitBreaker
record_success b key = record b { states = erase key b.states }

-- A fresh state has no failures, and its opening time is the zero time.
abbrev state_or_zero : Option BreakerState → BreakerState
state_or_zero none = record { failures = 0; opened_at = 0 }
state_or_zero (some st) = st

abbrev failed_at : CircuitBreaker → ℕ → BreakerState → BreakerState
failed_at b now st = record {
  failures = suc st.failures;
  opened_at = if leb b.threshold (suc st.failures) then now else st.opened_at;
}

unfoldable pub record_failure : CircuitBreaker → String → ℕ → CircuitBreaker
record_failure b key now = record b {
  states = insert key (failed_at b now (state_or_zero (lookup key b.states))) b.states;
}
