-- ===== src/Dispatcher/Breaker/Tests.antt =====
-- Runs of the circuit breaker.
use multi_agent_agent_hub.Prelude.{
  ◌-◌, suc, ◌≡◌, refl, true, false, ◌||◌, List, [], ◌∷◌, none, some, leb, arith,
}
use multi_agent_agent_hub.Prelude.Int.{pos}
use multi_agent_agent_hub.Prelude.Dict.{lookup, insert, erase}
use multi_agent_agent_hub.Dispatcher.Breaker.{
  allow, record_success, record_failure, new_circuit_breaker, with_circuit_breaker,
}
use multi_agent_agent_hub.Dispatcher.Breaker.History.{
  Event, succeeded, failed, replay, failures_since_success, last_failure, allow-replay,
}

abbrev two_failures : List Event
two_failures = failed "a" 50 ∷ failed "b" 45 ∷ failed "a" 40 ∷ succeeded "a" ∷ failed "a" 10 ∷ []

allow-replay_example : allow (replay 2 30 two_failures) "a" 79 ≡ (
    leb (suc (failures_since_success "a" two_failures)) 2
    || leb 30 (79 - last_failure "a" two_failures))
allow-replay_example = allow-replay 2 30 two_failures "a" 79 (omega arith)

open_then_half_open :
    (allow (replay 2 30 two_failures) "a" 79 ≡ false)
    × (allow (replay 2 30 two_failures) "a" 80 ≡ true)
    × (allow (replay 2 30 two_failures) "b" 79 ≡ true)
unfolding allow replay record_failure record_success new_circuit_breaker lookup insert erase
open_then_half_open = (refl, refl, refl)

refused_options :
    (with_circuit_breaker (pos 0) (pos 5) none ≡ none)
    × (with_circuit_breaker (pos 2) (pos 30) none ≡ some (new_circuit_breaker 2 30))
unfolding with_circuit_breaker
refused_options = (refl, refl)
