-- ===== src/EventBus/Memory/Tests.antt =====
-- A bus with two runs, a handler that fails at first, and an injected duplicate.
use multi_agent_agent_hub.Prelude.{
  ℕ, suc, ◌≤◌, ◌≡◌, refl, false, String, none, some, List, [], ◌∷◌, ◌++◌, ◌⊎◌, ◌==◌, if◌then◌else◌,
  true, length, arith,
}
use multi_agent_agent_hub.Prelude.Int.{pos, pos_part}
use multi_agent_agent_hub.EventBus.Envelope.{
  Envelope, plain, error_class_for_delivery, new_dlq_entry,
}
use multi_agent_agent_hub.EventBus.Memory.{
  MemoryOptions, normalized, new_memory_bus, World, Action, publishing, consuming, pumping,
  dispatching, stopping, finishing, serving, run, published, deliver, step, publish, consume, pump,
  serve, stop, finish, duplicate_copies, attempt_loop, already_done, mark_done, nack, invoke,
}
use multi_agent_agent_hub.EventBus.Memory.Once.{IsOnce, run-IsOnce}
use multi_agent_agent_hub.EventBus.Memory.Delivery.{Completed, DeadLettered, deliver_ends}
use multi_agent_agent_hub.EventBus.Memory.Bounds.{normalized_bounds, run_bounded}
use multi_agent_agent_hub.EventBus.Memory.Moves.{queue_of}
use multi_agent_agent_hub.EventBus.Memory.Balance.{waiting, of_run}
use multi_agent_agent_hub.EventBus.Memory.Order.{taken_over, accepted_over, run_in_order}
use multi_agent_agent_hub.Prelude.Dict.{lookup, insert, erase}

abbrev event : String → String → Envelope
event id run_id = record {
  event_id = id;
  kind = "run.started";
  run_id = run_id;
  seq = pos 1;
  occurred_at = "";
}

abbrev options : MemoryOptions
options = record {
  consumer_key = "signal.v1";
  max_attempts = pos 3;
  queue_size = pos 2;
  duplicates = pos 1;
  should_duplicate = none;
  fail_handler = none;
}

-- The handler fails at the first attempt.
abbrev world : World
world = record {
  publish_context = λ env. none;
  validate_for_publish = λ env. none;
  handler = λ hs env attempt. if attempt == 1 then some plain else none;
  cancelled = λ hs. false;
  pause_cut = λ hs. false;
  now = λ hs. "t";
}

abbrev schedule : List Action
schedule =
    publishing (event "e1" "r1")
    ∷ publishing (event "e2" "r2")
    ∷ consuming
    ∷ pumping
    ∷ dispatching
    ∷ serving "r1"
    ∷ pumping
    ∷ dispatching
    ∷ pumping
    ∷ dispatching
    ∷ serving "r1"
    ∷ serving "r2"
    ∷ []

handled_once : length ((run world options new_memory_bus schedule).seen) ≡ 2
unfolding run step publish consume pump serve duplicate_copies deliver attempt_loop already_done
    mark_done nack invoke new_memory_bus error_class_for_delivery new_dlq_entry lookup insert erase
handled_once = refl

-- Consume ends with one copy of an envelope in its run's queue and the other in hand: both are lost,
-- and the next Consume has nothing to handle.
abbrev interrupted : List Action
interrupted =
    publishing (event "e1" "r1")
    ∷ consuming
    ∷ pumping
    ∷ dispatching
    ∷ pumping
    ∷ stopping
    ∷ dispatching
    ∷ finishing
    ∷ consuming
    ∷ pumping
    ∷ dispatching
    ∷ serving "r1"
    ∷ []

lost_at_stop : run world options new_memory_bus interrupted ≡ record new_memory_bus {
  running = true;
  pump_on = true;
  hooks = published (event "e1" "r1") ∷ [];
}
unfolding run step publish consume pump serve stop finish duplicate_copies new_memory_bus lookup
    insert erase
lost_at_stop = refl

run-IsOnce_example : IsOnce (run world options new_memory_bus schedule)
unfolding new_memory_bus
run-IsOnce_example = run-IsOnce world options new_memory_bus schedule (record { at = λ x. refl })

deliver_ends_example :
    Completed world options
      (event "e1" "r1")
      1
      2
      new_memory_bus
      (deliver world options (event "e1" "r1") new_memory_bus)
    ⊎ DeadLettered world options
        (event "e1" "r1")
        1
        2
        new_memory_bus
        (deliver world options (event "e1" "r1") new_memory_bus)
unfolding new_memory_bus already_done
deliver_ends_example =
    deliver_ends world options (event "e1" "r1") 2 (λ hs. refl) (λ hs. refl) refl (ground arith)
      new_memory_bus refl

run_in_order_example :
    taken_over world options "r1" new_memory_bus schedule
      ++ waiting "r1" (run world options new_memory_bus schedule)
    ≡ waiting "r1" new_memory_bus
      ++ of_run "r1" (accepted_over world options new_memory_bus schedule)
unfolding new_memory_bus
run_in_order_example = run_in_order world options "r1" new_memory_bus schedule refl (
  refl,
  (refl, (refl, (refl, (refl, (refl, (refl, (refl, (refl, (refl, (refl, (refl, tt))))))))))),
)

normalized_bounds_example :
    (m : ℕ) × ((normalized options).max_attempts ≡ pos (suc m))
    × (suc m ≤ 32)
    × (1 ≤ pos_part (normalized options).queue_size)
normalized_bounds_example = normalized_bounds options

run_bounded_example : length (queue_of "r1" (run world options new_memory_bus schedule)) ≤ 2
unfolding new_memory_bus lookup
run_bounded_example = run_bounded world options "r1" new_memory_bus schedule (ground arith)
