-- ===== src/EventBus/Memory.antt =====
-- pkg/runtime/eventbus/memory.go and dispatch.go: the in-process bus with one consumer group.
--
-- A schedule is a list of actions: what a publisher calls, the start of Consume, the pump taking the
-- oldest pending envelope in hand, its attempt to put that into the queue of its run, a run's worker
-- handling the head of its queue to completion, the stop of the dispatcher, which follows the end of
-- Consume's context or Close, the end of Consume, when the pump and the workers are gone, and Close
-- itself. Any list is a schedule; an action that has nothing to do changes nothing. The workers of
-- two runs share only the maps that the bus's mutex guards, and an event belongs to one run. An
-- envelope that is in hand when the dispatcher stops, and those in the queues when Consume ends, are
-- dropped, as in the source, while the bus stays open for the next Consume.
pub mod Once
pub mod Delivery
pub mod Moves
pub mod Running
pub mod Balance
pub mod Order
pub mod Bounds
mod Tests
use multi_agent_agent_hub.Prelude.{
  ℕ, zero, suc, ◌+◌, ◌-◌, ◌<◌, String, Bool, true, false, not, ◌||◌, ◌&&◌, Option, none, some, List,
  [], ◌∷◌, ◌++◌, length, replicate, str_eq, ltb, leb, ◌==◌, if◌then◌else◌, any,
}
use multi_agent_agent_hub.Prelude.Int.{ℤ, pos, negsuc, pos_part, ltb_ℤ, leb_ℤ}
use multi_agent_agent_hub.Prelude.Dict.{Dict, empty, lookup, insert, erase}
use multi_agent_agent_hub.EventBus.Envelope.{
  Envelope, ErrorClass, Cause, error_class_for_delivery, default_max_attempts, max_attempts_cap,
  DlqEntry, new_dlq_entry,
}

abbrev max_injected_duplicates : ℕ
max_injected_duplicates = 64

-- The options that decide what happens. `should_duplicate` and `fail_handler` are the injectors for
-- tests, which may be nil.
pub record MemoryOptions : Type 0 where
  pub consumer_key : String
  pub max_attempts : ℤ
  pub queue_size : ℤ
  pub duplicates : ℤ
  pub should_duplicate : Option (Envelope → ℕ → Bool)
  pub fail_handler : Option (Envelope → ℕ → Option Cause)

abbrev pub clamped_attempts : ℤ → ℤ
clamped_attempts n =
    if leb_ℤ n (pos 0)
    then default_max_attempts
    else if ltb_ℤ max_attempts_cap n
    then max_attempts_cap
    else n

unfoldable pub normalized : MemoryOptions → MemoryOptions
normalized o = record o {
  consumer_key = if str_eq o.consumer_key "" then "memory.v1" else o.consumer_key;
  max_attempts = clamped_attempts o.max_attempts;
  queue_size = if leb_ℤ o.queue_size (pos 0) then pos 256 else o.queue_size;
}

-- What the hooks are told; an attempt is the number of the handler's call for the delivery.
pub data Hook : Type 0 where
  published : Envelope → Hook
  publish_refused : Envelope → Hook
  consumed : Envelope → ℕ → Hook
  failed : Envelope → ℕ → Hook
  duplicate : Envelope → Hook
  acked : Envelope → Hook
  retried : Envelope → ℕ → ErrorClass → Hook
  dead : DlqEntry → Hook

-- `seen` holds the ids of the completed events, under the consumer's one key. `hooks` is what the
-- hooks were told, the oldest first, `queues` the mailboxes of the runs, `in_hand` the envelope that
-- the pump has taken and not put into a queue. Of the current Consume, `running` tells that it has not
-- returned, `stopped` that its context is done or its dispatcher stopped, `pump_on` that its pump has
-- not returned.
pub record MemoryBus : Type 0 where
  pub pending : List Envelope
  pub seen : List String
  pub dlq : List DlqEntry
  pub closed : Bool
  pub queues : Dict (List Envelope)
  pub in_hand : Option Envelope
  pub running : Bool
  pub stopped : Bool
  pub pump_on : Bool
  pub hooks : List Hook

unfoldable pub new_memory_bus : MemoryBus
new_memory_bus = record {
  pending = [];
  seen = [];
  dlq = [];
  closed = false;
  queues = empty;
  in_hand = none;
  running = false;
  stopped = false;
  pump_on = false;
  hooks = [];
}

abbrev pub tell : List Hook → MemoryBus → MemoryBus
tell hs b = record b { hooks = b.hooks ++ hs }

-- What the bus does not decide: the publisher's gate and context, the consumer's handler (whose
-- answer may change from call to call, so it is given the hooks so far), whether the context is
-- cancelled when it has failed, whether the pause before the next attempt is cut short, the clock.
pub record World : Type 0 where
  pub publish_context : Envelope → Option Cause
  pub validate_for_publish : Envelope → Option Cause
  pub handler : List Hook → Envelope → ℕ → Option Cause
  pub cancelled : List Hook → Bool
  pub pause_cut : List Hook → Bool
  pub now : List Hook → String

-- The copies that the injector asks for from `index` on, `left` at most.
abbrev injected_copies : (Envelope → ℕ → Bool) → Envelope → ℕ → ℕ → ℕ
injected_copies should env zero index = 0
injected_copies should env (suc left) index =
    let rest = injected_copies should env left (suc index) in
    if should env index then suc rest else 0

-- `none` is an error.
abbrev copies_by : Option (Envelope → ℕ → Bool) → ℤ → Envelope → Option ℕ
copies_by (some should) duplicates env =
    let extra = injected_copies should env max_injected_duplicates 1 in
    if extra == max_injected_duplicates then none else some (suc extra)
copies_by none (negsuc n) env = none
copies_by none (pos n) env = if ltb max_injected_duplicates n then none else some (suc n)

unfoldable pub duplicate_copies : MemoryOptions → Envelope → Option ℕ
duplicate_copies o env = copies_by o.should_duplicate o.duplicates env

abbrev pub enqueue : Option ℕ → Envelope → MemoryBus → MemoryBus
enqueue none env b = tell (publish_refused env ∷ []) b
enqueue (some copies) env b =
    if b.closed
    then tell (publish_refused env ∷ []) b
    else tell (published env ∷ []) (record b { pending = b.pending ++ replicate copies env })

abbrev pub gated : Option Cause → Option Cause → Option ℕ → Envelope → MemoryBus → MemoryBus
gated (some e) gate copies env b = tell (publish_refused env ∷ []) b
gated none (some e) copies env b = tell (publish_refused env ∷ []) b
gated none none copies env b = enqueue copies env b

unfoldable pub publish : World → MemoryOptions → Envelope → MemoryBus → MemoryBus
unfolding duplicate_copies
publish w o env b =
    gated (w.publish_context env) (w.validate_for_publish env) (duplicate_copies o env) env b

abbrev pub contains : String → List String → Bool
contains x ys = any (λ y. str_eq y x) ys

unfoldable pub already_done : MemoryBus → Envelope → Bool
already_done b env = contains env.event_id b.seen

unfoldable pub mark_done : Envelope → MemoryBus → MemoryBus
mark_done env b = record b { seen = env.event_id ∷ b.seen }

-- A failed attempt: dead-lettered when the budget is spent, else a retry.
unfoldable pub nack : World → MemoryOptions → Envelope → ℕ → Cause → MemoryBus → MemoryBus
unfolding error_class_for_delivery new_dlq_entry
nack w o env attempt cause b =
    let class = error_class_for_delivery (some cause) in
    let entry = new_dlq_entry env o.consumer_key (pos attempt) class (w.now b.hooks) in
    if leb_ℤ o.max_attempts (pos attempt)
    then tell (dead entry ∷ []) (record b { dlq = b.dlq ++ entry ∷ [] })
    else tell (retried env attempt class ∷ []) b

abbrev pub injected : Option (Envelope → ℕ → Option Cause) → Envelope → ℕ → Option Cause
injected none env attempt = none
injected (some f) env attempt = f env attempt

-- The injector comes before the handler, which is then not called.
abbrev pub or_handler : World → List Hook → Envelope → ℕ → Option Cause → Option Cause
or_handler w hs env attempt (some e) = some e
or_handler w hs env attempt none = w.handler hs env attempt

unfoldable pub invoke : World → MemoryOptions → MemoryBus → Envelope → ℕ → Option Cause
invoke w o b env attempt = or_handler w b.hooks env attempt (injected o.fail_handler env attempt)

-- What follows an attempt's failure; `again` is the rest of the loop after the bus is told.
abbrev pub after_failure :
    World → MemoryOptions → Envelope → ℕ → Cause → MemoryBus → (MemoryBus → MemoryBus) → MemoryBus
after_failure w o env attempt cause b again =
    let b' = nack w o env attempt cause b in
    let rest = again b' in
    if w.cancelled b.hooks
    then b
    else if leb_ℤ o.max_attempts (pos attempt)
    then b'
    else if w.pause_cut b'.hooks
    then b'
    else rest

-- A success is marked and acked; after a failure the loop may go on.
abbrev pub settle :
    World
    → MemoryOptions
    → Envelope
    → ℕ
    → (MemoryBus → MemoryBus)
    → MemoryBus
    → Option Cause
    → MemoryBus
settle w o env attempt again b none =
    tell (acked env ∷ []) (mark_done env (tell (consumed env attempt ∷ []) b))
settle w o env attempt again b (some cause) =
    after_failure w o env attempt cause (tell (failed env attempt ∷ []) b) again

-- The loop of `deliver` from `attempt` on, with `left` attempts after it.
unfoldable pub attempt_loop : World → MemoryOptions → Envelope → ℕ → ℕ → MemoryBus → MemoryBus
attempt_loop w o env zero attempt b = settle w o env attempt (λ b'. b') b (invoke w o b env attempt)
attempt_loop w o env (suc left) attempt b =
    settle w o env attempt (attempt_loop w o env left (suc attempt)) b (invoke w o b env attempt)

-- A duplicate of a completed event is acked and not handled again.
unfoldable pub deliver : World → MemoryOptions → Envelope → MemoryBus → MemoryBus
unfolding attempt_loop already_done
deliver w o env b =
    if already_done b env
    then tell (duplicate env ∷ acked env ∷ []) b
    else attempt_loop w o env (pos_part o.max_attempts - 1) 1 b

abbrev pub or_nil : Option (List Envelope) → List Envelope
or_nil none = []
or_nil (some q) = q

-- Consume, up to the start of its pump; an error leaves the bus. Its dispatcher is a new one, without
-- queues, as the end of the Consume before has left none.
unfoldable pub consume : MemoryBus → MemoryBus
consume b =
    if b.closed || b.running
    then b
    else record b { running = true; stopped = false; pump_on = true }

-- The pump takes the oldest pending envelope, unless it still holds one.
abbrev pub take : Option Envelope → List Envelope → MemoryBus → MemoryBus
take (some env) pending b = b
take none [] b = b
take none (env ∷ rest) b = record b { pending = rest; in_hand = some env }

unfoldable pub pump : MemoryBus → MemoryBus
pump b =
    if not b.pump_on
    then b
    else if b.closed
    then record b { pump_on = false }
    else take b.in_hand b.pending b

-- One round of the loop of `dispatch`: where the context is done or the dispatcher stopped it returns
-- an error, and so does the pump, without the envelope; else the envelope goes to its run's queue,
-- unless that is full: then it stays for the next round.
abbrev pub hand_over : MemoryOptions → Option Envelope → MemoryBus → MemoryBus
hand_over o none b = b
hand_over o (some env) b =
    let q = or_nil (lookup env.run_id b.queues) in
    if b.stopped
    then record b { in_hand = none; pump_on = false }
    else if ltb (length q) (pos_part o.queue_size)
    then record b { in_hand = none; queues = insert env.run_id (q ++ env ∷ []) b.queues }
    else b

-- Consume's context is done, or the bus's `done` after Close: the dispatcher is told to stop.
unfoldable pub stop : MemoryBus → MemoryBus
stop b = if b.running then record b { stopped = true } else b

-- Consume returns after a stop, when the pump and the workers have; with them go the queues.
unfoldable pub finish : MemoryBus → MemoryBus
finish b =
    if b.running && b.stopped
    then record b { running = false; pump_on = false; in_hand = none; queues = empty }
    else b

-- The queue of a run after its head is handled; an empty queue is dropped.
abbrev pub keep_queue : String → List Envelope → Dict (List Envelope) → Dict (List Envelope)
keep_queue run_id [] queues = erase run_id queues
keep_queue run_id (env ∷ rest) queues = insert run_id (env ∷ rest) queues

abbrev pub serve_queue : World → MemoryOptions → String → List Envelope → MemoryBus → MemoryBus
serve_queue w o run_id [] b = b
serve_queue w o run_id (env ∷ rest) b =
    deliver w o env (record b { queues = keep_queue run_id rest b.queues })

unfoldable pub serve : World → MemoryOptions → String → MemoryBus → MemoryBus
unfolding deliver
serve w o run_id b = serve_queue w o run_id (or_nil (lookup run_id b.queues)) b

-- What Close does under the lock; its stop of the dispatcher and its wait are actions of their own.
unfoldable pub close : MemoryBus → MemoryBus
close b = record b { closed = true; pending = [] }

pub data Action : Type 0 where
  publishing : Envelope → Action
  consuming pumping dispatching stopping finishing closing : Action
  serving : String → Action

unfoldable pub step : World → MemoryOptions → MemoryBus → Action → MemoryBus
unfolding publish consume pump serve stop finish close
step w o b (publishing env) = publish w o env b
step w o b consuming = consume b
step w o b pumping = pump b
step w o b dispatching = hand_over o b.in_hand b
step w o b (serving run_id) = serve w o run_id b
step w o b stopping = stop b
step w o b finishing = finish b
step w o b closing = close b

unfoldable pub run : World → MemoryOptions → MemoryBus → List Action → MemoryBus
unfolding step
run w o b [] = b
run w o b (a ∷ actions) = run w o (step w o b a) actions
