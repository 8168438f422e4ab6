-- ===== src/EventBus/Memory/Running.antt =====
-- What stops the consumption of pkg/runtime/eventbus/memory.go, and what does not.
use multi_agent_agent_hub.Prelude.{
  ℕ, ◌≡◌, refl, ◌∙◌, String, Bool, true, false, not, ◌||◌, Option, none, some, List, [], ◌∷◌, ltb,
  arith, if-both, length,
}
use multi_agent_agent_hub.Prelude.Int.{pos_part}
use multi_agent_agent_hub.EventBus.Envelope.{Envelope, Cause}
use multi_agent_agent_hub.EventBus.Memory.{
  MemoryOptions, MemoryBus, World, publish, consume, pump, serve, gated, take, hand_over,
  serve_queue, keep_queue, Action, publishing, consuming, pumping, dispatching, stopping, finishing,
  closing, serving, step, duplicate_copies,
}
use multi_agent_agent_hub.EventBus.Memory.Moves.{queue_of, deliver-Unmoved}

-- Close, and the stop and the end of Consume.
abbrev pub is_ending : Action → Bool
is_ending closing = true
is_ending stopping = true
is_ending finishing = true
is_ending (publishing env) = false
is_ending consuming = false
is_ending pumping = false
is_ending dispatching = false
is_ending (serving run_id) = false

module _ (w : World) (o : MemoryOptions) where
  -- No other action stops the dispatcher.
  unfoldable pub IsOn : MemoryBus → Type 0
  IsOn b = b.stopped ≡ false

  gated-IsOn :
      (p g : Option Cause) (n : Option ℕ) (env : Envelope) (b : MemoryBus)
      → IsOn b
      → IsOn (gated p g n env b)
  unfolding IsOn
  gated-IsOn (some e) g n env b on = on
  gated-IsOn none (some e) n env b on = on
  gated-IsOn none none none env b on = on
  gated-IsOn none none (some n) env b on = if-both IsOn b.closed _ _ on on

  take-IsOn :
      (h : Option Envelope) (envs : List Envelope) (b : MemoryBus) → IsOn b → IsOn (take h envs b)
  unfolding IsOn
  take-IsOn (some env) envs b on = on
  take-IsOn none [] b on = on
  take-IsOn none (env ∷ rest) b on = on

  hand_over-IsOn : (h : Option Envelope) (b : MemoryBus) → IsOn b → IsOn (hand_over o h b)
  unfolding IsOn
  hand_over-IsOn none b on = on
  hand_over-IsOn (some env) b on =
      if-both IsOn b.stopped _ _ on
        (if-both IsOn (ltb (length (queue_of env.run_id b)) (pos_part o.queue_size)) _ _ on on)

  serve_queue-IsOn :
      (run_id : String) (q : List Envelope) (b : MemoryBus)
      → IsOn b
      → IsOn (serve_queue w o run_id q b)
  unfolding IsOn
  serve_queue-IsOn run_id [] b on = on
  serve_queue-IsOn run_id (env ∷ rest) b on =
      (deliver-Unmoved w o env (record b { queues = keep_queue run_id rest b.queues })).stopped ∙ on

  pub step-IsOn : (a : Action) (b : MemoryBus) → is_ending a ≡ false → IsOn b → IsOn (step w o b a)
  unfolding step publish consume pump serve IsOn
  step-IsOn (publishing env) b h on =
      gated-IsOn (w.publish_context env) (w.validate_for_publish env) (duplicate_copies o env) env b
        on
  step-IsOn consuming b h on = if-both IsOn (b.closed || b.running) _ _ on refl
  step-IsOn pumping b h on =
      if-both IsOn (not b.pump_on) _ _ on
        (if-both IsOn b.closed _ _ on (take-IsOn b.in_hand b.pending b on))
  step-IsOn dispatching b h on = hand_over-IsOn b.in_hand b on
  step-IsOn (serving run_id) b h on = serve_queue-IsOn run_id (queue_of run_id b) b on
  step-IsOn stopping b h on = ground arith
  step-IsOn finishing b h on = ground arith
  step-IsOn closing b h on = ground arith
