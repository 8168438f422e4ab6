-- ===== src/EventBus/Memory/Bounds.antt =====
-- The options of pkg/runtime/eventbus/memory.go after `normalized`, and the length of its queues.
use multi_agent_agent_hub.Prelude.{
  ℕ, zero, suc, ◌≤◌, ◌≡◌, refl, ap, ◌∙◌, sym, subst, String, not, ◌||◌, ◌&&◌, Option, none, some,
  List, [], ◌∷◌, ◌++◌, str_eq, eq_iff, length, length-append, ltb, if◌then◌else◌, arith, if-both,
  Bool-cases, inl, inr,
}
use multi_agent_agent_hub.Prelude.Int.{ℤ, pos, negsuc, pos_part, leb_ℤ}
use multi_agent_agent_hub.Prelude.Dict.{lookup, insert, lookup-insert}
use multi_agent_agent_hub.EventBus.Envelope.{Envelope, Cause}
use multi_agent_agent_hub.EventBus.Memory.{
  MemoryOptions, normalized, clamped_attempts, MemoryBus, World, Action, publishing, consuming,
  pumping, dispatching, stopping, finishing, closing, serving, publish, gated, take, hand_over,
  consume, pump, serve, serve_queue, keep_queue, stop, finish, close, or_nil, deliver,
  duplicate_copies, step, run,
}
use multi_agent_agent_hub.EventBus.Memory.Moves.{queue_of, deliver-Unmoved, kept}

clamped : (n : ℤ) → (m : ℕ) × (clamped_attempts n ≡ pos (suc m)) × (suc m ≤ 32)
clamped (negsuc k) = (4, ground arith, ground arith)
clamped (pos zero) = (4, ground arith, ground arith)
clamped (pos (suc k)) = elim (Bool-cases (ltb 32 (suc k))) [
  | inl above ↦ (31, ground (arith, above), ground arith)
  | inr allowed ↦ (k, ground (arith, allowed), ground (arith, allowed))
]

places : (n : ℤ) → 1 ≤ pos_part (if leb_ℤ n (pos 0) then pos 256 else n)
places n = ground arith

-- For any options, the normalized ones allow 1 to 32 attempts for a delivery, and give each run a
-- queue of at least one place.
pub normalized_bounds :
    (o : MemoryOptions)
    → (m : ℕ) × ((normalized o).max_attempts ≡ pos (suc m))
      × (suc m ≤ 32)
      × (1 ≤ pos_part (normalized o).queue_size)
unfolding normalized
normalized_bounds o = let (m, e, le) = clamped o.max_attempts in (m, e, le, places o.queue_size)

module _ (w : World) (o : MemoryOptions) (r : String) where
  -- The queue of the run holds no more than the options allow.
  Fits : MemoryBus → Type 0
  Fits b = length (queue_of r b) ≤ pos_part o.queue_size

  Fits-same : (b c : MemoryBus) → c.queues ≡ b.queues → Fits b → Fits c
  unfolding Fits
  Fits-same b c e h = subst (λ m. length (or_nil (lookup r m)) ≤ pos_part o.queue_size) (sym e) h

  gated-Fits :
      (p g : Option Cause) (n : Option ℕ) (env : Envelope) (b : MemoryBus)
      → Fits b
      → Fits (gated p g n env b)
  gated-Fits (some e) g n env b h = Fits-same b _ refl h
  gated-Fits none (some e) n env b h = Fits-same b _ refl h
  gated-Fits none none none env b h = Fits-same b _ refl h
  gated-Fits none none (some n) env b h =
      if-both Fits b.closed _ _ (Fits-same b _ refl h) (Fits-same b _ refl h)

  take-Fits :
      (held : Option Envelope) (envs : List Envelope) (b : MemoryBus)
      → Fits b
      → Fits (take held envs b)
  take-Fits (some env) envs b h = h
  take-Fits none [] b h = h
  take-Fits none (env ∷ rest) b h = Fits-same b _ refl h

  queued-Fits :
      (env : Envelope) (b : MemoryBus)
      → Fits b
      → Fits (
          if ltb (length (queue_of env.run_id b)) (pos_part o.queue_size)
          then record b {
            in_hand = none;
            queues = insert env.run_id (queue_of env.run_id b ++ env ∷ []) b.queues;
          }
          else b)
  unfolding Fits
  queued-Fits env b h =
      let q = queue_of env.run_id b in
      let longer = q ++ env ∷ [] in
      let moved : MemoryBus = record b {
        in_hand = none;
        queues = insert env.run_id longer b.queues;
      } in
      elim (Bool-cases (ltb (length q) (pos_part o.queue_size))) [
        | inl free ↦
            let size : length longer ≤ pos_part o.queue_size =
              ground (arith, free, length-append q (env ∷ [])) in
            let at_r = lookup-insert env.run_id r longer b.queues in
            rw free (
              rw at_r (
                if-both (λ x. length (or_nil x) ≤ pos_part o.queue_size) (str_eq env.run_id r)
                  (some longer) (lookup r b.queues) size h))
        | inr full ↦ rw full h
      ]

  hand_over-Fits : (held : Option Envelope) (b : MemoryBus) → Fits b → Fits (hand_over o held b)
  hand_over-Fits none b h = h
  hand_over-Fits (some env) b h =
      if-both Fits b.stopped _ _ (Fits-same b _ refl h) (queued-Fits env b h)

  serve_queue-Fits :
      (run_id : String) (q : List Envelope) (b : MemoryBus)
      → queue_of run_id b ≡ q
      → Fits b
      → Fits (serve_queue w o run_id q b)
  unfolding Fits
  serve_queue-Fits run_id [] b e h = h
  serve_queue-Fits run_id (env ∷ rest) b e h =
      let c : MemoryBus = record b { queues = keep_queue run_id rest b.queues } in
      let u = deliver-Unmoved w o env c in
      let left = kept run_id r rest b.queues in
      let here : Fits c = elim (Bool-cases (str_eq run_id r)) [
        | inl same ↦
            let q : queue_of r b ≡ env ∷ rest =
              ap (λ k. queue_of k b) (sym ((eq_iff run_id r).0 same)) ∙ e in
            rw left (rw same (omega (arith, h, ap length q)))
        | inr other ↦ rw left (rw other h)
      ] in
      Fits-same c (deliver w o env c) u.queues here

  step-Fits : (a : Action) (b : MemoryBus) → Fits b → Fits (step w o b a)
  unfolding step publish consume pump serve stop finish close
  step-Fits (publishing env) b h =
      gated-Fits (w.publish_context env) (w.validate_for_publish env) (duplicate_copies o env) env b
        h
  step-Fits consuming b h = if-both Fits (b.closed || b.running) _ _ h (Fits-same b _ refl h)
  step-Fits pumping b h =
      if-both Fits (not b.pump_on) _ _ h
        (if-both Fits b.closed _ _ (Fits-same b _ refl h) (take-Fits b.in_hand b.pending b h))
  step-Fits dispatching b h = hand_over-Fits b.in_hand b h
  step-Fits stopping b h = if-both Fits b.running _ _ (Fits-same b _ refl h) h
  step-Fits finishing b h =
      if-both Fits (b.running && b.stopped) _ _ (unfold Fits in unfold lookup in omega arith) h
  step-Fits (serving run_id) b h = serve_queue-Fits run_id (queue_of run_id b) b refl h
  step-Fits closing b h = Fits-same b _ refl h

  -- Over any schedule and handler, a run's queue that holds no more envelopes than the options allow at
  -- the start never holds more.
  pub run_bounded :
      (b : MemoryBus) (actions : List Action)
      → length (queue_of r b) ≤ pos_part o.queue_size
      → length (queue_of r (run w o b actions)) ≤ pos_part o.queue_size
  unfolding run Fits
  run_bounded b [] h = h
  run_bounded b (a ∷ actions) h = run_bounded (step w o b a) actions (step-Fits a b h)
