-- ===== src/EventBus/Memory/Once.antt =====
-- Exactly one completed handling for each event of pkg/runtime/eventbus/memory.go, over any schedule.
use multi_agent_agent_hub.Prelude.{
  ℕ, zero, suc, ◌+◌, ◌-◌, ◌≡◌, refl, sym, ap, ◌∙◌, String, not, ◌||◌, ◌&&◌, false, Option, none,
  some, List, [], ◌∷◌, ◌++◌, str_eq, eq_iff, ltb, if◌then◌else◌, arith, if-both, Bool-cases, inl,
  inr, length,
}
use multi_agent_agent_hub.Prelude.Int.{pos, pos_part, leb_ℤ}
use multi_agent_agent_hub.Prelude.Dict.{lookup, insert}
use multi_agent_agent_hub.EventBus.Envelope.{Envelope, Cause}
use multi_agent_agent_hub.EventBus.Memory.{
  MemoryOptions, MemoryBus, World, Hook, published, publish_refused, consumed, failed, duplicate,
  acked, retried, dead, tell, contains, mark_done, nack, invoke, attempt_loop, deliver, settle,
  gated, take, hand_over, serve_queue, or_nil, Action, publishing, consuming, pumping, dispatching,
  stopping, finishing, closing, serving, step, run, duplicate_copies,
}

-- How often the handler of an event's delivery returned no error.
abbrev completion : String → Hook → ℕ
completion x (consumed env n) = if str_eq env.event_id x then 1 else 0
completion x (published env) = 0
completion x (publish_refused env) = 0
completion x (failed env n) = 0
completion x (duplicate env) = 0
completion x (acked env) = 0
completion x (retried env n class) = 0
completion x (dead entry) = 0

abbrev pub completions : String → List Hook → ℕ
completions x [] = 0
completions x (h ∷ hs) = completion x h + completions x hs

completions-append :
    (x : String) (hs ks : List Hook)
    → completions x (hs ++ ks) ≡ completions x hs + completions x ks
completions-append x [] ks = omega arith
completions-append x (h ∷ hs) ks = omega (arith, completions-append x hs ks)

-- Each event in `seen` was completed once, and each other event never.
pub record IsOnce (b : MemoryBus) : Type 0 where
  pub at : (x : String) → completions x b.hooks ≡ (if contains x b.seen then 1 else 0)

-- A change that completes nothing.
keep :
    (b c : MemoryBus) (ks : List Hook)
    → c.hooks ≡ b.hooks ++ ks
    → c.seen ≡ b.seen
    → ((x : String) → completions x ks ≡ 0)
    → IsOnce b
    → IsOnce c
keep b c ks p q z h = record {
  at = λ x.
      ap (completions x) p
      ∙ (completions-append x b.hooks ks
          ∙ (omega (arith, z x, h.at x) ∙ ap (λ s. if contains x s then 1 else 0) (sym q)));
}

complete :
    (b : MemoryBus) (env : Envelope) (n : ℕ)
    → contains env.event_id b.seen ≡ false
    → IsOnce b
    → IsOnce (tell (acked env ∷ []) (mark_done env (tell (consumed env n ∷ []) b)))
unfolding mark_done
complete b env n fresh h = record {
  at = λ x. ground (
    arith,
    completions-append x (b.hooks ++ consumed env n ∷ []) (acked env ∷ []),
    completions-append x b.hooks (consumed env n ∷ []),
    h.at x,
    eq_iff env.event_id x,
  );
}

tell_failed :
    (b : MemoryBus) (env : Envelope) (n : ℕ) → IsOnce b → IsOnce (tell (failed env n ∷ []) b)
tell_failed b env n h = keep b _ (failed env n ∷ []) refl refl (λ x. refl) h

module _ (w : World) (o : MemoryOptions) where
  nack-IsOnce :
      (env : Envelope) (n : ℕ) (cause : Cause) (b : MemoryBus)
      → IsOnce b
      → IsOnce (nack w o env n cause b)
  unfolding nack
  nack-IsOnce env n cause b h =
      if-both IsOnce (leb_ℤ o.max_attempts (pos n)) _ _
        (keep b _ (dead _ ∷ []) refl refl (λ x. refl) h)
        (keep b _ (retried env n _ ∷ []) refl refl (λ x. refl) h)

  seen-nack :
      (env : Envelope) (n : ℕ) (cause : Cause) (b : MemoryBus)
      → (nack w o env n cause b).seen ≡ b.seen
  unfolding nack
  seen-nack env n cause b = ground arith

  settle-IsOnce :
      (env : Envelope) (n : ℕ) (again : MemoryBus → MemoryBus) (b : MemoryBus)
      (answer : Option Cause)
      → ((c : MemoryBus) → contains env.event_id c.seen ≡ false → IsOnce c → IsOnce (again c))
      → contains env.event_id b.seen ≡ false
      → IsOnce b
      → IsOnce (settle w o env n again b answer)
  settle-IsOnce env n again b none more fresh h = complete b env n fresh h
  settle-IsOnce env n again b (some cause) more fresh h =
      let b' = tell (failed env n ∷ []) b in
      let c = nack w o env n cause b' in
      let told = tell_failed b env n h in
      let hc = nack-IsOnce env n cause b' told in
      let rest = more c (rw (seen-nack env n cause b') fresh) hc in
      if-both IsOnce (w.cancelled b'.hooks) _ _ told (
        if-both IsOnce (leb_ℤ o.max_attempts (pos n)) _ _ hc
          (if-both IsOnce (w.pause_cut c.hooks) _ _ hc rest))

  attempt_loop-IsOnce :
      (env : Envelope) (left n : ℕ) (b : MemoryBus)
      → contains env.event_id b.seen ≡ false
      → IsOnce b
      → IsOnce (attempt_loop w o env left n b)
  unfolding attempt_loop
  attempt_loop-IsOnce env zero n b fresh h =
      settle-IsOnce env n (λ c. c) b (invoke w o b env n) (λ c f k. k) fresh h
  attempt_loop-IsOnce env (suc left) n b fresh h =
      settle-IsOnce env n (attempt_loop w o env left (suc n)) b (invoke w o b env n)
        (attempt_loop-IsOnce env left (suc n)) fresh h

  deliver-IsOnce : (env : Envelope) (b : MemoryBus) → IsOnce b → IsOnce (deliver w o env b)
  deliver-IsOnce env b h = elim (Bool-cases (contains env.event_id b.seen)) [
    | inl old ↦
        unfold deliver in rw old (keep b _ (duplicate env ∷ acked env ∷ []) refl refl (λ x. refl) h)
    | inr fresh ↦
        unfold deliver in
        rw fresh (attempt_loop-IsOnce env (pos_part o.max_attempts - 1) 1 b fresh h)
  ]

  gated-IsOnce :
      (p g : Option Cause) (c : Option ℕ) (env : Envelope) (b : MemoryBus)
      → IsOnce b
      → IsOnce (gated p g c env b)
  gated-IsOnce (some e) g c env b h = keep b _ (publish_refused env ∷ []) refl refl (λ x. refl) h
  gated-IsOnce none (some e) c env b h = keep b _ (publish_refused env ∷ []) refl refl (λ x. refl) h
  gated-IsOnce none none none env b h = keep b _ (publish_refused env ∷ []) refl refl (λ x. refl) h
  gated-IsOnce none none (some n) env b h =
      if-both IsOnce b.closed _ _ (keep b _ (publish_refused env ∷ []) refl refl (λ x. refl) h)
        (keep b _ (published env ∷ []) refl refl (λ x. refl) h)

  take-IsOnce :
      (held : Option Envelope) (pending : List Envelope) (b : MemoryBus)
      → IsOnce b
      → IsOnce (take held pending b)
  take-IsOnce (some env) pending b h = h
  take-IsOnce none [] b h = h
  take-IsOnce none (env ∷ rest) b h = record { at = h.at }

  hand_over-IsOnce :
      (held : Option Envelope) (b : MemoryBus) → IsOnce b → IsOnce (hand_over o held b)
  hand_over-IsOnce none b h = h
  hand_over-IsOnce (some env) b h =
      let q = or_nil (lookup env.run_id b.queues) in
      let c = record b { in_hand = none; queues = insert env.run_id (q ++ env ∷ []) b.queues } in
      if-both IsOnce b.stopped _ _ (record { at = h.at })
        (if-both IsOnce (ltb (length q) (pos_part o.queue_size)) c b (record { at = h.at }) h)

  serve-IsOnce :
      (run_id : String) (q : List Envelope) (b : MemoryBus)
      → IsOnce b
      → IsOnce (serve_queue w o run_id q b)
  serve-IsOnce run_id [] b h = h
  serve-IsOnce run_id (env ∷ rest) b h = deliver-IsOnce env _ (record { at = h.at })

  step-IsOnce : (a : Action) (b : MemoryBus) → IsOnce b → IsOnce (step w o b a)
  step-IsOnce (publishing env) b h =
      unfold step in
      gated-IsOnce (w.publish_context env) (w.validate_for_publish env) (duplicate_copies o env) env
        b h
  step-IsOnce consuming b h =
      unfold step in if-both IsOnce (b.closed || b.running) _ _ h (record { at = h.at })
  step-IsOnce pumping b h =
      unfold step in
      if-both IsOnce (not b.pump_on) _ _ h
        (if-both IsOnce b.closed _ _ (record { at = h.at }) (take-IsOnce b.in_hand b.pending b h))
  step-IsOnce dispatching b h = unfold step in hand_over-IsOnce b.in_hand b h
  step-IsOnce stopping b h = unfold step in if-both IsOnce b.running _ _ (record { at = h.at }) h
  step-IsOnce finishing b h =
      unfold step in if-both IsOnce (b.running && b.stopped) _ _ (record { at = h.at }) h
  step-IsOnce (serving run_id) b h =
      unfold step in serve-IsOnce run_id (or_nil (lookup run_id b.queues)) b h
  step-IsOnce closing b h = unfold step in record { at = h.at }

  -- Over any schedule of publishing, consuming, pumping, serving, stopping and closing, with any
  -- handler, failures, duplicates and cancellations, the handler completes an event at most once: exactly once if the
  -- event is in `seen` at the end, and never if it is not, provided that this held at the start.
  pub run-IsOnce : (b : MemoryBus) (actions : List Action) → IsOnce b → IsOnce (run w o b actions)
  unfolding run
  run-IsOnce b [] h = h
  run-IsOnce b (a ∷ actions) h = run-IsOnce (step w o b a) actions (step-IsOnce a b h)
