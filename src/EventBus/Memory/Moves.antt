-- ===== src/EventBus/Memory/Moves.antt =====
-- What a delivery of pkg/runtime/eventbus/memory.go leaves alone, and the queues of dispatch.go after one.
use multi_agent_agent_hub.Prelude.{
  ℕ, zero, suc, ◌-◌, ◌≡◌, refl, String, Bool, true, false, Option, none, some, List, [], ◌∷◌,
  str_eq, if◌then◌else◌, if-both,
}
use multi_agent_agent_hub.Prelude.Int.{pos, pos_part, leb_ℤ}
use multi_agent_agent_hub.Prelude.Dict.{Dict, lookup, lookup-insert, lookup-erase}
use multi_agent_agent_hub.EventBus.Envelope.{Envelope, Cause}
use multi_agent_agent_hub.EventBus.Memory.{
  MemoryOptions, MemoryBus, World, Hook, tell, already_done, mark_done, nack, invoke, attempt_loop,
  deliver, settle, keep_queue, or_nil,
}

-- The queue of a run.
abbrev pub queue_of : String → MemoryBus → List Envelope
queue_of r b = or_nil (lookup r b.queues)

or_nil-if :
    (c : Bool) (x y : Option (List Envelope))
    → or_nil (if c then x else y) ≡ (if c then or_nil x else or_nil y)
or_nil-if true x y = refl
or_nil-if false x y = refl

-- The queues after the head of one of them is taken.
pub kept :
    (run_id r : String) (q : List Envelope) (qs : Dict (List Envelope))
    → or_nil (lookup r (keep_queue run_id q qs))
      ≡ (if str_eq run_id r then q else or_nil (lookup r qs))
kept run_id r [] qs = rw (lookup-erase run_id r qs) (or_nil-if (str_eq run_id r) none (lookup r qs))
kept run_id r (env ∷ rest) qs =
    rw (lookup-insert run_id r (env ∷ rest) qs)
      (or_nil-if (str_eq run_id r) (some (env ∷ rest)) (lookup r qs))

-- Nothing is moved by a delivery.
pub record Unmoved (b c : MemoryBus) : Type 0 where
  pub queues : c.queues ≡ b.queues
  pub pending : c.pending ≡ b.pending
  pub in_hand : c.in_hand ≡ b.in_hand
  pub stopped : c.stopped ≡ b.stopped

module _ (w : World) (o : MemoryOptions) where
  nack-Unmoved :
      (env : Envelope) (n : ℕ) (cause : Cause) (a b : MemoryBus)
      → Unmoved a b
      → Unmoved a (nack w o env n cause b)
  unfolding nack
  nack-Unmoved env n cause a b h =
      if-both (Unmoved a) (leb_ℤ o.max_attempts (pos n)) _ _
        (record {
          queues = h.queues;
          pending = h.pending;
          in_hand = h.in_hand;
          stopped = h.stopped;
        })
        (record {
          queues = h.queues;
          pending = h.pending;
          in_hand = h.in_hand;
          stopped = h.stopped;
        })

  settle-Unmoved :
      (env : Envelope) (n : ℕ) (again : MemoryBus → MemoryBus) (a b : MemoryBus)
      (answer : Option Cause)
      → ((c : MemoryBus) → Unmoved a c → Unmoved a (again c))
      → Unmoved a b
      → Unmoved a (settle w o env n again b answer)
  unfolding mark_done
  settle-Unmoved env n again a b none more h = record {
    queues = h.queues;
    pending = h.pending;
    in_hand = h.in_hand;
    stopped = h.stopped;
  }
  settle-Unmoved env n again a b (some cause) more h =
      let b' = tell (Hook.failed env n ∷ []) b in
      let h' : Unmoved a b' = record {
        queues = h.queues;
        pending = h.pending;
        in_hand = h.in_hand;
        stopped = h.stopped;
      } in
      let c = nack w o env n cause b' in
      let hc = nack-Unmoved env n cause a b' h' in
      if-both (Unmoved a) (w.cancelled b'.hooks) _ _ h' (
        if-both (Unmoved a) (leb_ℤ o.max_attempts (pos n)) _ _ hc
          (if-both (Unmoved a) (w.pause_cut c.hooks) _ _ hc (more c hc)))

  attempt_loop-Unmoved :
      (env : Envelope) (left n : ℕ) (a b : MemoryBus)
      → Unmoved a b
      → Unmoved a (attempt_loop w o env left n b)
  unfolding attempt_loop
  attempt_loop-Unmoved env zero n a b h =
      settle-Unmoved env n (λ c. c) a b (invoke w o b env n) (λ c k. k) h
  attempt_loop-Unmoved env (suc left) n a b h =
      settle-Unmoved env n (attempt_loop w o env left (suc n)) a b (invoke w o b env n)
        (attempt_loop-Unmoved env left (suc n) a) h

  pub deliver-Unmoved : (env : Envelope) (b : MemoryBus) → Unmoved b (deliver w o env b)
  unfolding deliver
  deliver-Unmoved env b =
      let same : Unmoved b b = record {
        queues = refl;
        pending = refl;
        in_hand = refl;
        stopped = refl;
      } in
      if-both (Unmoved b) (already_done b env) _ _
        (record { queues = refl; pending = refl; in_hand = refl; stopped = refl })
        (attempt_loop-Unmoved env (pos_part o.max_attempts - 1) 1 b b same)
