-- ===== src/EventBus/Memory/Delivery.antt =====
-- How one delivery of pkg/runtime/eventbus/memory.go ends, and what its options allow.
use multi_agent_agent_hub.Prelude.{
  ℕ, zero, suc, ◌+◌, ◌-◌, ◌≤◌, ◌<◌, ◌≡◌, refl, ap, subst, ◌∙◌, ◌⊎◌, inl, inr, true, false, Option,
  none, some, List, [], ◌∷◌, ◌++◌, arith, Option-cases,
}
use multi_agent_agent_hub.Prelude.Int.{pos, pos_part, leb_ℤ}
use multi_agent_agent_hub.EventBus.Envelope.{
  Envelope, Cause, ErrorClass, DlqEntry, new_dlq_entry, error_class_for_delivery,
}
use multi_agent_agent_hub.EventBus.Memory.{
  MemoryOptions, MemoryBus, World, Hook, consumed, failed, acked, retried, dead, tell, mark_done,
  nack, invoke, or_handler, injected, attempt_loop, deliver, settle, already_done,
}

module _ (w : World) (o : MemoryOptions) (env : Envelope) where
  -- The error of the call for an attempt, when the hooks were told so much: the injector's, else the
  -- handler's.
  abbrev pub answer : List Hook → ℕ → Option Cause
  answer hs n = or_handler w hs env n (injected o.fail_handler env n)

  abbrev pub class_of : Cause → ErrorClass
  class_of cause = error_class_for_delivery (some cause)

  -- The attempts from `n` on, so many, each fail and are to be retried: what the hooks were told
  -- before and after them.
  abbrev pub Failed : ℕ → ℕ → List Hook → List Hook → Type 0
  Failed n zero hs ks = ks ≡ hs
  Failed n (suc k) hs ks =
      (cause : Cause) × (answer hs n ≡ some cause)
      × Failed (suc n) k ((hs ++ failed env n ∷ []) ++ retried env n (class_of cause) ∷ []) ks

  -- From attempt `n` on, with `left` more allowed: some attempts failed, the one after them
  -- succeeded, which is consumed and acked, the event is marked as done, and no letter is dead.
  pub record Completed (n left : ℕ) (b r : MemoryBus) : Type 0 where
    pub failures : ℕ
    pub allowed : failures ≤ left
    pub told : List Hook
    pub failed_before : Failed n failures b.hooks told
    pub succeeded : answer told (n + failures) ≡ none
    pub hooks : r.hooks ≡ (told ++ consumed env (n + failures) ∷ []) ++ acked env ∷ []
    pub marked : r.seen ≡ env.event_id ∷ b.seen
    pub letters : r.dlq ≡ b.dlq

  -- Every allowed attempt failed: one letter is added, and the event is neither marked nor acked.
  pub record DeadLettered (n left : ℕ) (b r : MemoryBus) : Type 0 where
    pub told : List Hook
    pub failed_before : Failed n left b.hooks told
    pub cause : Cause
    pub failed_last : answer told (n + left) ≡ some cause
    pub letter : DlqEntry
    pub hooks : r.hooks ≡ (told ++ failed env (n + left) ∷ []) ++ dead letter ∷ []
    pub letters : r.dlq ≡ b.dlq ++ letter ∷ []
    pub of_event : letter.event_id ≡ env.event_id
    pub counted : letter.attempts ≡ pos (n + left)
    pub of_class : letter.error_class ≡ class_of cause
    pub unmarked : r.seen ≡ b.seen

module _ (w : World) (o : MemoryOptions) (env : Envelope) (m : ℕ)
    (calm : (hs : List Hook) → w.cancelled hs ≡ false)
    (whole : (hs : List Hook) → w.pause_cut hs ≡ false) (max : o.max_attempts ≡ pos (suc m))
    (cap : suc m ≤ 32) where
  at_max : leb_ℤ o.max_attempts (pos (suc m)) ≡ true
  at_max = rw max (ground arith)

  below_max : (n : ℕ) → n < suc m → leb_ℤ o.max_attempts (pos n) ≡ false
  below_max n h = rw max (ground arith)

  success :
      (n left : ℕ) (b : MemoryBus)
      → answer w o env b.hooks n ≡ none
      → Completed w o env n left b
          (tell (acked env ∷ []) (mark_done env (tell (consumed env n ∷ []) b)))
  unfolding mark_done
  success n left b good =
      let e : n ≡ n + 0 = omega arith in
      record {
        failures = 0;
        allowed = omega arith;
        told = b.hooks;
        failed_before = refl;
        succeeded = subst (λ i. answer w o env b.hooks i ≡ none) e good;
        hooks = ap (λ i. (b.hooks ++ consumed env i ∷ []) ++ acked env ∷ []) e;
        marked = refl;
        letters = refl;
      }

  -- The bus after a failed attempt that may be followed by another.
  retry : ℕ → Cause → MemoryBus → MemoryBus
  retry n cause b = nack w o env n cause (tell (failed env n ∷ []) b)

  retry_unchanged :
      (n : ℕ) (cause : Cause) (b : MemoryBus)
      → n < suc m
      → ((retry n cause b).seen ≡ b.seen)
        × ((retry n cause b).dlq ≡ b.dlq)
        × ((retry n cause b).hooks
            ≡ (b.hooks ++ failed env n ∷ [])
              ++ retried env n (error_class_for_delivery (some cause)) ∷ [])
  unfolding retry nack
  retry_unchanged n cause b h = rw (below_max n h) (refl, refl, refl)

  last_failure :
      (cause : Cause) (b : MemoryBus)
      → answer w o env b.hooks (suc m) ≡ some cause
      → DeadLettered w o env (suc m) 0 b (retry (suc m) cause b)
  unfolding retry nack new_dlq_entry
  last_failure cause b bad =
      let e : suc m ≡ suc m + 0 = omega arith in
      let hs = b.hooks ++ failed env (suc m) ∷ [] in
      let entry =
        new_dlq_entry env o.consumer_key (pos (suc m)) (error_class_for_delivery (some cause))
          (w.now hs) in
      let attempts : entry.attempts ≡ pos (suc m) = ground arith in
      rw at_max (record {
        told = b.hooks;
        failed_before = refl;
        cause = cause;
        failed_last = subst (λ i. answer w o env b.hooks i ≡ some cause) e bad;
        letter = entry;
        hooks = ap (λ i. (b.hooks ++ failed env i ∷ []) ++ dead entry ∷ []) e;
        letters = refl;
        of_event = refl;
        counted = attempts ∙ ap pos e;
        of_class = refl;
        unmarked = refl;
      })

  settle_last :
      (b : MemoryBus) (result : Option Cause)
      → answer w o env b.hooks (suc m) ≡ result
      → Completed w o env (suc m) 0 b (settle w o env (suc m) (λ c. c) b result)
        ⊎ DeadLettered w o env (suc m) 0 b (settle w o env (suc m) (λ c. c) b result)
  settle_last b none h = inl (success (suc m) 0 b h)
  settle_last b (some cause) h =
      rw (calm (b.hooks ++ failed env (suc m) ∷ []), at_max)
        (inr (unfold retry in last_failure cause b h))

  -- A failed attempt before one or more others leaves the result of those.
  shift :
      (n left : ℕ) (cause : Cause) (b r : MemoryBus)
      → n < suc m
      → answer w o env b.hooks n ≡ some cause
      → (Completed w o env (suc n) left (retry n cause b) r
          ⊎ DeadLettered w o env (suc n) left (retry n cause b) r)
      → (Completed w o env n (suc left) b r ⊎ DeadLettered w o env n (suc left) b r)
  shift n left cause b r h bad (inl c) =
      let (s, d, k) = retry_unchanged n cause b h in
      let e : suc n + c.failures ≡ n + suc c.failures = omega arith in
      inl (record {
        failures = suc c.failures;
        allowed = omega (arith, c.allowed);
        told = c.told;
        failed_before = (
          cause,
          bad,
          subst (λ hs. Failed w o env (suc n) c.failures hs c.told) k c.failed_before,
        );
        succeeded = subst (λ i. answer w o env c.told i ≡ none) e c.succeeded;
        hooks = c.hooks ∙ ap (λ i. (c.told ++ consumed env i ∷ []) ++ acked env ∷ []) e;
        marked = c.marked ∙ ap (λ l. env.event_id ∷ l) s;
        letters = c.letters ∙ d;
      })
  shift n left cause b r h bad (inr c) =
      let (s, d, k) = retry_unchanged n cause b h in
      let e : suc n + left ≡ n + suc left = omega arith in
      inr (record {
        told = c.told;
        failed_before =
            (cause, bad, subst (λ hs. Failed w o env (suc n) left hs c.told) k c.failed_before);
        cause = c.cause;
        failed_last = subst (λ i. answer w o env c.told i ≡ some c.cause) e c.failed_last;
        letter = c.letter;
        hooks = c.hooks ∙ ap (λ i. (c.told ++ failed env i ∷ []) ++ dead c.letter ∷ []) e;
        letters = c.letters ∙ ap (λ l. l ++ c.letter ∷ []) d;
        of_event = c.of_event;
        counted = c.counted ∙ ap pos e;
        of_class = c.of_class;
        unmarked = c.unmarked ∙ s;
      })

  attempt_loop_ends :
      (left n : ℕ) (b : MemoryBus)
      → n + left ≡ suc m
      → (Completed w o env n left b (attempt_loop w o env left n b)
          ⊎ DeadLettered w o env n left b (attempt_loop w o env left n b))
  unfolding attempt_loop retry invoke
  attempt_loop_ends zero n b e =
      let at_end : n ≡ suc m = omega arith in
      rw at_end (settle_last b (answer w o env b.hooks (suc m)) refl)
  attempt_loop_ends (suc left) n b e = elim (Option-cases (answer w o env b.hooks n)) [
    | inl good ↦ rw good (inl (success n (suc left) b good))
    | inr (cause, bad) ↦
        let ih = attempt_loop_ends left (suc n) (retry n cause b) (omega arith) in
        rw bad (
          rw
            (
              calm (b.hooks ++ failed env n ∷ []),
              below_max n (omega arith),
              whole (retry n cause b).hooks,
            )
            (shift n left cause b _ (omega arith) bad ih))
  ]

  -- Where nothing is cancelled and max attempts are allowed, 1 to 32, one delivery of an event that is
  -- not done ends in one of two ways. Some attempts fail, fewer than max, and the call of the next
  -- one, the injector's and the handler's, returns no error: then the hooks are told just this, the
  -- event is acked and marked as done, and no dead letter is added. Or the calls of exactly max
  -- attempts return an error: then the hooks are told just this, the event is not marked or acked,
  -- and one dead letter is added, with the event's id, max attempts and the last error's class.
  pub deliver_ends :
      (b : MemoryBus)
      → already_done b env ≡ false
      → Completed w o env 1 m b (deliver w o env b) ⊎ DeadLettered w o env 1 m b (deliver w o env b)
  unfolding deliver already_done
  deliver_ends b fresh =
      let e : pos_part o.max_attempts - 1 ≡ m = rw max (omega arith) in
      rw fresh (rw e (attempt_loop_ends m 1 b (omega arith)))
