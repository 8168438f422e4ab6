-- ===== src/EventBus/Memory/Balance.antt =====
-- What one action of pkg/runtime/eventbus/memory.go does to the envelopes of a run that wait.
use multi_agent_agent_hub.Prelude.{
  ℕ, ◌≡◌, refl, sym, ap, ◌∙◌, String, Bool, true, false, not, ◌||◌, Option, none, some, List, [],
  ◌∷◌, ◌++◌, str_eq, eq_iff, ltb, if◌then◌else◌, arith, if-both, if-cases, Bool-cases, inl, inr,
  length, replicate, append_assoc, append-nil,
}
use multi_agent_agent_hub.Prelude.Int.{pos_part}
use multi_agent_agent_hub.Prelude.Dict.{Dict, lookup, insert, lookup-insert}
use multi_agent_agent_hub.EventBus.Envelope.{Envelope, Cause}
use multi_agent_agent_hub.EventBus.Memory.{
  MemoryOptions, MemoryBus, World, Hook, tell, deliver, publish, consume, pump, serve, gated, take,
  hand_over, serve_queue, keep_queue, or_nil, Action, publishing, consuming, pumping, dispatching,
  stopping, finishing, closing, serving, step, duplicate_copies,
}
use multi_agent_agent_hub.EventBus.Memory.Moves.{queue_of, kept, deliver-Unmoved}
use multi_agent_agent_hub.EventBus.Memory.Running.{is_ending}

-- The envelopes of a run, in order.
unfoldable pub of_run : String → List Envelope → List Envelope
of_run r [] = []
of_run r (env ∷ envs) = let rest = of_run r envs in if str_eq env.run_id r then env ∷ rest else rest

abbrev held : Option Envelope → List Envelope
held none = []
held (some env) = env ∷ []

-- What is in no queue yet, the oldest first: the envelope in the pump's hand and the pending ones.
abbrev pub due : MemoryBus → List Envelope
due b = held b.in_hand ++ b.pending

-- What of a run waits in the bus, the oldest first.
abbrev pub waiting : String → MemoryBus → List Envelope
waiting r b = queue_of r b ++ of_run r (due b)

abbrev pub copies_accepted :
    Option Cause → Option Cause → Option ℕ → Bool → Envelope → List Envelope
copies_accepted none none (some n) false env = replicate n env
copies_accepted none none (some n) true env = []
copies_accepted none none none closed env = []
copies_accepted none (some e) copies closed env = []
copies_accepted (some e) gate copies closed env = []

-- What a publisher's call brings in: the copies of the envelope, unless it is refused.
abbrev pub accepted : World → MemoryOptions → MemoryBus → Action → List Envelope
accepted w o b (publishing env) =
    copies_accepted (w.publish_context env) (w.validate_for_publish env) (duplicate_copies o env)
      b.closed env
accepted w o b consuming = []
accepted w o b pumping = []
accepted w o b dispatching = []
accepted w o b stopping = []
accepted w o b finishing = []
accepted w o b (serving run_id) = []
accepted w o b closing = []

abbrev head_of : List Envelope → List Envelope
head_of [] = []
head_of (env ∷ rest) = env ∷ []

-- The envelope that a run's worker takes, if the action is of this run.
abbrev pub taken : String → MemoryBus → Action → List Envelope
taken r b (serving run_id) = if str_eq run_id r then head_of (queue_of r b) else []
taken r b (publishing env) = []
taken r b consuming = []
taken r b pumping = []
taken r b dispatching = []
taken r b stopping = []
taken r b finishing = []
taken r b closing = []

pub of_run-append :
    (r : String) (xs ys : List Envelope) → of_run r (xs ++ ys) ≡ of_run r xs ++ of_run r ys
unfolding of_run
of_run-append r [] ys = refl
of_run-append r (x ∷ xs) ys = elim (Bool-cases (str_eq x.run_id r)) [
  | inl same ↦ rw same (ap (λ l. x ∷ l) (of_run-append r xs ys))
  | inr other ↦ rw other (of_run-append r xs ys)
]

module _ (w : World) (o : MemoryOptions) where
  -- What one action does to the envelopes of a run.
  unfoldable pub Balanced : String → List Envelope → List Envelope → MemoryBus → MemoryBus → Type 0
  Balanced r out in_ b c = out ++ waiting r c ≡ waiting r b ++ of_run r in_

  unchanged-Balanced :
      (r : String) (b c : MemoryBus) → c.queues ≡ b.queues → due c ≡ due b → Balanced r [] [] b c
  unfolding Balanced of_run
  unchanged-Balanced r b c q p =
      ap (λ m. or_nil (lookup r m) ++ of_run r (due c)) q
      ∙ (ap (λ l. queue_of r b ++ of_run r l) p ∙ sym (append-nil _))

  enqueue-Balanced :
      (r : String) (n : ℕ) (env : Envelope) (b : MemoryBus) (shut : Bool)
      → Balanced r [] (copies_accepted none none (some n) shut env) b (
          if shut
          then tell (Hook.publish_refused env ∷ []) b
          else tell (Hook.published env ∷ []) (record b { pending = b.pending ++ replicate n env }))
  enqueue-Balanced r n env b true = unchanged-Balanced r b _ refl refl
  enqueue-Balanced r n env b false =
      unfold Balanced in
      let copies = replicate n env in
      ap (λ l. queue_of r b ++ of_run r l) (sym (append_assoc (held b.in_hand) b.pending copies))
      ∙ (ap (λ l. queue_of r b ++ l) (of_run-append r (due b) copies)
          ∙ sym (append_assoc (queue_of r b) (of_run r (due b)) (of_run r copies)))

  publish-Balanced :
      (r : String) (p g : Option Cause) (n : Option ℕ) (env : Envelope) (b : MemoryBus)
      → Balanced r [] (copies_accepted p g n b.closed env) b (gated p g n env b)
  publish-Balanced r (some e) g n env b = unchanged-Balanced r b _ refl refl
  publish-Balanced r none (some e) n env b = unchanged-Balanced r b _ refl refl
  publish-Balanced r none none none env b = unchanged-Balanced r b _ refl refl
  publish-Balanced r none none (some n) env b = enqueue-Balanced r n env b b.closed

  -- The envelope that moves from the pending ones to its queue keeps its place in its run.
  moved-Balanced :
      (r : String) (env : Envelope) (rest : List Envelope) (qs : Dict (List Envelope))
      → or_nil (lookup r (insert env.run_id (or_nil (lookup env.run_id qs) ++ env ∷ []) qs))
          ++ of_run r rest
        ≡ or_nil (lookup r qs) ++ of_run r (env ∷ rest)
  unfolding of_run
  moved-Balanced r env rest qs = elim (Bool-cases (str_eq env.run_id r)) [
    | inl same ↦
        rw (lookup-insert env.run_id r (or_nil (lookup env.run_id qs) ++ env ∷ []) qs, same)
          (append_assoc (or_nil (lookup env.run_id qs)) (env ∷ []) (of_run r rest)
            ∙ ap (λ k. or_nil (lookup k qs) ++ env ∷ of_run r rest) ((eq_iff env.run_id r).0 same))
    | inr other ↦
        rw (lookup-insert env.run_id r (or_nil (lookup env.run_id qs) ++ env ∷ []) qs, other) refl
  ]

  hand_over-Balanced :
      (r : String) (h : Option Envelope) (b : MemoryBus)
      → b.in_hand ≡ h
      → b.stopped ≡ false
      → Balanced r [] [] b (hand_over o h b)
  hand_over-Balanced r none b e on = unchanged-Balanced r b b refl refl
  hand_over-Balanced r (some env) b e on =
      let q = queue_of env.run_id b in
      let c = record b { in_hand = none; queues = insert env.run_id (q ++ env ∷ []) b.queues } in
      let moved : Balanced r [] [] b c =
        unfold Balanced in
        unfold of_run in
        moved-Balanced r env b.pending b.queues
        ∙ (ap (λ h. queue_of r b ++ of_run r (held h ++ b.pending)) (sym e) ∙ sym (append-nil _)) in
      if-cases (Balanced r [] [] b) b.stopped _ _ (λ off. absurd (cc))
        (λ still.
          if-both (Balanced r [] [] b) (ltb (length q) (pos_part o.queue_size)) c b moved
            (unchanged-Balanced r b b refl refl))

  take-Balanced :
      (r : String) (h : Option Envelope) (envs : List Envelope) (b : MemoryBus)
      → b.in_hand ≡ h
      → b.pending ≡ envs
      → Balanced r [] [] b (take h envs b)
  take-Balanced r (some env) envs b e p = unchanged-Balanced r b b refl refl
  take-Balanced r none [] b e p = unchanged-Balanced r b b refl refl
  take-Balanced r none (env ∷ rest) b e p =
      unchanged-Balanced r b _ refl
        (ap (λ l. env ∷ l) refl ∙ sym (ap (λ h. held h ++ b.pending) e ∙ p))

  pump-Balanced : (r : String) (b : MemoryBus) → Balanced r [] [] b (pump b)
  unfolding pump
  pump-Balanced r b =
      let same = unchanged-Balanced r b b refl refl in
      if-both (Balanced r [] [] b) (not b.pump_on) _ _ same (
        if-both (Balanced r [] [] b) b.closed _ _ (unchanged-Balanced r b _ refl refl)
          (take-Balanced r b.in_hand b.pending b refl refl))

  serve_queue-Balanced :
      (r run_id : String) (q : List Envelope) (b : MemoryBus)
      → queue_of run_id b ≡ q
      → Balanced r (taken r b (serving run_id)) [] b (serve_queue w o run_id q b)
  unfolding Balanced of_run
  serve_queue-Balanced r run_id [] b e = elim (Bool-cases (str_eq run_id r)) [
    | inl same ↦
        let empty_queue : queue_of r b ≡ [] =
          ap (λ k. queue_of k b) (sym ((eq_iff run_id r).0 same)) ∙ e in
        rw same (rw empty_queue (sym (append-nil _)))
    | inr other ↦ rw other (sym (append-nil _))
  ]
  serve_queue-Balanced r run_id (env ∷ rest) b e =
      let c = record b { queues = keep_queue run_id rest b.queues } in
      let u = deliver-Unmoved w o env c in
      let moved : waiting r (deliver w o env c)
          ≡ (if str_eq run_id r then rest else queue_of r b) ++ of_run r (due b) =
        let d = deliver w o env c in
        ap (λ m. or_nil (lookup r m) ++ of_run r (due d)) u.queues
        ∙ (ap (λ l. or_nil (lookup r c.queues) ++ of_run r (held d.in_hand ++ l)) u.pending
            ∙ (ap (λ h. or_nil (lookup r c.queues) ++ of_run r (held h ++ b.pending)) u.in_hand
                ∙ ap (λ l. l ++ of_run r (due b)) (kept run_id r rest b.queues))) in
      rw moved (elim (Bool-cases (str_eq run_id r)) [
        | inl same ↦
            let q : queue_of r b ≡ env ∷ rest =
              ap (λ k. queue_of k b) (sym ((eq_iff run_id r).0 same)) ∙ e in
            rw same (rw q (sym (append-nil _)))
        | inr other ↦ rw other (sym (append-nil _))
      ])

  serve-Balanced :
      (r run_id : String) (b : MemoryBus)
      → Balanced r (taken r b (serving run_id)) [] b (serve w o run_id b)
  unfolding serve
  serve-Balanced r run_id b = serve_queue-Balanced r run_id (queue_of run_id b) b refl

  pub step-Balanced :
      (r : String) (a : Action) (b : MemoryBus)
      → is_ending a ≡ false
      → b.stopped ≡ false
      → Balanced r (taken r b a) (accepted w o b a) b (step w o b a)
  step-Balanced r (publishing env) b h on =
      unfold step publish in
      publish-Balanced r (w.publish_context env) (w.validate_for_publish env)
        (duplicate_copies o env) env b
  step-Balanced r consuming b h on =
      unfold step in
      unfold consume in
      let same = unchanged-Balanced r b b refl refl in
      if-both (Balanced r [] [] b) (b.closed || b.running) _ _ same
        (unchanged-Balanced r b _ refl refl)
  step-Balanced r pumping b h on = unfold step in pump-Balanced r b
  step-Balanced r dispatching b h on = unfold step in hand_over-Balanced r b.in_hand b refl on
  step-Balanced r (serving run_id) b h on = unfold step in serve-Balanced r run_id b
  step-Balanced r stopping b h on = ground arith
  step-Balanced r finishing b h on = ground arith
  step-Balanced r closing b h on = ground arith
