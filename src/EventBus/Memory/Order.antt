-- ===== src/EventBus/Memory/Order.antt =====
-- The order of delivery within a run of pkg/runtime/eventbus/memory.go.
use multi_agent_agent_hub.Prelude.{
  ◌≡◌, sym, ap, ◌∙◌, String, false, List, [], ◌∷◌, ◌++◌, append_assoc, append-nil, All,
}
use multi_agent_agent_hub.EventBus.Envelope.{Envelope}
use multi_agent_agent_hub.EventBus.Memory.{MemoryOptions, MemoryBus, World, Action, step, run}
use multi_agent_agent_hub.EventBus.Memory.Running.{is_ending, IsOn, step-IsOn}
use multi_agent_agent_hub.EventBus.Memory.Balance.{
  of_run, waiting, accepted, taken, of_run-append, Balanced, step-Balanced,
}

abbrev pub accepted_over : World → MemoryOptions → MemoryBus → List Action → List Envelope
accepted_over w o b [] = []
accepted_over w o b (a ∷ actions) = accepted w o b a ++ accepted_over w o (step w o b a) actions

abbrev pub taken_over : World → MemoryOptions → String → MemoryBus → List Action → List Envelope
taken_over w o r b [] = []
taken_over w o r b (a ∷ actions) = taken r b a ++ taken_over w o r (step w o b a) actions

module _ (w : World) (o : MemoryOptions) where
  -- For each run, over any schedule without Close and without a stop of Consume, from a bus that is
  -- not stopped, and for any handler and failures: the envelopes that the run's worker took,
  -- followed by those that still wait in its queue, in the pump's hand or among the pending ones,
  -- are those that waited at the start followed by the accepted copies, in the order of
  -- publication. None is lost or reordered.
  pub run_in_order :
      (r : String) (b : MemoryBus) (actions : List Action)
      → b.stopped ≡ false
      → All (λ a. is_ending a ≡ false) actions
      → taken_over w o r b actions ++ waiting r (run w o b actions)
        ≡ waiting r b ++ of_run r (accepted_over w o b actions)
  unfolding run of_run Balanced IsOn
  run_in_order r b [] on h = sym (append-nil _)
  run_in_order r b (a ∷ actions) on h =
      let c = step w o b a in
      let ih = run_in_order r c actions (step-IsOn w o a b h.0 on) h.1 in
      let one = step-Balanced w o r a b h.0 on in
      let acc = accepted w o b a in
      let later = accepted_over w o c actions in
      append_assoc (taken r b a) (taken_over w o r c actions) (waiting r (run w o c actions))
      ∙ (ap (λ l. taken r b a ++ l) ih
          ∙ (sym (append_assoc (taken r b a) (waiting r c) (of_run r later))
              ∙ (ap (λ l. l ++ of_run r later) one
                  ∙ (append_assoc (waiting r b) (of_run r acc) (of_run r later)
                      ∙ ap (λ l. waiting r b ++ l) (sym (of_run-append r acc later))))))
