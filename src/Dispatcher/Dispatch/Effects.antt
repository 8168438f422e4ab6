-- ===== src/Dispatcher/Dispatch/Effects.antt =====
-- What one Dispatch leaves in the circuit breaker, and when it calls the agent at all
-- (services/orchestrator/dispatcher/a2a_dispatcher.go).
use multi_agent_agent_hub.Prelude.{
  ℕ, zero, suc, ◌≤◌, ◌≡◌, refl, inl, inr, String, Bool, true, none, some, List, ◌∷◌, str_eq, not,
  ◌&&◌, arith, Bool-cases, ltb, ◌∙◌, sym, ap,
}
use multi_agent_agent_hub.Prelude.Text.{trim_space}
use multi_agent_agent_hub.Dispatcher.Breaker.{allow}
use multi_agent_agent_hub.Dispatcher.Breaker.History.{Event, succeeded, failed, replay}
use multi_agent_agent_hub.Dispatcher.Dispatch.{
  Env, A2ADispatcher, DispatchInput, Dispatched, Outcome, result, error, panic, url_required,
  conversation_required, message_required, circuit_open, LoopEnd, returned, gave_up, stopped,
  panicked, attempts_of, finish, dispatch, dispatch_loop, CallResult, allows,
}
use multi_agent_agent_hub.Dispatcher.Dispatch.Loop.{dispatch_loop-LoopSpec}

-- What a dispatch of the url that ended at `now` adds to the history: a call that returned a result
-- is a success, one that returned an error a failure.
abbrev pub recorded_by : String → ℕ → ℕ → Outcome → List Event → List Event
recorded_by url now zero outcome h = h
recorded_by url now (suc n) (result r) h = succeeded url ∷ h
recorded_by url now (suc n) (error e) h = failed url now ∷ h
recorded_by url now (suc n) panic h = h

-- The url, the conversation and the message are there once they are trimmed.
abbrev pub is_complete : DispatchInput → Bool
is_complete input =
    not (str_eq (trim_space input.agent_url) "")
    && not (str_eq (trim_space input.conversation_id) "")
    && not (str_eq (trim_space input.message) "")

module _ (env : Env) (d : A2ADispatcher) (t c : ℕ) (h : List Event) where
  finish-IsRecorded :
      (url : String) (r : LoopEnd × ℕ) (n : ℕ)
      → d.breaker ≡ some (replay t c h)
      → r.1 ≡ suc n
      → (finish env d url r).dispatcher ≡ record d {
        breaker =
            some (replay t c (recorded_by url env.told_at (suc n) (finish env d url r).outcome h));
      }
  unfolding replay
  finish-IsRecorded url (returned res, m) n e p = ground arith
  finish-IsRecorded url (gave_up x, m) n e p = ground arith
  finish-IsRecorded url (stopped x, m) n e p = ground arith
  finish-IsRecorded url (panicked, m) n e p = ground arith

  calls-finish : (url : String) (r : LoopEnd × ℕ) → (finish env d url r).calls ≡ r.1
  calls-finish url (returned res, m) = refl
  calls-finish url (gave_up x, m) = refl
  calls-finish url (stopped x, m) = refl
  calls-finish url (panicked, m) = refl

  -- The first part of the statement below, of any result.
  abbrev IsRecorded : String → Dispatched → Type 0
  IsRecorded url r =
      r.dispatcher
      ≡ record d { breaker = some (replay t c (recorded_by url env.told_at r.calls r.outcome h)) }

  unchanged-IsRecorded :
      (url : String) (x : Outcome)
      → d.breaker ≡ some (replay t c h)
      → IsRecorded url (record { dispatcher = d; outcome = x; calls = 0 })
  unchanged-IsRecorded url x e = ground arith

  called :
      (url : String) (once : ℕ → CallResult) (k : ℕ)
      → d.breaker ≡ some (replay t c h)
      → let r = finish env d url (dispatch_loop env d.retry once (suc k) 0 none) in
        IsRecorded url r × (r.calls ≤ suc k) × (ltb 0 r.calls ≡ true)
  called url once k e =
      let s = dispatch_loop-LoopSpec env d.retry once k 0 none in
      let r = dispatch_loop env d.retry once (suc k) 0 none in
      let m : (finish env d url r).calls ≡ suc s.last = calls-finish url r ∙ s.made in
      (
        rw m (finish-IsRecorded url r s.last e s.made),
        rw m (omega (arith, s.within)),
        rw m (ground arith),
      )

  -- Let the dispatcher's breaker have the history h, and let it allow k + 1 attempts. The agent is
  -- called at most k + 1 times, and it is called at all exactly if the input is complete and the
  -- breaker lets the url through. The dispatcher changes in its breaker alone, whose history gets one
  -- success if a result comes back, one failure if an error comes back after a call, and nothing if
  -- no call was made or the call panicked.
  pub dispatch-IsRecorded :
      (input : DispatchInput) (k : ℕ)
      → d.breaker ≡ some (replay t c h)
      → attempts_of d.retry ≡ suc k
      → let url = trim_space input.agent_url in
        let r = dispatch env d input in
        IsRecorded url r
        × (r.calls ≤ suc k)
        × (ltb 0 r.calls ≡ (is_complete input && allow (replay t c h) url env.asked_at))
  unfolding dispatch
  dispatch-IsRecorded input k e a =
      let url = trim_space input.agent_url in
      elim (Bool-cases (str_eq (trim_space input.agent_url) "")) [
        | inl p ↦ rw p (unchanged-IsRecorded url (error (some url_required)) e, omega arith, refl)
        | inr p ↦ rw p (elim (Bool-cases (str_eq (trim_space input.conversation_id) "")) [
          | inl q ↦
              rw q
                (unchanged-IsRecorded url (error (some conversation_required)) e, omega arith, refl)
          | inr q ↦ rw q (elim (Bool-cases (str_eq (trim_space input.message) "")) [
            | inl s ↦
                rw s (unchanged-IsRecorded url (error (some message_required)) e, omega arith, refl)
            | inr s ↦
                rw (s, a)
                  (elim (Bool-cases (allows d.breaker url env.asked_at)) [
                    | inl free ↦ rw (free, same url free) (called _ _ k e)
                    | inr shut ↦
                        rw (shut, same url shut)
                          (
                            unchanged-IsRecorded url (error (some circuit_open)) e,
                            omega arith,
                            refl,
                          )
                  ])
          ])
        ])
      ]
    where
      same :
          (url : String) {b : Bool}
          → allows d.breaker url env.asked_at ≡ b
          → allow (replay t c h) url env.asked_at ≡ b
      same url p = sym (ap (λ x. allows x url env.asked_at) e) ∙ p
