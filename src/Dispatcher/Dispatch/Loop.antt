-- ===== src/Dispatcher/Dispatch/Loop.antt =====
-- The attempts of one dispatch (services/orchestrator/dispatcher/a2a_dispatcher.go).
use multi_agent_agent_hub.Prelude.{
  ℕ, zero, suc, ◌+◌, ◌≤◌, ◌<◌, ◌≡◌, refl, ◌⊎◌, inl, inr, true, false, Option, none, some, ◌==◌, not,
  ◌||◌, arith, Bool-cases, Option-cases, dec_lt, if◌then◌else◌,
}
use multi_agent_agent_hub.Dispatcher.Retry.{CallError, RetryPolicy, is_retryable, backoff_for}
use multi_agent_agent_hub.Dispatcher.Dispatch.{
  Env, CallResult, ok, err, LoopEnd, returned, gave_up, stopped, panicked, after_pause,
  dispatch_loop,
}

-- An attempt that the loop goes on after: its error is retryable, and its pause ran out.
pub record IsRetried (env : Env) (once : ℕ → CallResult) (i : ℕ) : Type 0 where
  pub reason : CallError
  pub failure : once i ≡ err reason
  pub retryable : is_retryable reason ≡ true
  pub waited : env.done_in_pause i ≡ false

-- How the loop may end at the attempt `last`; `exhausted` says that it was the last one allowed.
abbrev pub EndsAt : Env → Option RetryPolicy → (ℕ → CallResult) → ℕ → Type 0 → LoopEnd → Type 0
EndsAt env retry once last exhausted (returned r) = once last ≡ ok r
EndsAt env retry once last exhausted (gave_up none) = ⊥
EndsAt env retry once last exhausted (gave_up (some e)) =
    (once last ≡ err e) × ((is_retryable e ≡ false) ⊎ exhausted)
EndsAt env retry once last exhausted (stopped e) =
    (env.done_in_pause last ≡ true) × (e ≡ env.context_error)
EndsAt env retry once last exhausted panicked = backoff_for retry last (env.jitter last) ≡ none

pub record LoopSpec (env : Env) (retry : Option RetryPolicy) (once : ℕ → CallResult)
    (first left : ℕ) (r : LoopEnd × ℕ) : Type 0 where
  pub last : ℕ
  pub made : r.1 ≡ suc last
  pub from_first : first ≤ last
  pub within : last < first + left
  pub earlier : (i : ℕ) → first ≤ i → i < last → IsRetried env once i
  pub ends : EndsAt env retry once last (suc last ≡ first + left) r.0

suc-==-zero : (k : ℕ) → (suc k == 0) ≡ false
suc-==-zero k = ground arith

module _ (env : Env) (retry : Option RetryPolicy) (once : ℕ → CallResult) where
  CallResult-cases : (i : ℕ) → ((r : _) × (once i ≡ ok r)) ⊎ ((e : CallError) × (once i ≡ err e))
  CallResult-cases i = go (once i) refl
    where
      go :
          (c : CallResult)
          → once i ≡ c
          → ((r : _) × (once i ≡ ok r)) ⊎ ((e : CallError) × (once i ≡ err e))
      go (ok r) p = inl (r, p)
      go (err e) p = inr (e, p)

  -- The loop ends where it stands.
  here :
      (a k : ℕ) (end : LoopEnd)
      → EndsAt env retry once a (suc a ≡ a + suc k) end
      → LoopSpec env retry once a (suc k) (end, suc a)
  here a k end h = record {
    last = a;
    made = refl;
    from_first = omega arith;
    within = omega arith;
    earlier = λ i p q. absurd (omega arith);
    ends = h;
  }

  -- One attempt was retried, and the loop from the next one on is as specified.
  go_on :
      (a k : ℕ) {r : LoopEnd × ℕ}
      → IsRetried env once a
      → LoopSpec env retry once (suc a) (suc k) r
      → LoopSpec env retry once a (suc (suc k)) r
  go_on a k {r} first s = record {
    last = s.last;
    made = s.made;
    from_first = omega (arith, s.from_first);
    within = omega (arith, s.within);
    earlier = λ i p q. elim (dec_lt a i) [
      | yes later ↦ s.earlier i (omega arith) q
      | no now ↦ let e : a ≡ i = omega arith in rw e at first
    ];
    ends = let e : suc a + suc k ≡ a + suc (suc k) = omega arith in rw e at (s.ends);
  }

  -- The attempt `a` failed with the error e, and `k + 1` more are allowed.
  after_error :
      (a k : ℕ) (e : CallError) {rest : LoopEnd × ℕ}
      → once a ≡ err e
      → LoopSpec env retry once (suc a) (suc k) rest
      → LoopSpec env retry once a (suc (suc k)) (
          if not (is_retryable e) || (suc k == 0)
          then (gave_up (some e), suc a)
          else after_pause env a (backoff_for retry a (env.jitter a)) rest)
  after_error a k e p s = elim (Bool-cases (is_retryable e)) [
    | inl again ↦
        rw (again, suc-==-zero k)
          (elim (Option-cases (backoff_for retry a (env.jitter a))) [
            | inl none_left ↦ rw none_left (here a (suc k) panicked none_left)
            | inr (pause, q) ↦ rw q (elim (Bool-cases (env.done_in_pause a)) [
              | inl done ↦ rw done (here a (suc k) (stopped env.context_error) (done, refl))
              | inr waited ↦ rw waited (
                  go_on a k (record { reason = e; failure = p; retryable = again; waited = waited })
                    s)
            ])
          ])
    | inr final ↦ rw final (here a (suc k) (gave_up (some e)) (p, inl final))
  ]

  -- From any attempt and with at least one left, the loop makes at least one call and no more than
  -- are left. It goes on after exactly those calls whose error is retryable and whose pause the
  -- context did not end. It returns the first result; it gives up with the error of its last
  -- call, which is not retryable or was the last call allowed; it stops with the context's error
  -- where the context ended the pause; and it panics only where the backoff does.
  pub dispatch_loop-LoopSpec :
      (k a : ℕ) (last : Option CallError)
      → LoopSpec env retry once a (suc k) (dispatch_loop env retry once (suc k) a last)
  unfolding dispatch_loop
  dispatch_loop-LoopSpec zero a last = elim (CallResult-cases a) [
    | inl (r, p) ↦ rw (p, dispatch_loop) (here a zero (returned r) p)
    | inr (e, p) ↦
        rw (p, dispatch_loop)
          (elim (Bool-cases (is_retryable e)) [
            | inl again ↦ rw again (here a zero (gave_up (some e)) (p, inr (omega arith)))
            | inr final ↦ rw final (here a zero (gave_up (some e)) (p, inl final))
          ])
  ]
  dispatch_loop-LoopSpec (suc k) a last = elim (CallResult-cases a) [
    | inl (r, p) ↦ rw (p, dispatch_loop) (here a (suc k) (returned r) p)
    | inr (e, p) ↦
        rw (p, dispatch_loop) (after_error a k e p (dispatch_loop-LoopSpec k (suc a) (some e)))
  ]
