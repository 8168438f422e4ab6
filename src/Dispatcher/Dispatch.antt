-- ===== src/Dispatcher/Dispatch.antt =====
-- Dispatch and dispatchOnce of services/orchestrator/dispatcher/a2a_dispatcher.go. The A2A client, the
-- decoder of JSON, the context and the clock are what the program does not decide: they are fields
-- of `Env`, by the number of the attempt.
pub mod Loop
pub mod Effects
mod Tests
use multi_agent_agent_hub.Prelude.{
  ℕ, zero, suc, ◌+◌, String, Bool, true, false, Option, none, some, List, [], ◌∷◌, str_eq, ◌==◌,
  not, ◌||◌, if◌then◌else◌,
}
use multi_agent_agent_hub.Prelude.Int.{ℤ, pos, pos_part, ltb_ℤ}
use multi_agent_agent_hub.Prelude.Text.{trim_space}
use multi_agent_agent_hub.Dispatcher.Breaker.{CircuitBreaker, allow, record_success, record_failure}
use multi_agent_agent_hub.Dispatcher.Retry.{
  CallError, other, RetryPolicy, is_retryable, resolve_timeout, backoff_for,
}
use multi_agent_agent_hub.Dispatcher.Response.{
  Response, DecodedMeta, DispatchResult, collect_events, join_lines,
}

pub record DispatchInput : Type 0 where
  pub agent_url : String
  pub agent_name : String
  pub conversation_id : String
  pub message : String
  pub timeout_ms : ℤ

pub record A2ADispatcher : Type 0 where
  pub retry : Option RetryPolicy
  pub default_timeout : ℤ
  pub breaker : Option CircuitBreaker

-- What the client answers: a response, which may be nil, or an error.
pub data Reply : Type 0 where
  replied : Option Response → Reply
  refused : CallError → Reply

pub record Env : Type 0 where
  -- SendJSONRPC in the attempt, under a timeout if there is one, for the url, session and message.
  pub send : ℕ → Option ℤ → String → String → String → Reply
  pub unmarshal : String → Option DecodedMeta
  -- Whether the context is what ends the pause after the attempt, and the error that it then has.
  pub done_in_pause : ℕ → Bool
  pub context_error : CallError
  pub jitter : ℕ → ℕ
  -- The clock when the breaker is asked, and when it is told of a failure.
  pub asked_at : ℕ
  pub told_at : ℕ

pub data DispatchError : Type 0 where
  url_required conversation_required message_required circuit_open : DispatchError
  call : CallError → DispatchError

pub data CallResult : Type 0 where
  ok : DispatchResult → CallResult
  err : CallError → CallResult

abbrev positive : ℤ → Option ℤ
positive timeout = if ltb_ℤ (pos 0) timeout then some timeout else none

abbrev read_reply : Env → DispatchInput → Reply → CallResult
read_reply env input (refused e) = err e
read_reply env input (replied none) = err other
read_reply env input (replied (some resp)) =
    let (texts, artifacts) = collect_events env.unmarshal input.agent_name resp.events in
    ok
      (record { text = join_lines texts; task_id = trim_space resp.task_id; artifacts = artifacts })

unfoldable pub dispatch_once :
    Env → A2ADispatcher → String → String → String → DispatchInput → ℕ → CallResult
unfolding resolve_timeout
dispatch_once env d url session message input attempt = read_reply env input (
    env.send attempt (positive (resolve_timeout d.default_timeout input.timeout_ms)) url session
      message)

-- How the loop over the attempts ends: with a result, with the last error, by the context in a
-- pause, or by a panic of the random numbers; `none` is a nil error.
pub data LoopEnd : Type 0 where
  returned : DispatchResult → LoopEnd
  gave_up : Option CallError → LoopEnd
  stopped : CallError → LoopEnd
  panicked : LoopEnd

-- What follows the error of an attempt; `rest` is the loop from the next attempt on, and `left` how
-- many attempts are left.
abbrev after_pause : Env → ℕ → Option ℤ → LoopEnd × ℕ → LoopEnd × ℕ
after_pause env attempt none rest = (panicked, suc attempt)
after_pause env attempt (some pause) rest =
    if env.done_in_pause attempt then (stopped env.context_error, suc attempt) else rest

-- The loop, with the number of calls made. `left` is attempts - attempt.
unfoldable pub dispatch_loop :
    Env → Option RetryPolicy → (ℕ → CallResult) → ℕ → ℕ → Option CallError → LoopEnd × ℕ
unfolding is_retryable
dispatch_loop env retry once zero attempt last = (gave_up last, attempt)
dispatch_loop env retry once (suc left) attempt last = elim (once attempt) [
  | ok res ↦ (returned res, suc attempt)
  | err e ↦
      let rest = dispatch_loop env retry once left (suc attempt) (some e) in
      if not (is_retryable e) || left == 0
      then (gave_up (some e), suc attempt)
      else after_pause env attempt (backoff_for retry attempt (env.jitter attempt)) rest
]

-- A nil breaker lets every call through and records nothing.
abbrev allows : Option CircuitBreaker → String → ℕ → Bool
allows none url now = true
allows (some b) url now = allow b url now

abbrev succeeded : Option CircuitBreaker → String → Option CircuitBreaker
succeeded none url = none
succeeded (some b) url = some (record_success b url)

abbrev failed : Option CircuitBreaker → String → ℕ → Option CircuitBreaker
failed none url now = none
failed (some b) url now = some (record_failure b url now)

pub data Outcome : Type 0 where
  result : DispatchResult → Outcome
  error : Option DispatchError → Outcome
  panic : Outcome

-- The dispatcher after the call, what it returns, and the number of calls of the agent.
pub record Dispatched : Type 0 where
  pub dispatcher : A2ADispatcher
  pub outcome : Outcome
  pub calls : ℕ

abbrev map_call : Option CallError → Option DispatchError
map_call none = none
map_call (some e) = some (call e)

abbrev finish : Env → A2ADispatcher → String → LoopEnd × ℕ → Dispatched
finish env d url (returned res, n) = record {
  dispatcher = record d { breaker = succeeded d.breaker url };
  outcome = result res;
  calls = n;
}
finish env d url (gave_up e, n) = record {
  dispatcher = record d { breaker = failed d.breaker url env.told_at };
  outcome = error (map_call e);
  calls = n;
}
finish env d url (stopped e, n) = record {
  dispatcher = record d { breaker = failed d.breaker url env.told_at };
  outcome = error (some (call e));
  calls = n;
}
finish env d url (panicked, n) = record { dispatcher = d; outcome = panic; calls = n }

abbrev rejected : A2ADispatcher → DispatchError → Dispatched
rejected d e = record { dispatcher = d; outcome = error (some e); calls = 0 }

-- Without a policy there is one attempt.
abbrev attempts_of : Option RetryPolicy → ℕ
attempts_of none = 1
attempts_of (some p) = pos_part p.max_attempts

unfoldable pub dispatch : Env → A2ADispatcher → DispatchInput → Dispatched
dispatch env d input =
    let url = trim_space input.agent_url in
    let session = trim_space input.conversation_id in
    let message = trim_space input.message in
    if str_eq url ""
    then rejected d url_required
    else if str_eq session ""
    then rejected d conversation_required
    else if str_eq message ""
    then rejected d message_required
    else if not (allows d.breaker url env.asked_at)
    then rejected d circuit_open
    else finish env d url (
        dispatch_loop env d.retry (dispatch_once env d url session message input)
          (attempts_of d.retry) 0 none)
