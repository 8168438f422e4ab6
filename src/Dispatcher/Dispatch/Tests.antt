-- ===== src/Dispatcher/Dispatch/Tests.antt =====
-- A dispatch against agents that fail.
use multi_agent_agent_hub.Prelude.{
  ℕ, zero, suc, ◌≤◌, ◌≡◌, refl, ◌*◌, ◌+◌, ◌^◌, false, none, some, [], ◌∷◌, ltb, ◌&&◌, arith,
}
use multi_agent_agent_hub.Prelude.Int.{pos}
use multi_agent_agent_hub.Prelude.Text.{trim_space}
use multi_agent_agent_hub.Dispatcher.Breaker.{allow}
use multi_agent_agent_hub.Dispatcher.Breaker.History.{failed, replay}
use multi_agent_agent_hub.Dispatcher.Retry.{RetryPolicy, status, canceled, backoff_for}
use multi_agent_agent_hub.Dispatcher.Retry.Backoff.{backoff_for-exact}
use multi_agent_agent_hub.Dispatcher.Response.{Response, join_lines, collect_events}
use multi_agent_agent_hub.Dispatcher.Dispatch.{
  Env, A2ADispatcher, DispatchInput, Reply, replied, refused, dispatch_once, dispatch_loop,
  dispatch,
}
use multi_agent_agent_hub.Dispatcher.Dispatch.Loop.{LoopSpec, dispatch_loop-LoopSpec}
use multi_agent_agent_hub.Dispatcher.Dispatch.Effects.{
  recorded_by, is_complete, dispatch-IsRecorded,
}

abbrev policy : RetryPolicy
policy = record { max_attempts = pos 3; base_backoff = pos 200 }

abbrev greeting : Response
greeting = record {
  task_id = " t1 ";
  events =
      (record { kind = "text"; text = "hello"; name = ""; content = "" } ∷ [])
      ∷ (record { kind = "text"; text = "  "; name = ""; content = "" } ∷ [])
      ∷ (record { kind = "text"; text = "bye"; name = ""; content = "" } ∷ [])
      ∷ [];
}

-- 503 at first, then an answer.
abbrev flaky : ℕ → Reply
flaky zero = refused (status 503)
flaky (suc n) = replied (some greeting)

abbrev env : Env
env = record {
  send = λ attempt timeout url session message. flaky attempt;
  unmarshal = λ s. none;
  done_in_pause = λ attempt. false;
  context_error = canceled;
  jitter = λ attempt. 0;
  asked_at = 100;
  told_at = 120;
}

abbrev agent : A2ADispatcher
agent = record {
  retry = some policy;
  default_timeout = pos 0;
  breaker = some (replay 2 30 (failed "http://a" 50 ∷ []));
}

abbrev input : DispatchInput
input = record {
  agent_url = " http://a ";
  agent_name = "a";
  conversation_id = "c";
  message = "hi";
  timeout_ms = pos 0;
}

dispatch-IsRecorded_example :
    let r = dispatch env agent input in
    (r.dispatcher ≡ record agent {
      breaker = some (
          replay 2 30 (
            recorded_by
              (trim_space " http://a ")
              120
              r.calls
              r.outcome
              (failed "http://a" 50 ∷ [])));
    })
    × (r.calls ≤ 3)
    × (ltb 0 r.calls ≡ (
        is_complete input
        && allow (replay 2 30 (failed "http://a" 50 ∷ [])) (trim_space " http://a ") 100))
dispatch-IsRecorded_example =
    dispatch-IsRecorded env agent 2 30 (failed "http://a" 50 ∷ []) input 2 refl refl

second_attempt_answers :
    (dispatch_loop env (some policy) (dispatch_once env agent "http://a" "c" "hi" input) 3 0 none).1
    ≡ 2
unfolding dispatch_loop dispatch_once join_lines collect_events backoff_for trim_space
second_attempt_answers = refl

dispatch_loop-LoopSpec_example :
    LoopSpec env
      (some policy)
      (dispatch_once env agent "http://a" "c" "hi" input)
      0
      3
      (dispatch_loop env (some policy) (dispatch_once env agent "http://a" "c" "hi" input) 3 0 none)
dispatch_loop-LoopSpec_example =
    dispatch_loop-LoopSpec env (some policy) (dispatch_once env agent "http://a" "c" "hi" input) 2 0
      none

backoff_for-exact_example : backoff_for (some policy) 2 100 ≡ some (pos (200 * 2 ^ 2 + 100))
backoff_for-exact_example = backoff_for-exact policy 200 2 100 refl (omega arith) (omega arith)
