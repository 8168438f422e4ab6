-- ===== src/Dispatcher/Retry/Backoff.antt =====
-- The pauses between two attempts (services/orchestrator/dispatcher/resilience.go).
use multi_agent_agent_hub.Prelude.{ℕ, zero, suc, ◌+◌, ◌*◌, ◌/◌, ◌^◌, ◌<◌, ◌≡◌, ap, some, arith}
use multi_agent_agent_hub.Prelude.Int.{pos, add64}
use multi_agent_agent_hub.Dispatcher.Retry.{RetryPolicy, backoff_for, signed64, jittered}

jittered-small :
    (d jitter : ℕ)
    → d < 2 ^ 62
    → jitter < d / 4 + 1
    → jittered (signed64 d) jitter ≡ some (pos (d + jitter))
unfolding add64
jittered-small d jitter h j = ground arith

-- While base · 2 ^ attempt is below 2 ^ 62 ns, a pause does not panic: it is base · 2 ^ attempt and
-- the jitter, which is at most a quarter of that, as rand.Int63n promises.
pub backoff_for-exact :
    (p : RetryPolicy) (base attempt jitter : ℕ)
    → p.base_backoff ≡ pos base
    → base * 2 ^ attempt < 2 ^ 62
    → jitter < base * 2 ^ attempt / 4 + 1
    → backoff_for (some p) attempt jitter ≡ some (pos (base * 2 ^ attempt + jitter))
unfolding backoff_for
backoff_for-exact p zero attempt jitter e h j = rw e (ap (λ n. some (pos n)) (omega arith))
backoff_for-exact p (suc base) attempt jitter e h j =
    rw e (jittered-small (suc base * 2 ^ attempt) jitter h j)
