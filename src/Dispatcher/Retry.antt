-- ===== src/Dispatcher/Retry.antt =====
-- The retry policy and the timeouts of services/orchestrator/dispatcher/resilience.go. Durations are
-- int64 nanoseconds; a left shift and a product keep the low 64 bits.
pub mod Backoff
use multi_agent_agent_hub.Prelude.{
  ℕ, suc, ◌+◌, ◌-◌, ◌*◌, ◌/◌, ◌%◌, ◌^◌, Bool, true, false, Option, none, some, ltb, leb,
  if◌then◌else◌,
}
use multi_agent_agent_hub.Prelude.Int.{ℤ, pos, negsuc, ltb_ℤ, leb_ℤ, add64}

-- The error of one call, by what `errors.Is` and `errors.As` find in its chain.
pub data CallError : Type 0 where
  canceled deadline_exceeded : CallError
  status : ℕ → CallError
  other : CallError

pub record RetryPolicy : Type 0 where
  pub max_attempts : ℤ
  pub base_backoff : ℤ

unfoldable pub with_retry : ℤ → ℤ → Option RetryPolicy → Option RetryPolicy
with_retry max_attempts base_backoff old =
    if ltb_ℤ max_attempts (pos 1)
    then old
    else some (record { max_attempts = max_attempts; base_backoff = base_backoff })

-- The default timeout that WithPerCallTimeout leaves.
unfoldable pub with_per_call_timeout : ℤ → ℤ → ℤ
with_per_call_timeout d old = if leb_ℤ d (pos 0) then old else d

unfoldable pub is_retryable : CallError → Bool
is_retryable canceled = false
is_retryable deadline_exceeded = false
is_retryable (status code) = leb 500 code
is_retryable other = true

-- The signed reading of the low 64 bits.
abbrev pub signed64 : ℕ → ℤ
signed64 n = let r = n % 2 ^ 64 in if ltb r (2 ^ 63) then pos r else negsuc (2 ^ 64 - 1 - r)

unfoldable pub resolve_timeout : ℤ → ℤ → ℤ
resolve_timeout default_timeout (pos (suc ms)) = signed64 (suc ms * 1000000)
resolve_timeout default_timeout timeout_ms = default_timeout

-- d / 4, which Go rounds towards 0.
abbrev quarter : ℤ → ℤ
quarter (pos n) = pos (n / 4)
quarter (negsuc n) = if ltb n 3 then pos 0 else negsuc (suc n / 4 - 1)

-- rand.Int63n(n) panics where n ≤ 0; its answer is the argument `jitter`, which is below n.
abbrev pub jittered : ℤ → ℕ → Option ℤ
jittered d jitter =
    if leb_ℤ (add64 (quarter d) (pos 1)) (pos 0) then none else some (add64 d (pos jitter))

abbrev shifted_backoff : ℤ → ℕ → ℕ → Option ℤ
shifted_backoff (pos (suc base)) attempt jitter =
    jittered (signed64 (suc base * 2 ^ attempt)) jitter
shifted_backoff base attempt jitter = some (pos 0)

-- `none` is a panic. Without a policy there is no pause.
unfoldable pub backoff_for : Option RetryPolicy → ℕ → ℕ → Option ℤ
unfolding add64
backoff_for none attempt jitter = some (pos 0)
backoff_for (some p) attempt jitter = shifted_backoff p.base_backoff attempt jitter
