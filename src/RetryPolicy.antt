-- ===== src/RetryPolicy.antt =====
-- libs/contracts/src/outbox/outbox-retry-policy.ts. Times are milliseconds since the epoch.
use contract_driven_messagin.Common.{ℕ, ◌+◌, Bool, leb, ltb, if◌then◌else◌}
use contract_driven_messagin.Topology.{retry_delay_ms}

pub data FailureOutcome : Type 0 where
  retry : ℕ → ℕ → FailureOutcome
  dead_letter : ℕ → FailureOutcome

-- `retry` carries the next retry time and the new attempt count.
unfoldable pub compute_failure_outcome : ℕ → ℕ → ℕ → FailureOutcome
compute_failure_outcome attempts_before max_attempts now =
    let new_attempts = attempts_before + 1 in
    if leb max_attempts new_attempts
    then dead_letter new_attempts
    else retry (now + retry_delay_ms new_attempts) new_attempts

-- `now - lockedAt > ttlMs`.
unfoldable pub is_lock_stale : ℕ → ℕ → ℕ → Bool
is_lock_stale locked_at ttl_ms now = ltb (locked_at + ttl_ms) now
