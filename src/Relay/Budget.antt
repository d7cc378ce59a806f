-- ===== src/Relay/Budget.antt =====
-- The retry budget of a row over repeated failures.
use contract_driven_messagin.Common.{
  ℕ, ◌+◌, ◌≤◌, ◌<◌, ◌≡◌, refl, sym, ap, subst, false, List, [], ◌∷◌, Thrown, arith, ltb, leb,
  if◌then◌else◌, length,
}
use contract_driven_messagin.RetryPolicy.{retry, compute_failure_outcome}
use contract_driven_messagin.Topology.{retry_delay_ms}
use contract_driven_messagin.Outbox.{Status, pending, failed, OutboxRow, Table}
use contract_driven_messagin.Outbox.Update.{update_where}
use contract_driven_messagin.Relay.Rows.{to_claimed, error_message, failed_row, mark_failed_attempt}

-- A table whose one row is claimed and whose publishing fails, at each of the given times.
pub fail_each : List (Thrown × ℕ) → Table → Table
fail_each [] t = t
fail_each (f ∷ fs) [] = []
fail_each ((err, now) ∷ fs) (r ∷ rs) =
    fail_each fs (mark_failed_attempt (to_claimed r) err now (r ∷ [])).1

abbrev pub HasAttempts : ℕ → ℕ → Status → Table → Type 0
HasAttempts attempts max status [] = ⊥
HasAttempts attempts max status (r ∷ rs) =
    (r.attempts ≡ attempts) × (r.max_attempts ≡ max) × (r.status ≡ status)

failed_once :
    (r : OutboxRow) (err : Thrown) (now : ℕ)
    → (mark_failed_attempt (to_claimed r) err now (r ∷ [])).1
      ≡ failed_row (compute_failure_outcome r.attempts r.max_attempts now) (error_message err) now r
        ∷ []
unfolding mark_failed_attempt update_where
failed_once r err now = ground arith

-- A pending row with budget left, all of whose publishes fail, has after each failure exactly one
-- attempt more, stays pending while attempts are left, and is `failed` at the one that uses up
-- `max_attempts`.
pub fail_each-HasAttempts :
    (fs : List (Thrown × ℕ)) (r : OutboxRow)
    → r.status ≡ pending
    → r.attempts < r.max_attempts
    → r.attempts + length fs ≤ r.max_attempts
    → HasAttempts
        (r.attempts + length fs)
        r.max_attempts
        (if ltb (r.attempts + length fs) r.max_attempts then pending else failed)
        (fail_each fs (r ∷ []))
unfolding fail_each compute_failure_outcome
fail_each-HasAttempts [] r st lt le = ground arith
fail_each-HasAttempts ((err, now) ∷ []) r st lt le =
    subst (HasAttempts _ _ _) (sym (failed_once r err now)) (ground arith)
fail_each-HasAttempts ((err, now) ∷ f ∷ fs) r st lt le =
    subst (HasAttempts _ _ _) (sym (ap (fail_each (f ∷ fs)) (failed_once r err now))) (
      rw not_exhausted (
        subst
          (λ n.
            HasAttempts n r.max_attempts (if ltb n r.max_attempts then pending else failed)
              (fail_each (f ∷ fs) (retried ∷ [])))
          (omega arith) (fail_each-HasAttempts (f ∷ fs) retried refl (omega arith) (omega arith))))
  where
    not_exhausted : leb r.max_attempts (r.attempts + 1) ≡ false
    not_exhausted = ground arith

    retried : OutboxRow
    retried =
        failed_row (retry (now + retry_delay_ms (r.attempts + 1)) (r.attempts + 1))
          (error_message err) now r
