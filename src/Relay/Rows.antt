-- ===== src/Relay/Rows.antt =====
-- The SQL statements of apps/messaging/src/outbox/outbox-relay.service.ts as functions on the table.
use contract_driven_messagin.Common.{
  ℕ, ◌+◌, String, Bool, true, false, not, ◌&&◌, List, [], ◌∷◌, map, Option, none, some, Thrown,
  primitive, object, leb, ◌==◌, keep, length,
}
use contract_driven_messagin.RetryPolicy.{
  FailureOutcome, retry, dead_letter, compute_failure_outcome, is_lock_stale,
}
use contract_driven_messagin.Outbox.{pending, sent, failed, is_pending, OutboxRow, Table}
use contract_driven_messagin.Outbox.Identity.{ids, is_in}
use contract_driven_messagin.Outbox.Select.{select}
use contract_driven_messagin.Outbox.Update.{update_where, updated}

pub record ClaimedRow : Type 0 where
  pub id : ℕ
  pub event_type : String
  pub payload : String
  pub correlation_id : Option String
  pub attempts : ℕ
  pub max_attempts : ℕ
  pub lock_version : ℕ
  pub trace_context : Option (List (String × String))
  pub event_id : Option String

abbrev pub to_claimed : OutboxRow → ClaimedRow
to_claimed r = record {
  id = r.id;
  event_type = r.event_type;
  payload = r.payload;
  correlation_id = r.correlation_id;
  attempts = r.attempts;
  max_attempts = r.max_attempts;
  lock_version = r.lock_version;
  trace_context = r.trace_context;
  event_id = r.event_id;
}

abbrev pub due : OutboxRow → ℕ
due r = r.next_retry_at

-- The `WHERE` of the inner query; `SKIP LOCKED` leaves out the rows that a statement running at
-- the same moment holds.
abbrev pub is_claimable : (ℕ → Bool) → ℕ → OutboxRow → Bool
is_claimable held now r = is_pending r.status && leb r.next_retry_at now && not (held r.id)

abbrev pub lock_row : String → ℕ → OutboxRow → OutboxRow
lock_row instance_id now r = record r {
  locked_at = some now;
  locked_by = some instance_id;
  lock_version = r.lock_version + 1;
}

unfoldable pub batch_ids : (ℕ → Bool) → ℕ → ℕ → Table → List ℕ
batch_ids held batch_size now t = ids (select due (is_claimable held now) batch_size t)

-- The rows that `claimBatch` returns, and the table that it leaves.
unfoldable pub claim_batch : (ℕ → Bool) → String → ℕ → ℕ → Table → List ClaimedRow × Table
unfolding batch_ids
claim_batch held instance_id batch_size now t =
    let batch = is_in (batch_ids held batch_size now t) in
    (
      map to_claimed (updated batch (lock_row instance_id now) t),
      update_where batch (lock_row instance_id now) t,
    )

abbrev pub is_claim : ℕ → ℕ → OutboxRow → Bool
is_claim id version r = r.id == id && r.lock_version == version

abbrev pub is_nonempty : {A : Type 0} → List A → Bool
is_nonempty [] = false
is_nonempty (x ∷ xs) = true

abbrev pub sent_row : ℕ → OutboxRow → OutboxRow
sent_row now r = record r { status = sent; sent_at = some now; locked_at = none; locked_by = none }

unfoldable pub mark_sent : ℕ → ℕ → ℕ → Table → Bool × Table
mark_sent id expected now t = (
  is_nonempty (updated (is_claim id expected) (sent_row now) t),
  update_where (is_claim id expected) (sent_row now) t,
)

-- `err instanceof Error ? err.message : String(err)`.
abbrev pub error_message : Thrown → String
error_message (primitive s) = s
error_message (object f) = f.message

abbrev pub failed_row : FailureOutcome → String → ℕ → OutboxRow → OutboxRow
failed_row (retry at attempts) message now r = record r {
  status = pending;
  attempts = attempts;
  last_error = some message;
  next_retry_at = at;
  locked_at = none;
  locked_by = none;
}
failed_row (dead_letter attempts) message now r = record r {
  status = failed;
  attempts = attempts;
  last_error = some message;
  next_retry_at = now;
  locked_at = none;
  locked_by = none;
}

-- The outcome is computed from the counts read at the claim.
unfoldable pub mark_failed_attempt : ClaimedRow → Thrown → ℕ → Table → Bool × Table
mark_failed_attempt row err now t =
    let change =
      failed_row (compute_failure_outcome row.attempts row.max_attempts now) (error_message err)
        now in
    (
      is_nonempty (updated (is_claim row.id row.lock_version) change t),
      update_where (is_claim row.id row.lock_version) change t,
    )

abbrev pub has_stale_lock : ℕ → ℕ → OutboxRow → Bool
has_stale_lock ttl_ms now r = elim r.locked_at [
  | none ↦ false
  | some at ↦ is_pending r.status && is_lock_stale at ttl_ms now
]

abbrev pub unlock_row : OutboxRow → OutboxRow
unlock_row r = record r { locked_at = none; locked_by = none }

unfoldable pub reap_stale_locks : ℕ → ℕ → Table → Table
unfolding is_lock_stale
reap_stale_locks ttl_ms now t = update_where (has_stale_lock ttl_ms now) unlock_row t

-- The value that `refreshPendingGauge` sets.
unfoldable pub pending_count : Table → ℕ
pending_count t = length (keep (λ r. is_pending r.status) t)
