-- ===== src/Outbox.antt =====
-- An outbox table: apps/messaging/src/entities/outbox-event.entity.ts and
-- apps/gateway/src/entities/gateway-outbox-event.entity.ts have the same columns. Each SQL
-- statement is one atomic step on the list of rows; times are milliseconds since the epoch.
pub mod Select
pub mod Update
pub mod Identity
pub mod Count
use contract_driven_messagin.Common.{ℕ, String, Option, List, Bool, true, false, ◌==◌, ◌≡◌, map}

pub data Status : Type 0 where
  pending sent failed : Status

abbrev pub is_pending : Status → Bool
is_pending pending = true
is_pending _ = false

abbrev pub is_failed : Status → Bool
is_failed failed = true
is_failed _ = false

-- A payload is the JSON text of its column; a trace context is its carrier's entries.
pub record OutboxRow : Type 0 where
  pub id : ℕ
  pub event_type : String
  pub payload : String
  pub correlation_id : Option String
  pub status : Status
  pub attempts : ℕ
  pub last_error : Option String
  pub created_at : ℕ
  pub sent_at : Option ℕ
  pub locked_at : Option ℕ
  pub locked_by : Option String
  pub next_retry_at : ℕ
  pub max_attempts : ℕ
  pub event_id : Option String
  pub lock_version : ℕ
  pub trace_context : Option (List (String × String))

abbrev pub Table : Type 0
Table = List OutboxRow
