-- ===== src/Relay/Samples.antt =====
-- Rows of an outbox, and a relay whose services answer.
use contract_driven_messagin.Common.{ℕ, Bool, true, false, [], ◌∷◌, none, some, gives, arith}
use contract_driven_messagin.AmqpClient.{disconnected, connects}
use contract_driven_messagin.Outbox.{pending, OutboxRow, Table}
use contract_driven_messagin.Outbox.Identity.{HasUniqueIds}
use contract_driven_messagin.Relay.{RelayState, PublishEnv, Wire}

abbrev pub row_at : ℕ → ℕ → OutboxRow
row_at id at = record {
  id = id;
  event_type = "MessagePersisted";
  payload = "{}";
  correlation_id = none;
  status = pending;
  attempts = 0;
  last_error = none;
  created_at = 0;
  sent_at = none;
  locked_at = none;
  locked_by = none;
  next_retry_at = at;
  max_attempts = 5;
  event_id = some "e";
  lock_version = 3;
  trace_context = none;
}

abbrev pub first_row : OutboxRow
first_row = row_at 1 20

abbrev pub second_row : OutboxRow
second_row = row_at 2 10

abbrev pub two_rows : Table
two_rows = first_row ∷ second_row ∷ []

abbrev pub nothing_held : ℕ → Bool
nothing_held _ = false

pub two_rows_unique : HasUniqueIds two_rows
two_rows_unique = ((omega arith, tt), (tt, tt))

abbrev pub wire : Wire
wire = record { id_header = "x-outbox-id"; inject = λ _. [] }

abbrev pub all_well : PublishEnv
all_well = record {
  connect = connects;
  published = gives true;
  confirmed = gives tt;
  sent_query = gives tt;
  failed_query = gives tt;
  now = 80;
}

abbrev pub both_rows : RelayState
both_rows = record { table = two_rows; client = disconnected; handed = []; fenced = 0 }
