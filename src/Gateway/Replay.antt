-- ===== src/Gateway/Replay.antt =====
-- apps/gateway/src/outbox/gateway-outbox-admin.service.ts.
use contract_driven_messagin.Common.{ℕ, String, Bool, Option, List, map, keep}
use contract_driven_messagin.Outbox.{Status, OutboxRow, Table, is_failed}
use contract_driven_messagin.Outbox.Select.{sort_by}
use contract_driven_messagin.Outbox.Update.{update_where, updated}
use contract_driven_messagin.Common.{length}
use contract_driven_messagin.Relay.Rows.{is_nonempty}
use contract_driven_messagin.Admin.{replay_row, is_failed_row, is_failed_of_type}

pub record GatewayOutboxRowSummary : Type 0 where
  pub id : ℕ
  pub event_type : String
  pub status : Status
  pub attempts : ℕ
  pub max_attempts : ℕ
  pub last_error : Option String
  pub correlation_id : Option String
  pub event_id : Option String

abbrev pub summary_of : OutboxRow → GatewayOutboxRowSummary
summary_of r = record {
  id = r.id;
  event_type = r.event_type;
  status = r.status;
  attempts = r.attempts;
  max_attempts = r.max_attempts;
  last_error = r.last_error;
  correlation_id = r.correlation_id;
  event_id = r.event_id;
}

unfoldable pub list_failed : Table → List GatewayOutboxRowSummary
unfolding sort_by
list_failed t =
    map summary_of (sort_by (λ (r : OutboxRow). r.id) (keep (λ r. is_failed r.status) t))

-- The answer's `replayed`.
unfoldable pub gateway_replay_by_id : ℕ → ℕ → Table → Bool × Table
gateway_replay_by_id id now t = (
  is_nonempty (updated (is_failed_row id) (replay_row now) t),
  update_where (is_failed_row id) (replay_row now) t,
)

-- The answer's `replayedCount`.
unfoldable pub gateway_replay_all_failed : Option String → ℕ → Table → ℕ × Table
gateway_replay_all_failed event_type now t = (
  length (updated (is_failed_of_type event_type) (replay_row now) t),
  update_where (is_failed_of_type event_type) (replay_row now) t,
)
