-- ===== src/Journey.antt =====
-- From a request at the gateway to the consumer's tables: apps/gateway/src/app.controller.ts, the
-- gateway's outbox and relay, and `handleMessage` of apps/messaging/src/messaging.controller.ts.
pub mod Reading
pub mod Arrival
mod Examples
use contract_driven_messagin.Common.{
  ℕ, ◌≡◌, refl, sym, ap, subst, ◌∙◌, inl, inr, String, true, false, List, [], ◌∷◌, ◌++◌, Option,
  none, some, Thrown, Run, returned, threw, Reply, gives, arith, Ends,
}
use contract_driven_messagin.Contracts.Value.{Value, undefined, Fields}
use contract_driven_messagin.Contracts.SchemaVersion.{SchemaVersion, v1, v2, resolve_schema_version}
use contract_driven_messagin.Contracts.Events.{
  EventV1, EventV2, PayloadV1, ValidateEventResult, valid, validate_event,
  upcast_create_message_event_v1_to_v2,
}
use contract_driven_messagin.Contracts.Zod.{Zod, IsDocumented, text_length}
use contract_driven_messagin.Contracts.Objects.{event_v1_value, event_v2_value}
use contract_driven_messagin.Contracts.Typed.{schemas_of}
use contract_driven_messagin.Outbox.{OutboxRow}
use contract_driven_messagin.Database.{is_processed}
use contract_driven_messagin.Relay.Rows.{to_claimed, lock_row}
use contract_driven_messagin.Relay.{AmqpMessage, message_of}
use contract_driven_messagin.Consumer.{Delivery, ConsumerState, read_schema_version_header}
use contract_driven_messagin.Consumer.Env.{ConsumerEnv}
use contract_driven_messagin.Consumer.Handler.{handle_message, version_of, validated_event}
use contract_driven_messagin.Consumer.Answer.{outcome_of}
use contract_driven_messagin.Consumer.Progress.{IsUp, IsStored}
use contract_driven_messagin.Gateway.{GatewayDatabase, new_gateway_row, record_event}
use contract_driven_messagin.Gateway.Relay.{gateway_wire}
use contract_driven_messagin.Gateway.Send.{
  SendEnv, GatewayState, SendAnswer, accepted, bad_request, Outgoing, outgoing_input, send_event,
  count_gateway, publish_stage,
}
use contract_driven_messagin.Gateway.Acceptance.{
  IsIdle, IsRecorded, IsRecordedOrNot, IsUncertain, record_event-IsRecorded,
}

-- A delivery of the message, with its parsed body as the payload.
abbrev pub parsed_delivery : (String → Value) → Option Fields → AmqpMessage → Delivery
parsed_delivery parse_json headers m = record {
  payload = parse_json m.body;
  content = m.body;
  headers = headers;
}

-- What happens to a row after the answer: an instance of the gateway's relay claims and publishes
-- it, and the consumer, in the state `c`, gets a delivery with the given headers.
pub record Route : Type 0 where
  pub parse_json : String → Value
  pub inject : Option (List (String × String)) → List (String × String)
  pub instance_id : String
  pub claimed_at : ℕ
  pub headers : Option Fields
  pub consumer : ConsumerEnv
  pub state : ConsumerState

abbrev pub delivered : Route → OutboxRow → Delivery
delivered route row = parsed_delivery route.parse_json route.headers (
    message_of (gateway_wire route.inject)
      (to_claimed (lock_row route.instance_id route.claimed_at row)))

-- The answer names a new row, and the consumer stores the event of its delivery.
abbrev pub Arrives : Route → EventV2 → GatewayState → SendAnswer → GatewayState → Type 0
Arrives route event s (accepted a) s' =
    (row : OutboxRow) × (row.id ≡ a.outbox_id)
    × (s'.database.table ≡ s.database.table ++ (row ∷ []))
    × Ends (IsStored event route.state) (λ _ _. ⊥)
        (handle_message route.consumer (delivered route row) route.state)
Arrives route event s (bad_request ty id errors) s' = ⊥
