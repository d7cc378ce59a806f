-- ===== src/Gateway/Send.antt =====
-- `sendTestMessage` and `sendTestMessageV2` of apps/gateway/src/app.controller.ts, and the builders
-- of libs/contracts/src/events/build-create-message-event.ts.
use contract_driven_messagin.Common.{
  ℕ, String, Bool, List, [], ◌∷◌, Option, none, some, returned, threw, Prog, ◌>>=◌, ◌>>◌, pure,
  throw, try_catch, Reply, gives, fails, if◌then◌else◌,
}
use contract_driven_messagin.Contracts.SchemaVersion.{SchemaVersion, v2}
use contract_driven_messagin.Contracts.Events.{
  gateway, PayloadV1, PayloadV2, EventV1, EventV2, Parsed, ValidateEventResult, valid, invalid,
  ValidationFailureDetail, validate_event,
}
use contract_driven_messagin.ErrorClassifier.{ErrorClass, validation, transient}
use contract_driven_messagin.Topology.{create_message_v1, create_message_v2}
use contract_driven_messagin.Consumer.{LifecycleStage, emitted, rejected, LifecycleRecord}
use contract_driven_messagin.Gateway.{
  GatewayDatabase, GatewayTransactionEnv, GatewayOutboxEventInput, record_event,
}

pub data GatewayOutcome : Type 0 where
  accepted_outcome rejected_outcome failure_outcome : GatewayOutcome

pub data GatewayMetric : Type 0 where
  events_accepted : String → GatewayMetric
  events_failed : String → ErrorClass → GatewayMetric
  emit_timer_ended : GatewayOutcome → GatewayMetric

pub record GatewayState : Type 0 where
  pub database : GatewayDatabase
  pub lifecycle : List LifecycleRecord
  pub metrics : List GatewayMetric

-- What `safeParse` makes of a built event, `parse` of a version 2 payload, `JSON.stringify` of an
-- event; the UUID and the time of the builder.
pub record SendEnv : Type 0 where
  pub safe_parse_v1 : EventV1 → Parsed EventV1
  pub safe_parse_v2 : EventV2 → Parsed EventV2
  pub parse_payload_v2 : PayloadV1 → Reply PayloadV2
  pub json_v1 : EventV1 → String
  pub json_v2 : EventV2 → String
  pub event_uuid : String
  pub now_iso : String
  pub transaction : GatewayTransactionEnv
  pub lifecycle_reaches : LifecycleStage → Bool

unfoldable pub build_create_message_event_v1 : SendEnv → PayloadV1 → String → EventV1
build_create_message_event_v1 env payload correlation_id = record {
  event_id = env.event_uuid;
  correlation_id = correlation_id;
  timestamp = env.now_iso;
  source = gateway;
  trace = gateway ∷ [];
  schema_version = none;
  payload = payload;
}

unfoldable pub build_create_message_event_v2 : SendEnv → PayloadV1 → String → Reply EventV2
build_create_message_event_v2 env payload correlation_id = elim (env.parse_payload_v2 payload) [
  | fails e ↦ fails e
  | gives p ↦ gives (record {
    event_id = env.event_uuid;
    correlation_id = correlation_id;
    timestamp = env.now_iso;
    source = gateway;
    trace = gateway ∷ [];
    payload = p;
  })
]

-- The body of the 202 answer.
pub record Accepted : Type 0 where
  pub correlation_id : String
  pub event_id : String
  pub event_type : String
  pub schema_version : Option SchemaVersion
  pub outbox_id : ℕ

-- `bad_request` is the thrown `BadRequestException`.
pub data SendAnswer : Type 0 where
  accepted : Accepted → SendAnswer
  bad_request : String → String → List ValidationFailureDetail → SendAnswer

abbrev pub in_database : {A : Type 0} → Prog GatewayDatabase A → Prog GatewayState A
in_database m s = elim (m s.database) [
  | returned a d ↦ returned a (record s { database = d })
  | threw e d ↦ threw e (record s { database = d })
]

unfoldable pub count_gateway : GatewayMetric → Prog GatewayState (Unit {0})
count_gateway m s = returned tt (record s { metrics = m ∷ s.metrics })

unfoldable pub publish_stage : Bool → LifecycleRecord → Prog GatewayState (Unit {0})
publish_stage reached r s =
    returned tt (record s { lifecycle = if reached then r ∷ s.lifecycle else s.lifecycle })

-- A validated event: its id and its JSON text.
pub record Outgoing : Type 0 where
  pub event_id : String
  pub json : String

abbrev pub outgoing_input : String → String → Outgoing → GatewayOutboxEventInput
outgoing_input event_type correlation_id event = record {
  event_type = event_type;
  payload = event.json;
  correlation_id = some correlation_id;
  event_id = some event.event_id;
  max_attempts = none;
}

-- The rest of a handler, after the validation. The event that is built has the id `built_id`.
unfoldable pub send_event :
    SendEnv
    → String
    → Option SchemaVersion
    → String
    → String
    → ValidateEventResult Outgoing
    → Prog GatewayState SendAnswer
unfolding count_gateway publish_stage record_event
send_event env event_type version correlation_id built_id (invalid errors) =
    count_gateway (events_failed event_type validation)
    >> (count_gateway (emit_timer_ended rejected_outcome)
        >> (publish_stage (env.lifecycle_reaches rejected) (record {
          stage = rejected;
          event_type = event_type;
          event_id = built_id;
          correlation_id = correlation_id;
          errors = some errors;
        })
            >> pure (bad_request event_type built_id errors)))
send_event env event_type version correlation_id built_id (valid event) =
    try_catch
      (do
        row ←
            in_database
              (record_event env.transaction (outgoing_input event_type correlation_id event))
        count_gateway (events_accepted event_type)
        count_gateway (emit_timer_ended accepted_outcome)
        publish_stage (env.lifecycle_reaches emitted) (record {
          stage = emitted;
          event_type = event_type;
          event_id = event.event_id;
          correlation_id = correlation_id;
          errors = none;
        })
        pure (
            accepted (record {
              correlation_id = correlation_id;
              event_id = event.event_id;
              event_type = event_type;
              schema_version = version;
              outbox_id = row.id;
            })))
      (λ err.
        count_gateway (events_failed event_type transient)
        >> (count_gateway (emit_timer_ended failure_outcome) >> throw err))

abbrev pub outgoing_v1 : SendEnv → ValidateEventResult EventV1 → ValidateEventResult Outgoing
outgoing_v1 env (valid e) = valid (record { event_id = e.event_id; json = env.json_v1 e })
outgoing_v1 env (invalid errors) = invalid errors

abbrev pub outgoing_v2 : SendEnv → ValidateEventResult EventV2 → ValidateEventResult Outgoing
outgoing_v2 env (valid e) = valid (record { event_id = e.event_id; json = env.json_v2 e })
outgoing_v2 env (invalid errors) = invalid errors

unfoldable pub send_test_message : SendEnv → String → Prog GatewayState SendAnswer
unfolding build_create_message_event_v1 validate_event send_event
send_test_message env correlation_id =
    let event =
      build_create_message_event_v1 env
        (record { subject = "System test message"; content = "Hello RabbitMQ!"; recipient = none })
        correlation_id in
    send_event env create_message_v1 none correlation_id event.event_id
      (outgoing_v1 env (validate_event (env.safe_parse_v1 event)))

unfoldable pub send_built_v2 : SendEnv → String → Reply EventV2 → Prog GatewayState SendAnswer
unfolding validate_event send_event
send_built_v2 env correlation_id (fails e) = throw e
send_built_v2 env correlation_id (gives event) =
    send_event env create_message_v2 (some v2) correlation_id event.event_id
      (outgoing_v2 env (validate_event (env.safe_parse_v2 event)))

unfoldable pub send_test_message_v2 : SendEnv → String → Prog GatewayState SendAnswer
unfolding build_create_message_event_v2 send_built_v2
send_test_message_v2 env correlation_id = send_built_v2 env correlation_id (
    build_create_message_event_v2 env
      (record {
        subject = "System test message (v2)";
        content = "Hello RabbitMQ!";
        recipient = none;
      })
      correlation_id)
