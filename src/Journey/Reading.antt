-- ===== src/Journey/Reading.antt =====
-- What the consumer reads in a delivery of a published row.
use contract_driven_messagin.Common.{ℕ, ◌≡◌, refl, String, true, Thrown, gives, default_to, arith}
use contract_driven_messagin.Contracts.Value.{Value, undefined, end, get_field}
use contract_driven_messagin.Contracts.SchemaVersion.{v1, v2, resolve_schema_version}
use contract_driven_messagin.Contracts.Events.{
  EventV1, EventV2, PayloadV1, success, valid, validate_event, Schemas,
  upcast_create_message_event_v1_to_v2,
}
use contract_driven_messagin.Contracts.Zod.{Zod, IsDocumented, text_length}
use contract_driven_messagin.Contracts.Objects.{event_v1_json, event_v2_json}
use contract_driven_messagin.Contracts.Json.{safe_parse-event_json}
use contract_driven_messagin.Contracts.Typed.Payloads.{IsValidPayloadV1}
use contract_driven_messagin.Contracts.Typed.{schemas_of}
use contract_driven_messagin.Contracts.Upcast.{upcast_create_message_event_v1_to_v2_total}
use contract_driven_messagin.Topology.{create_message_v1, create_message_v2}
use contract_driven_messagin.Relay.{message_of}
use contract_driven_messagin.Consumer.Env.{ConsumerEnv}
use contract_driven_messagin.Consumer.{Delivery, read_schema_version_header}
use contract_driven_messagin.Consumer.Handler.{version_of, validated_event}
use contract_driven_messagin.Consumer.Answer.{outcome_of}
use contract_driven_messagin.Consumer.Progress.{IsUp}
use contract_driven_messagin.Gateway.{new_gateway_row}
use contract_driven_messagin.Gateway.Send.{
  SendEnv, Outgoing, outgoing_input, build_create_message_event_v1,
}
use contract_driven_messagin.Gateway.Checks.{
  with_schemas, event_v2_of, test_payload, test_payload_v2,
}
use contract_driven_messagin.Journey.{Route, delivered}

-- Whatever its row's id, the delivery of a recorded event is valid for the consumer.
abbrev pub IsReadable : Route → SendEnv → String → String → Outgoing → EventV2 → Type 0
IsReadable route env event_type correlation_id out event =
    (id : ℕ)
    → outcome_of route.consumer (
        delivered route
          (new_gateway_row env.transaction (outgoing_input event_type correlation_id out) id))
      ≡ valid (gives event)

validated_v1 :
    (schemas : Schemas) (v : Value) (e : EventV1) (e' : EventV2)
    → schemas.safe_parse_v1 v ≡ success e
    → upcast_create_message_event_v1_to_v2 schemas e ≡ gives e'
    → validated_event schemas v1 v ≡ valid (gives e')
unfolding validated_event validate_event
validated_v1 schemas v e e' parsed upcast = rw (validated_event, parsed, upcast) refl

validated_v2 :
    (schemas : Schemas) (v : Value) (e : EventV2)
    → schemas.safe_parse_v2 v ≡ success e
    → validated_event schemas v2 v ≡ valid (gives e)
unfolding validated_event validate_event
validated_v2 schemas v e parsed = rw (validated_event, parsed) refl

module _ (consumer : ConsumerEnv) (d : Delivery) (schemas : Schemas)
    (same : consumer.schemas ≡ schemas)
    (unversioned : read_schema_version_header d ≡ undefined) where
  outcome_v1 :
      (e : EventV1) (e' : EventV2)
      → d.payload ≡ event_v1_json e
      → resolve_schema_version
          (record { envelope = event_v1_json e; header = undefined; type = undefined })
        ≡ v1
      → schemas.safe_parse_v1 (event_v1_json e) ≡ success e
      → upcast_create_message_event_v1_to_v2 schemas e ≡ gives e'
      → outcome_of consumer d ≡ valid (gives e')
  unfolding version_of
  outcome_v1 e e' payload version parsed upcast =
      rw (same, unversioned, payload, version) (validated_v1 schemas _ e e' parsed upcast)

  outcome_v2 :
      (e : EventV2)
      → d.payload ≡ event_v2_json e
      → resolve_schema_version
          (record { envelope = event_v2_json e; header = undefined; type = undefined })
        ≡ v2
      → schemas.safe_parse_v2 (event_v2_json e) ≡ success e
      → outcome_of consumer d ≡ valid (gives e)
  unfolding version_of
  outcome_v2 e payload version parsed =
      rw (same, unversioned, payload, version) (validated_v2 schemas _ e parsed)

module _ (zod : Zod) (documented : IsDocumented zod) (zod_error : Thrown) (env : SendEnv)
    (uuids : zod.is_uuid env.event_uuid ≡ true)
    (times : zod.is_iso_datetime env.now_iso ≡ true) where
  abbrev pub checked : SendEnv
  checked = with_schemas zod zod_error env

  -- The outbox keeps the JSON text of the event, and the consumer parses with the same schemas and
  -- finds no version header.
  pub record Conveys (route : Route) (correlation_id : String) : Type 0 where
    pub up : IsUp route.consumer
    pub schemas : route.consumer.schemas ≡ schemas_of zod zod_error
    pub unversioned : get_field "x-schema-version" (default_to end route.headers) ≡ undefined
    pub json_v1 :
        let e = build_create_message_event_v1 checked test_payload correlation_id in
        route.parse_json (env.json_v1 e) ≡ event_v1_json e
    pub json_v2 :
        let e = event_v2_of env test_payload_v2 correlation_id in
        route.parse_json (env.json_v2 e) ≡ event_v2_json e

  module _ (route : Route) (correlation_id : String) (conveys : Conveys route correlation_id)
      (u : zod.is_uuid correlation_id ≡ true) where
    parsed_json :
        (payload : PayloadV1)
        → IsValidPayloadV1 payload
        → let e = build_create_message_event_v1 checked payload correlation_id in
          let e' = event_v2_of env payload correlation_id in
          ((schemas_of zod zod_error).safe_parse_v1 (event_v1_json e) ≡ success e)
          × ((schemas_of zod zod_error).safe_parse_v2 (event_v2_json e') ≡ success e')
    unfolding build_create_message_event_v1
    parsed_json payload (sb, cb, rb) =
        safe_parse-event_json zod documented zod_error _ _
          (uuids, u, times, omega arith, (sb, cb, rb))
          (uuids, u, times, omega arith, (sb, cb, rb, (omega arith, tt)))

    pub delivered_v1-IsReadable :
        let e = build_create_message_event_v1 checked test_payload correlation_id in
        IsReadable route checked create_message_v1 correlation_id
          (record { event_id = e.event_id; json = env.json_v1 e })
          (event_v2_of env test_payload correlation_id)
    unfolding text_length build_create_message_event_v1 resolve_schema_version event_v1_json
        message_of read_schema_version_header
    delivered_v1-IsReadable id =
        let ok : IsValidPayloadV1 test_payload = (omega arith, omega arith, tt) in
        let e = build_create_message_event_v1 checked test_payload correlation_id in
        outcome_v1 route.consumer _ (schemas_of zod zod_error) conveys.schemas conveys.unversioned e
          _ conveys.json_v1 refl (parsed_json test_payload ok).0
          (upcast_create_message_event_v1_to_v2_total zod documented zod_error _ e
            (parsed_json test_payload ok).0).0

    pub delivered_v2-IsReadable :
        let e = event_v2_of env test_payload_v2 correlation_id in
        IsReadable route checked create_message_v2 correlation_id
          (record { event_id = e.event_id; json = env.json_v2 e })
          e
    unfolding text_length resolve_schema_version event_v2_json message_of read_schema_version_header
    delivered_v2-IsReadable id =
        let ok : IsValidPayloadV1 test_payload_v2 = (omega arith, omega arith, tt) in
        let e = event_v2_of env test_payload_v2 correlation_id in
        outcome_v2 route.consumer _ (schemas_of zod zod_error) conveys.schemas conveys.unversioned e
          conveys.json_v2 refl (parsed_json test_payload_v2 ok).1
