-- ===== src/Gateway/Checks.antt =====
-- Which requests of apps/gateway/src/app.controller.ts fail validation, and what the consumer makes
-- of the events that libs/contracts/src/events/build-create-message-event.ts builds.
use contract_driven_messagin.Common.{
  ◌≡◌, refl, ap, ◌↔◌, inl, inr, String, true, false, Bool-cases, [], ◌∷◌, none, some, Thrown, gives,
  arith,
}
use contract_driven_messagin.Contracts.SchemaVersion.{v2}
use contract_driven_messagin.Contracts.Events.{PayloadV1, EventV2, gateway, success, validate_event}
use contract_driven_messagin.Contracts.Zod.{Zod, IsDocumented, text_length}
use contract_driven_messagin.Contracts.Objects.{event_v1_value, event_v2_value}
use contract_driven_messagin.Contracts.Typed.{
  schemas_of, read_event_v1, read_event_v2, read_payload_v2, parse_or_throw,
}
use contract_driven_messagin.Contracts.Typed.Payloads.{IsValidPayloadV1}
use contract_driven_messagin.Contracts.Typed.Accepted.{with_defaults, payload_v1_value_accepts}
use contract_driven_messagin.Contracts.Typed.Events.{event_v2_value_accepts}
use contract_driven_messagin.Contracts.Typed.Built.{
  event_v1_value_accepts, event_v1_value_refused, event_v2_value_refused,
}
use contract_driven_messagin.Contracts.Upcast.{cast_data-success}
use contract_driven_messagin.Topology.{create_message_v1, create_message_v2}
use contract_driven_messagin.Gateway.Send.{
  SendEnv, GatewayState, build_create_message_event_v1, build_create_message_event_v2,
  send_test_message, send_test_message_v2, send_built_v2, outgoing_v1, outgoing_v2,
}
use contract_driven_messagin.Gateway.Refusal.{
  IsRefused, IsChecked, cast_data-failure, send_event-IsRefused,
}

module _ (zod : Zod) (zod_error : Thrown) where
  -- The services of the gateway, with the parsers that the schemas give.
  abbrev pub with_schemas : SendEnv → SendEnv
  with_schemas env =
      let schemas = schemas_of zod zod_error in
      record env {
        safe_parse_v1 = λ e. schemas.safe_parse_v1 (event_v1_value e);
        safe_parse_v2 = λ e. schemas.safe_parse_v2 (event_v2_value e);
        parse_payload_v2 = schemas.parse_payload_v2;
      }

-- What the builder of version 2 gives for a valid payload.
abbrev pub event_v2_of : SendEnv → PayloadV1 → String → EventV2
event_v2_of env payload correlation_id = record {
  event_id = env.event_uuid;
  correlation_id = correlation_id;
  timestamp = env.now_iso;
  source = gateway;
  trace = gateway ∷ [];
  payload = with_defaults payload;
}

-- The payloads of the two handlers.
abbrev pub test_payload : PayloadV1
test_payload = record {
  subject = "System test message";
  content = "Hello RabbitMQ!";
  recipient = none;
}

abbrev pub test_payload_v2 : PayloadV1
test_payload_v2 = record {
  subject = "System test message (v2)";
  content = "Hello RabbitMQ!";
  recipient = none;
}

module _ (zod : Zod) (documented : IsDocumented zod) (zod_error : Thrown) (env : SendEnv)
    (uuids : zod.is_uuid env.event_uuid ≡ true)
    (times : zod.is_iso_datetime env.now_iso ≡ true) where
  abbrev checked : SendEnv
  checked = with_schemas zod zod_error env

  pub built_v2 :
      (payload : PayloadV1) (correlation_id : String)
      → IsValidPayloadV1 payload
      → build_create_message_event_v2 checked payload correlation_id
        ≡ gives (event_v2_of env payload correlation_id)
  unfolding build_create_message_event_v2 schemas_of parse_or_throw
  built_v2 payload correlation_id ok =
      let (w, a, q) = payload_v1_value_accepts zod documented payload ok in
      rw (cast_data-success read_payload_v2 _ a q, build_create_message_event_v2) refl

  pub built_v1_valid :
      (payload : PayloadV1) (correlation_id : String)
      → IsValidPayloadV1 payload
      → zod.is_uuid correlation_id ≡ true
      → let e = build_create_message_event_v1 checked payload correlation_id in
        checked.safe_parse_v1 e ≡ success e
  unfolding build_create_message_event_v1 schemas_of
  built_v1_valid payload correlation_id ok u =
      let e = build_create_message_event_v1 checked payload correlation_id in
      let (w, a, q) = event_v1_value_accepts zod documented e (uuids, u, times, omega arith, ok) in
      cast_data-success read_event_v1 _ a q

  pub built_v2_valid :
      (payload : PayloadV1) (correlation_id : String)
      → IsValidPayloadV1 payload
      → zod.is_uuid correlation_id ≡ true
      → checked.safe_parse_v2 (event_v2_of env payload correlation_id)
        ≡ success (event_v2_of env payload correlation_id)
  unfolding schemas_of
  built_v2_valid payload correlation_id (sb, cb, rb) u =
      let e = event_v2_of env payload correlation_id in
      let (w, a, q) =
        event_v2_value_accepts zod documented e
          (uuids, u, times, omega arith, (sb, cb, rb, (omega arith, tt))) in
      cast_data-success read_event_v2 _ a q

  built_v1-IsChecked :
      (payload : PayloadV1) (correlation_id : String)
      → IsValidPayloadV1 payload
      → IsChecked (zod.is_uuid correlation_id) (
          outgoing_v1 checked (
            validate_event (
              checked.safe_parse_v1
                (build_create_message_event_v1 checked payload correlation_id))))
  unfolding validate_event schemas_of build_create_message_event_v1
  built_v1-IsChecked payload correlation_id ok = elim (Bool-cases (zod.is_uuid correlation_id)) [
    | inl u ↦ inl (
      _,
      ap (λ p. outgoing_v1 checked (validate_event p)) (built_v1_valid payload correlation_id ok u),
      u,
    )
    | inr u ↦
        let e = build_create_message_event_v1 checked payload correlation_id in
        let (issues, q) =
          cast_data-failure read_event_v1 _ (event_v1_value_refused zod documented e u) in
        inr (_, ap (λ p. outgoing_v1 checked (validate_event p)) q, u)
  ]

  built_v2-IsChecked :
      (payload : PayloadV1) (correlation_id : String)
      → IsValidPayloadV1 payload
      → IsChecked (zod.is_uuid correlation_id) (
          outgoing_v2 checked
            (validate_event (checked.safe_parse_v2 (event_v2_of env payload correlation_id))))
  unfolding validate_event schemas_of
  built_v2-IsChecked payload correlation_id ok = elim (Bool-cases (zod.is_uuid correlation_id)) [
    | inl u ↦ inl (
      _,
      ap (λ p. outgoing_v2 checked (validate_event p)) (built_v2_valid payload correlation_id ok u),
      u,
    )
    | inr u ↦
        let e = event_v2_of env payload correlation_id in
        let (issues, q) =
          cast_data-failure read_event_v2 _ (event_v2_value_refused zod documented e u) in
        inr (_, ap (λ p. outgoing_v2 checked (validate_event p)) q, u)
  ]

  -- `sendTestMessage` and `sendTestMessageV2` answer with a `BadRequestException` exactly when the
  -- correlation id is no UUID; the database is then as it was. The library keeps to its
  -- documentation, and `randomUUID` and `toISOString` give a UUID and an ISO date.
  pub send_test_message-IsRefused :
      (correlation_id : String) (s : GatewayState)
      → (IsRefused s (send_test_message checked correlation_id s)
          ↔ (zod.is_uuid correlation_id ≡ false))
        × (IsRefused s (send_test_message_v2 checked correlation_id s)
            ↔ (zod.is_uuid correlation_id ≡ false))
  unfolding send_test_message send_test_message_v2 send_built_v2 text_length
  send_test_message-IsRefused correlation_id s = (
    send_event-IsRefused checked create_message_v1 correlation_id env.event_uuid none s _ _
        (built_v1-IsChecked test_payload correlation_id (omega arith, omega arith, tt)),
    rw
        (
          built_v2 test_payload_v2 correlation_id (omega arith, omega arith, tt),
          send_test_message_v2,
        )
        (send_event-IsRefused checked create_message_v2 correlation_id env.event_uuid (some v2) s _
          _ (built_v2-IsChecked test_payload_v2 correlation_id (omega arith, omega arith, tt))),
  )
