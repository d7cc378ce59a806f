-- ===== src/Contracts/Json.antt =====
-- Valid events survive the text that is kept in an outbox row and published.
use contract_driven_messagin.Common.{◌≡◌, refl, ap, ◌∙◌, String, Option, none, some, Thrown}
use contract_driven_messagin.Contracts.Value.{Value, get_field}
use contract_driven_messagin.Contracts.SchemaVersion.{SchemaVersion}
use contract_driven_messagin.Contracts.Events.{PayloadV1, PayloadV2, EventV1, EventV2, success}
use contract_driven_messagin.Contracts.Zod.{Zod, IsDocumented, accepted}
use contract_driven_messagin.Contracts.Schemas.{
  create_message_event_v1_payload_schema, create_message_event_v2_payload_schema,
}
use contract_driven_messagin.Contracts.Objects.{
  event_v1_json, event_v2_json, event_v1_json_fields, payload_v1_json_fields,
  payload_v2_json_fields,
}
use contract_driven_messagin.Contracts.Typed.{
  schemas_of, read_event_v1, read_event_v2, read_payload_v1, read_payload_v2,
}
use contract_driven_messagin.Contracts.Typed.Collections.{priority_accepts}
use contract_driven_messagin.Contracts.Typed.Metadata.{metadata_accepts}
use contract_driven_messagin.Contracts.Typed.Payloads.{IsValidPayloadV1, IsValidPayloadV2}
use contract_driven_messagin.Contracts.Typed.Accepted.{payload_v1_accepts_v1, payload_v2_accepts}
use contract_driven_messagin.Contracts.Typed.Events.{IsValidV1, IsValidV2, event_v2_accepts}
use contract_driven_messagin.Contracts.Typed.Built.{HasEnvelope, event_v1_accepts}
use contract_driven_messagin.Contracts.Upcast.{cast_data-success}
use contract_driven_messagin.Contracts.Value.{object}

event_v1_json-HasEnvelope :
    (e : EventV1) (v : Option SchemaVersion)
    → e.schema_version ≡ v
    → HasEnvelope (event_v1_json_fields e) e
unfolding get_field
event_v1_json-HasEnvelope e none h = rw h (refl, refl, refl, refl, refl, refl, refl)
event_v1_json-HasEnvelope e (some v) h = rw h (refl, refl, refl, refl, refl, refl, refl)

payload_of_json :
    (e : EventV1) (v : Option SchemaVersion)
    → e.schema_version ≡ v
    → get_field "payload" (event_v1_json_fields e) ≡ object (payload_v1_json_fields e.payload)
unfolding get_field
payload_of_json e none h = rw h refl
payload_of_json e (some v) h = rw h refl

module _ (zod : Zod) (documented : IsDocumented zod) where
  payload_v1_json_accepts :
      (p : PayloadV1) (r : Option String)
      → p.recipient ≡ r
      → IsValidPayloadV1 p
      → (w : Value) × (accepted zod create_message_event_v1_payload_schema
            (object (payload_v1_json_fields p))
          ≡ some w)
        × (read_payload_v1 w ≡ some p)
  unfolding get_field
  payload_v1_json_accepts p none e h =
      payload_v1_accepts_v1 zod documented _ p h refl refl (rw e refl)
  payload_v1_json_accepts p (some r) e h =
      payload_v1_accepts_v1 zod documented _ p h refl refl (rw e refl)

  payload_v2_json_accepts :
      (p : PayloadV2) (r : Option String)
      → p.recipient ≡ r
      → IsValidPayloadV2 p
      → (w : Value) × (accepted zod create_message_event_v2_payload_schema
            (object (payload_v2_json_fields p))
          ≡ some w)
        × (read_payload_v2 w ≡ some p)
  unfolding get_field
  payload_v2_json_accepts p none e h =
      payload_v2_accepts zod documented _ p h refl refl (rw e refl)
        (rw e (priority_accepts zod documented p.priority))
        (rw e (metadata_accepts zod documented p.metadata h.3))
  payload_v2_json_accepts p (some r) e h =
      payload_v2_accepts zod documented _ p h refl refl (rw e refl)
        (rw e (priority_accepts zod documented p.priority))
        (rw e (metadata_accepts zod documented p.metadata h.3))

  -- The object that an event of either version becomes in its JSON text, where a property without a
  -- value is left out, is parsed back to that event, if the event meets the demands of its schema.
  -- The library keeps to its documentation.
  pub safe_parse-event_json :
      (zod_error : Thrown) (e : EventV1) (e' : EventV2)
      → IsValidV1 zod e
      → IsValidV2 zod e'
      → ((schemas_of zod zod_error).safe_parse_v1 (event_v1_json e) ≡ success e)
        × ((schemas_of zod zod_error).safe_parse_v2 (event_v2_json e') ≡ success e')
  unfolding schemas_of event_v1_json event_v2_json
  safe_parse-event_json zod_error e e' h h' =
      let (pw, pa, pr) = payload_v1_json_accepts e.payload _ refl h.4 in
      let (w, a, q) =
        event_v1_accepts zod documented (event_v1_json_fields e) e h
          (event_v1_json-HasEnvelope e _ refl)
          (pw, ap (accepted zod _) (payload_of_json e _ refl) ∙ pa, pr) in
      let (w', a', q') =
        event_v2_accepts zod documented e' _ h' (payload_v2_json_accepts e'.payload _ refl h'.4) in
      (cast_data-success read_event_v1 _ a q, cast_data-success read_event_v2 _ a' q')
