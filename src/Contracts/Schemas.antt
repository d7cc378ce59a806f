-- ===== src/Contracts/Schemas.antt =====
-- The schemas of libs/contracts/src/events: envelope.schema.ts, v1/create-message.event.ts and
-- v2/create-message.event.ts, and the typed view of what they accept.
use contract_driven_messagin.Common.{ℕ, String, List, [], ◌∷◌, none, some}
use contract_driven_messagin.Contracts.Value.{text, object, end}
use contract_driven_messagin.Contracts.Zod.{
  Schema, uuid, iso_datetime, bounded, enumeration, literal, at_least, dictionary, optional,
  default_of, record_of, Shape, no_keys, key, extend,
}

abbrev pub service_ids : List String
service_ids = "gateway" ∷ "messaging" ∷ []

abbrev pub service_id_schema : Schema
service_id_schema = enumeration service_ids

abbrev pub schema_version_schema : Schema
schema_version_schema = enumeration ("1" ∷ "2" ∷ [])

abbrev pub event_envelope_shape : Shape
event_envelope_shape = key "eventId" uuid (
    key "correlationId" uuid (
      key "timestamp" iso_datetime (
        key "source" service_id_schema (
          key "trace" (at_least service_id_schema 1)
            (key "schemaVersion" (optional schema_version_schema) no_keys)))))

abbrev pub create_message_event_v1_payload_shape : Shape
create_message_event_v1_payload_shape =
    key "subject" (bounded 1 (some 255))
      (key "content" (bounded 1 none) (key "recipient" (optional (bounded 0 (some 255))) no_keys))

abbrev pub create_message_event_v1_payload_schema : Schema
create_message_event_v1_payload_schema = record_of create_message_event_v1_payload_shape

abbrev pub create_message_event_v1_shape : Shape
create_message_event_v1_shape = extend event_envelope_shape (
    key "type" (literal "CreateMessageEvent.v1")
      (key "payload" create_message_event_v1_payload_schema no_keys))

abbrev pub create_message_event_v1_schema : Schema
create_message_event_v1_schema = record_of create_message_event_v1_shape

abbrev pub message_priority_schema : Schema
message_priority_schema = enumeration ("low" ∷ "normal" ∷ "high" ∷ [])

abbrev pub max_metadata_entries : ℕ
max_metadata_entries = 20

abbrev pub max_metadata_string_length : ℕ
max_metadata_string_length = 256

abbrev pub message_metadata_schema : Schema
message_metadata_schema =
    dictionary (bounded 1 (some max_metadata_string_length))
      (bounded 0 (some max_metadata_string_length)) max_metadata_entries

abbrev pub create_message_event_v2_payload_shape : Shape
create_message_event_v2_payload_shape = key "subject" (bounded 1 (some 255)) (
    key "content" (bounded 1 none) (
      key "recipient" (optional (bounded 0 (some 255))) (
        key "priority" (default_of message_priority_schema (text "normal"))
          (key "metadata" (default_of message_metadata_schema (object end)) no_keys))))

abbrev pub create_message_event_v2_payload_schema : Schema
create_message_event_v2_payload_schema = record_of create_message_event_v2_payload_shape

abbrev pub create_message_event_v2_shape : Shape
create_message_event_v2_shape = extend event_envelope_shape (
    key "type" (literal "CreateMessageEvent.v2") (
      key "schemaVersion" (literal "2")
        (key "payload" create_message_event_v2_payload_schema no_keys)))

abbrev pub create_message_event_v2_schema : Schema
create_message_event_v2_schema = record_of create_message_event_v2_shape
