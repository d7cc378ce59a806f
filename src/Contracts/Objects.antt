-- ===== src/Contracts/Objects.antt =====
-- The objects that libs/contracts/src/events/build-create-message-event.ts and
-- upcast/upcast-create-message-event.ts write. Where an object of the source lacks the key
-- `schemaVersion` or `recipient`, the key has the value `undefined` here, which its readers take alike.
use contract_driven_messagin.Common.{String, List, [], ◌∷◌, Option, none, some}
use contract_driven_messagin.Contracts.Value.{
  Value, undefined, text, array, object, Items, nil, cons, Fields, end, field,
}
use contract_driven_messagin.Contracts.SchemaVersion.{SchemaVersion, v1, v2}
use contract_driven_messagin.Contracts.Events.{
  ServiceId, gateway, messaging, MessagePriority, low, normal, high, PayloadV1, PayloadV2, EventV1,
  EventV2,
}

abbrev pub service_name : ServiceId → String
service_name gateway = "gateway"
service_name messaging = "messaging"

abbrev pub version_name : SchemaVersion → String
version_name v1 = "1"
version_name v2 = "2"

abbrev pub priority_name : MessagePriority → String
priority_name low = "low"
priority_name normal = "normal"
priority_name high = "high"

abbrev pub optional_text : Option String → Value
optional_text none = undefined
optional_text (some s) = text s

abbrev pub optional_version : Option SchemaVersion → Value
optional_version none = undefined
optional_version (some v) = text (version_name v)

abbrev pub trace_items : List ServiceId → Items
trace_items [] = nil
trace_items (s ∷ ss) = cons (text (service_name s)) (trace_items ss)

abbrev pub metadata_fields : List (String × String) → Fields
metadata_fields [] = end
metadata_fields ((k, s) ∷ m) = field k (text s) (metadata_fields m)

-- `{ subject, content, recipient }`.
abbrev pub payload_v1_fields : PayloadV1 → Fields
payload_v1_fields p =
    (field "subject" (text p.subject)
      (field "content" (text p.content) (field "recipient" (optional_text p.recipient) end)))

unfoldable pub payload_v1_value : PayloadV1 → Value
payload_v1_value p = object (payload_v1_fields p)

unfoldable pub payload_v2_value : PayloadV2 → Value
payload_v2_value p = object (
    field "subject" (text p.subject) (
      field "content" (text p.content) (
        field "recipient" (optional_text p.recipient) (
          field "priority" (text (priority_name p.priority))
            (field "metadata" (object (metadata_fields p.metadata)) end)))))

abbrev pub event_v1_fields : EventV1 → Fields
event_v1_fields e =
    (field "type" (text "CreateMessageEvent.v1") (
      field "eventId" (text e.event_id) (
        field "correlationId" (text e.correlation_id) (
          field "timestamp" (text e.timestamp) (
            field "source" (text (service_name e.source)) (
              field "trace" (array (trace_items e.trace)) (
                field "schemaVersion" (optional_version e.schema_version)
                  (field "payload" (payload_v1_value e.payload) end))))))))

unfoldable pub event_v1_value : EventV1 → Value
event_v1_value e = object (event_v1_fields e)

abbrev pub event_v2_fields_with : EventV2 → Value → Fields
event_v2_fields_with e payload =
    (field "type" (text "CreateMessageEvent.v2") (
      field "schemaVersion" (text "2") (
        field "eventId" (text e.event_id) (
          field "correlationId" (text e.correlation_id) (
            field "timestamp" (text e.timestamp) (
              field "source" (text (service_name e.source))
                (field "trace" (array (trace_items e.trace)) (field "payload" payload end))))))))

abbrev pub event_v2_fields : EventV2 → Fields
event_v2_fields e = event_v2_fields_with e (payload_v2_value e.payload)

unfoldable pub event_v2_value : EventV2 → Value
event_v2_value e = object (event_v2_fields e)

-- What `JSON.parse` gives for the `JSON.stringify` of such an object: a property whose value is
-- `undefined` is left out.
abbrev pub json_field : String → Value → Fields → Fields
json_field k undefined fs = fs
json_field k v fs = field k v fs

abbrev pub payload_v1_json_fields : PayloadV1 → Fields
payload_v1_json_fields p =
    field "subject" (text p.subject)
      (field "content" (text p.content) (json_field "recipient" (optional_text p.recipient) end))

abbrev pub event_v1_json_fields : EventV1 → Fields
event_v1_json_fields e = field "type" (text "CreateMessageEvent.v1") (
    field "eventId" (text e.event_id) (
      field "correlationId" (text e.correlation_id) (
        field "timestamp" (text e.timestamp) (
          field "source" (text (service_name e.source)) (
            field "trace" (array (trace_items e.trace)) (
              json_field "schemaVersion" (optional_version e.schema_version)
                (field "payload" (object (payload_v1_json_fields e.payload)) end)))))))

unfoldable pub event_v1_json : EventV1 → Value
event_v1_json e = object (event_v1_json_fields e)

abbrev pub payload_v2_json_fields : PayloadV2 → Fields
payload_v2_json_fields p = field "subject" (text p.subject) (
    field "content" (text p.content) (
      json_field "recipient" (optional_text p.recipient) (
        field "priority" (text (priority_name p.priority))
          (field "metadata" (object (metadata_fields p.metadata)) end))))

unfoldable pub event_v2_json : EventV2 → Value
event_v2_json e = object (event_v2_fields_with e (object (payload_v2_json_fields e.payload)))
