-- ===== src/Contracts/Examples.antt =====
-- A version 1 event from the wire, validated and upcast.
use contract_driven_messagin.Common.{◌≡◌, ◌↔◌, refl, [], ◌∷◌, none, gives, arith, Thrown, primitive}
use contract_driven_messagin.Contracts.Value.{
  Value, text, number, array, object, nil, cons, end, field, find_field, get_field,
}
use contract_driven_messagin.Contracts.SchemaVersion.{v2, resolve_schema_version}
use contract_driven_messagin.Contracts.Events.{
  gateway, EventV1, success, failure, validate_event, upcast_create_message_event_v1_to_v2,
}
use contract_driven_messagin.Contracts.Zod.{parse_items, text_length, items_length}
use contract_driven_messagin.Contracts.Schemas.{
  create_message_event_v1_schema, create_message_event_v2_schema,
}
use contract_driven_messagin.Contracts.Objects.{event_v1_json, event_v2_json, event_v2_value}
use contract_driven_messagin.Contracts.Typed.{
  cast_data, schemas_of, read_text, read_optional_text, read_service, read_services, read_trace,
  read_version, read_payload_v1, read_event_v1,
}
use contract_driven_messagin.Contracts.Typed.Events.{IsValidV1, IsValidV2}
use contract_driven_messagin.Contracts.Samples.{
  sample_uuid, sample_time, sample_zod, sample_zod-IsDocumented, run,
}
use contract_driven_messagin.Contracts.Json.{safe_parse-event_json}
use contract_driven_messagin.Contracts.Upcast.{
  upcast_of, IsAnswer, validate_event-IsAnswer, safe_parse_v2-event_v2_value,
  upcast_create_message_event_v1_to_v2_total,
}

abbrev zod_error : Thrown
zod_error = primitive "ZodError"

-- A key that the schema does not know is dropped.
abbrev raw : Value
raw = object (
    field "type" (text "CreateMessageEvent.v1") (
      field "eventId" (text sample_uuid) (
        field "correlationId" (text sample_uuid) (
          field "timestamp" (text sample_time) (
            field "source" (text "gateway") (
              field "trace" (array (cons (text "gateway") nil)) (
                field "extra" (number 7) (
                  field "payload"
                    (object (field "subject" (text "Hello") (field "content" (text "World") end)))
                    end))))))))

abbrev event : EventV1
event = record {
  event_id = sample_uuid;
  correlation_id = sample_uuid;
  timestamp = sample_time;
  source = gateway;
  trace = gateway ∷ [];
  schema_version = none;
  payload = record { subject = "Hello"; content = "World"; recipient = none };
}

raw_accepted : (schemas_of sample_zod zod_error).safe_parse_v1 raw ≡ success event
unfolding schemas_of cast_data run read_event_v1 read_payload_v1 find_field get_field read_text
    read_optional_text read_service read_services read_trace read_version text_length items_length
    parse_items
raw_accepted = refl

-- It is no event of version 2.
raw_refused : (schemas_of sample_zod zod_error).safe_parse_v2 raw ≡ failure []
unfolding schemas_of cast_data run find_field get_field text_length items_length parse_items
raw_refused = refl

validate_event-IsAnswer_example :
    IsAnswer
      (IsValidV1 sample_zod)
      (sample_zod.safe_parse create_message_event_v1_schema raw)
      (validate_event ((schemas_of sample_zod zod_error).safe_parse_v1 raw))
    × IsAnswer
        (IsValidV2 sample_zod)
        (sample_zod.safe_parse create_message_event_v2_schema raw)
        (validate_event ((schemas_of sample_zod zod_error).safe_parse_v2 raw))
validate_event-IsAnswer_example =
    validate_event-IsAnswer sample_zod sample_zod-IsDocumented zod_error raw

safe_parse_v2-event_v2_value_example :
    ((schemas_of sample_zod zod_error).safe_parse_v2 (event_v2_value (upcast_of event))
      ≡ success (upcast_of event))
    ↔ IsValidV2 sample_zod (upcast_of event)
safe_parse_v2-event_v2_value_example =
    safe_parse_v2-event_v2_value sample_zod sample_zod-IsDocumented zod_error (upcast_of event)

upcast_create_message_event_v1_to_v2_total_example :
    (upcast_create_message_event_v1_to_v2 (schemas_of sample_zod zod_error) event
      ≡ gives (upcast_of event))
    × ((schemas_of sample_zod zod_error).safe_parse_v2 (event_v2_value (upcast_of event))
        ≡ success (upcast_of event))
    × ((header type : Value)
        → resolve_schema_version
            (record { envelope = event_v2_value (upcast_of event); header = header; type = type })
          ≡ v2)
upcast_create_message_event_v1_to_v2_total_example =
    upcast_create_message_event_v1_to_v2_total sample_zod sample_zod-IsDocumented zod_error raw
      event raw_accepted

safe_parse-event_json_example :
    ((schemas_of sample_zod zod_error).safe_parse_v1 (event_v1_json event) ≡ success event)
    × ((schemas_of sample_zod zod_error).safe_parse_v2 (event_v2_json (upcast_of event))
        ≡ success (upcast_of event))
unfolding text_length
safe_parse-event_json_example =
    safe_parse-event_json sample_zod sample_zod-IsDocumented zod_error event (upcast_of event)
      (refl, refl, refl, omega arith, (omega arith, omega arith, tt))
      (refl, refl, refl, omega arith, (omega arith, omega arith, tt, (omega arith, tt)))
