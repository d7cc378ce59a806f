-- ===== src/Contracts/Typed/Reads.antt =====
-- The typed view of the values that the schemas give.
use contract_driven_messagin.Common.{◌≡◌, refl, String, List, [], ◌∷◌, Option, none, some}
use contract_driven_messagin.Contracts.Value.{Value, text, array, object, Fields, get_field}
use contract_driven_messagin.Contracts.SchemaVersion.{SchemaVersion, v1, v2}
use contract_driven_messagin.Contracts.Events.{
  ServiceId, gateway, messaging, MessagePriority, low, normal, high, PayloadV1, PayloadV2, EventV1,
  EventV2,
}
use contract_driven_messagin.Contracts.Objects.{
  service_name, priority_name, optional_text, optional_version, trace_items, metadata_fields,
}
use contract_driven_messagin.Contracts.Typed.{
  read_optional_text, read_service, read_services, read_trace, read_version, read_priority,
  read_entries, read_metadata, read_payload_v1, read_payload_v2, read_event_v1, read_event_v2,
}

read_optional_text-optional_text :
    (o : Option String) → read_optional_text (optional_text o) ≡ some o
unfolding read_optional_text
read_optional_text-optional_text none = refl
read_optional_text-optional_text (some s) = refl

read_service-service_name : (s : ServiceId) → read_service (text (service_name s)) ≡ some s
unfolding read_service
read_service-service_name gateway = refl
read_service-service_name messaging = refl

read_services-trace_items : (ss : List ServiceId) → read_services (trace_items ss) ≡ some ss
unfolding read_services
read_services-trace_items [] = refl
read_services-trace_items (s ∷ ss) =
    rw (read_service-service_name s) (rw (read_services-trace_items ss) refl)

read_trace-trace_items : (ss : List ServiceId) → read_trace (array (trace_items ss)) ≡ some ss
unfolding read_trace
read_trace-trace_items ss = read_services-trace_items ss

read_version-optional_version :
    (o : Option SchemaVersion) → read_version (optional_version o) ≡ some o
unfolding read_version
read_version-optional_version none = refl
read_version-optional_version (some v1) = refl
read_version-optional_version (some v2) = refl

read_priority-priority_name :
    (p : MessagePriority) → read_priority (text (priority_name p)) ≡ some p
unfolding read_priority
read_priority-priority_name low = refl
read_priority-priority_name normal = refl
read_priority-priority_name high = refl

read_entries-metadata_fields :
    (m : List (String × String)) → read_entries (metadata_fields m) ≡ some m
unfolding read_entries
read_entries-metadata_fields [] = refl
read_entries-metadata_fields ((k, s) ∷ m) = rw (read_entries-metadata_fields m) refl

read_metadata-metadata_fields :
    (m : List (String × String)) → read_metadata (object (metadata_fields m)) ≡ some m
unfolding read_metadata
read_metadata-metadata_fields m = read_entries-metadata_fields m

-- The fields of a version 1 payload.
abbrev pub HasPayloadV1 : Fields → PayloadV1 → Type 0
HasPayloadV1 fs p =
    (get_field "subject" fs ≡ text p.subject)
    × (get_field "content" fs ≡ text p.content)
    × (get_field "recipient" fs ≡ optional_text p.recipient)

abbrev pub HasPayloadV2 : Fields → PayloadV2 → Type 0
HasPayloadV2 fs p =
    (get_field "subject" fs ≡ text p.subject)
    × (get_field "content" fs ≡ text p.content)
    × (get_field "recipient" fs ≡ optional_text p.recipient)
    × (get_field "priority" fs ≡ text (priority_name p.priority))
    × (get_field "metadata" fs ≡ object (metadata_fields p.metadata))

pub read_payload_v1-eq-some :
    (fs : Fields) (p : PayloadV1) → HasPayloadV1 fs p → read_payload_v1 (object fs) ≡ some p
unfolding read_payload_v1
read_payload_v1-eq-some fs p (a, b, c) = rw (a, b, c) (simp (read_optional_text-optional_text))

pub read_payload_v2-eq-some :
    (fs : Fields) (p : PayloadV2) → HasPayloadV2 fs p → read_payload_v2 (object fs) ≡ some p
unfolding read_payload_v2
read_payload_v2-eq-some fs p (a, b, c, d, e) =
    rw (a, b, c, d, e)
      (simp (
        read_optional_text-optional_text, read_priority-priority_name,
        read_metadata-metadata_fields,
      ))

module _ (fs : Fields) (payload : Value) where
  abbrev pub HasEventV1 : EventV1 → Type 0
  HasEventV1 e =
      (get_field "eventId" fs ≡ text e.event_id)
      × (get_field "correlationId" fs ≡ text e.correlation_id)
      × (get_field "timestamp" fs ≡ text e.timestamp)
      × (get_field "source" fs ≡ text (service_name e.source))
      × (get_field "trace" fs ≡ array (trace_items e.trace))
      × (get_field "schemaVersion" fs ≡ optional_version e.schema_version)
      × (get_field "payload" fs ≡ payload)
      × (read_payload_v1 payload ≡ some e.payload)

  abbrev pub HasEventV2 : EventV2 → Type 0
  HasEventV2 e =
      (get_field "eventId" fs ≡ text e.event_id)
      × (get_field "correlationId" fs ≡ text e.correlation_id)
      × (get_field "timestamp" fs ≡ text e.timestamp)
      × (get_field "source" fs ≡ text (service_name e.source))
      × (get_field "trace" fs ≡ array (trace_items e.trace))
      × (get_field "payload" fs ≡ payload)
      × (read_payload_v2 payload ≡ some e.payload)

  pub read_event_v1-eq-some : (e : EventV1) → HasEventV1 e → read_event_v1 (object fs) ≡ some e
  unfolding read_event_v1
  read_event_v1-eq-some e (a, b, c, d, f, g, h, i) =
      rw (a, b, c, d, f, g, h)
        (simp (i, read_service-service_name, read_trace-trace_items, read_version-optional_version))

  pub read_event_v2-eq-some : (e : EventV2) → HasEventV2 e → read_event_v2 (object fs) ≡ some e
  unfolding read_event_v2
  read_event_v2-eq-some e (a, b, c, d, f, h, i) =
      rw (a, b, c, d, f, h) (simp (i, read_service-service_name, read_trace-trace_items))
