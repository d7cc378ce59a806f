-- ===== src/Contracts/Typed.antt =====
-- What libs/contracts/src/events/validate-event.ts reads of parsed data by the cast to the type that
-- a schema infers, and the parsers that the schemas give.
pub mod Reads
pub mod Leaves
pub mod Collections
pub mod Metadata
pub mod Payloads
pub mod Accepted
pub mod Events
pub mod Built
use contract_driven_messagin.Common.{
  String, List, [], ◌∷◌, Option, none, some, Reply, gives, fails, str_eq, Thrown, if◌then◌else◌,
}
use contract_driven_messagin.Contracts.Value.{
  Value, undefined, text, array, object, Items, nil, cons, Fields, end, field, get_field,
}
use contract_driven_messagin.Contracts.SchemaVersion.{SchemaVersion, v1, v2}
use contract_driven_messagin.Contracts.Events.{
  ServiceId, gateway, messaging, MessagePriority, low, normal, high, PayloadV1, PayloadV2, EventV1,
  EventV2, Issue, Parsed, success, failure, Schemas,
}
use contract_driven_messagin.Contracts.Objects.{payload_v1_value}
use contract_driven_messagin.Contracts.Zod.{Zod}
use contract_driven_messagin.Contracts.Schemas.{
  create_message_event_v1_schema, create_message_event_v2_schema,
  create_message_event_v2_payload_schema,
}

infixl 5 ◌>>=◌
abbrev pub ◌>>=◌ : {A B : Type 0} → Option A → (A → Option B) → Option B
none >>= f = none
some a >>= f = f a

unfoldable pub read_text : Value → Option String
read_text (text s) = some s
read_text _ = none

unfoldable pub read_optional_text : Value → Option (Option String)
read_optional_text undefined = some none
read_optional_text (text s) = some (some s)
read_optional_text _ = none

abbrev pub service_named : String → Option ServiceId
service_named s =
    if str_eq "gateway" s
    then some gateway
    else if str_eq "messaging" s
    then some messaging
    else none

unfoldable pub read_service : Value → Option ServiceId
read_service (text s) = service_named s
read_service _ = none

unfoldable pub read_services : Items → Option (List ServiceId)
unfolding read_service
read_services nil = some []
read_services (cons v vs) = do s ← read_service v; rest ← read_services vs; some (s ∷ rest)

unfoldable pub read_trace : Value → Option (List ServiceId)
unfolding read_services
read_trace (array vs) = read_services vs
read_trace _ = none

abbrev pub version_named : String → Option (Option SchemaVersion)
version_named s =
    if str_eq "1" s then some (some v1) else if str_eq "2" s then some (some v2) else none

unfoldable pub read_version : Value → Option (Option SchemaVersion)
read_version undefined = some none
read_version (text s) = version_named s
read_version _ = none

abbrev pub priority_named : String → Option MessagePriority
priority_named s =
    if str_eq "low" s
    then some low
    else if str_eq "normal" s
    then some normal
    else if str_eq "high" s
    then some high
    else none

unfoldable pub read_priority : Value → Option MessagePriority
read_priority (text s) = priority_named s
read_priority _ = none

unfoldable pub read_entries : Fields → Option (List (String × String))
unfolding read_text
read_entries end = some []
read_entries (field k v fs) = do s ← read_text v; rest ← read_entries fs; some ((k, s) ∷ rest)

unfoldable pub read_metadata : Value → Option (List (String × String))
unfolding read_entries
read_metadata (object fs) = read_entries fs
read_metadata _ = none

unfoldable pub read_payload_v1 : Value → Option PayloadV1
unfolding read_text read_optional_text
read_payload_v1 (object fs) = do
  s ← read_text (get_field "subject" fs)
  c ← read_text (get_field "content" fs)
  r ← read_optional_text (get_field "recipient" fs)
  some (record { subject = s; content = c; recipient = r })
read_payload_v1 _ = none

unfoldable pub read_payload_v2 : Value → Option PayloadV2
unfolding read_text read_optional_text read_priority read_metadata
read_payload_v2 (object fs) = do
  s ← read_text (get_field "subject" fs)
  c ← read_text (get_field "content" fs)
  r ← read_optional_text (get_field "recipient" fs)
  p ← read_priority (get_field "priority" fs)
  m ← read_metadata (get_field "metadata" fs)
  some (record { subject = s; content = c; recipient = r; priority = p; metadata = m })
read_payload_v2 _ = none

unfoldable pub read_event_v1 : Value → Option EventV1
unfolding read_text read_service read_trace read_version read_payload_v1
read_event_v1 (object fs) = do
  i ← read_text (get_field "eventId" fs)
  c ← read_text (get_field "correlationId" fs)
  t ← read_text (get_field "timestamp" fs)
  s ← read_service (get_field "source" fs)
  ss ← read_trace (get_field "trace" fs)
  v ← read_version (get_field "schemaVersion" fs)
  p ← read_payload_v1 (get_field "payload" fs)
  some (record {
    event_id = i;
    correlation_id = c;
    timestamp = t;
    source = s;
    trace = ss;
    schema_version = v;
    payload = p;
  })
read_event_v1 _ = none

unfoldable pub read_event_v2 : Value → Option EventV2
unfolding read_text read_service read_trace read_payload_v2
read_event_v2 (object fs) = do
  i ← read_text (get_field "eventId" fs)
  c ← read_text (get_field "correlationId" fs)
  t ← read_text (get_field "timestamp" fs)
  s ← read_service (get_field "source" fs)
  ss ← read_trace (get_field "trace" fs)
  p ← read_payload_v2 (get_field "payload" fs)
  some (record {
    event_id = i;
    correlation_id = c;
    timestamp = t;
    source = s;
    trace = ss;
    payload = p;
  })
read_event_v2 _ = none

abbrev pub as_success : {A : Type 0} → Option A → Parsed A
as_success none = failure []
as_success (some a) = success a

-- `result.data as T`. Data that is no `T` is out of the types' reach.
unfoldable pub cast_data : {A : Type 0} → (Value → Option A) → Parsed Value → Parsed A
cast_data read (failure issues) = failure issues
cast_data read (success v) = as_success (read v)

abbrev pub as_reply : {A : Type 0} → Thrown → Parsed A → Reply A
as_reply zod_error (failure issues) = fails zod_error
as_reply zod_error (success a) = gives a

-- `schema.parse`: the `ZodError` is an argument.
unfoldable pub parse_or_throw : {A : Type 0} → Thrown → (Value → Option A) → Parsed Value → Reply A
unfolding cast_data
parse_or_throw zod_error read parsed = as_reply zod_error (cast_data read parsed)

-- The parsers that the code takes from the schemas.
unfoldable pub schemas_of : Zod → Thrown → Schemas
schemas_of zod zod_error = record {
  safe_parse_v1 = λ v. cast_data read_event_v1 (zod.safe_parse create_message_event_v1_schema v);
  safe_parse_v2 = λ v. cast_data read_event_v2 (zod.safe_parse create_message_event_v2_schema v);
  parse_payload_v2 = λ p.
      parse_or_throw zod_error read_payload_v2
        (zod.safe_parse create_message_event_v2_payload_schema (payload_v1_value p));
}
