-- ===== src/Contracts/Events.antt =====
-- The types that the schemas of libs/contracts/src/events infer, the upcast of version 1, and
-- validate-event.ts. The library zod parses; its parsers are an argument.
use contract_driven_messagin.Common.{
  String, List, [], ◌∷◌, map, Option, Reply, gives, fails, str_eq, if◌then◌else◌,
}
use contract_driven_messagin.Contracts.Value.{Value}
use contract_driven_messagin.Contracts.SchemaVersion.{SchemaVersion, v1, v2}

pub data ServiceId : Type 0 where
  gateway messaging : ServiceId

pub data MessagePriority : Type 0 where
  low normal high : MessagePriority

pub record PayloadV1 : Type 0 where
  pub subject : String
  pub content : String
  pub recipient : Option String

pub record PayloadV2 : Type 0 where
  pub subject : String
  pub content : String
  pub recipient : Option String
  pub priority : MessagePriority
  pub metadata : List (String × String)

-- The literal `type` and, in version 2, the literal `schemaVersion` are those of the record.
pub record EventV1 : Type 0 where
  pub event_id : String
  pub correlation_id : String
  pub timestamp : String
  pub source : ServiceId
  pub trace : List ServiceId
  pub schema_version : Option SchemaVersion
  pub payload : PayloadV1

pub record EventV2 : Type 0 where
  pub event_id : String
  pub correlation_id : String
  pub timestamp : String
  pub source : ServiceId
  pub trace : List ServiceId
  pub payload : PayloadV2

pub record Issue : Type 0 where
  pub path : List String
  pub message : String

-- What `safeParse` gives.
pub data Parsed (A : Type 0) : Type 0 where
  success : A → Parsed A
  failure : List Issue → Parsed A

-- `createMessageEventV1Schema.safeParse`, `createMessageEventV2Schema.safeParse` and
-- `createMessageEventV2PayloadSchema.parse`.
pub record Schemas : Type 0 where
  pub safe_parse_v1 : Value → Parsed EventV1
  pub safe_parse_v2 : Value → Parsed EventV2
  pub parse_payload_v2 : PayloadV1 → Reply PayloadV2

unfoldable pub event_type_name : SchemaVersion → String
event_type_name v1 = "CreateMessageEvent.v1"
event_type_name v2 = "CreateMessageEvent.v2"

pub record ValidationFailureDetail : Type 0 where
  pub path : String
  pub message : String

pub data ValidateEventResult (A : Type 0) : Type 0 where
  valid : A → ValidateEventResult A
  invalid : List ValidationFailureDetail → ValidateEventResult A

abbrev pub concat_text : String → String → String
concat_text String.[] t = t
concat_text (String.◌∷◌ c s) t = String.◌∷◌ c (concat_text s t)

abbrev pub join_dots : List String → String
join_dots [] = ""
join_dots (s ∷ []) = s
join_dots (s ∷ t ∷ rest) = concat_text s (String.◌∷◌ "." (join_dots (t ∷ rest)))

abbrev pub failure_detail : Issue → ValidationFailureDetail
failure_detail issue =
    let path = join_dots issue.path in
    record { path = if str_eq path "" then "(root)" else path; message = issue.message }

-- One schema's part of `validateEvent`.
unfoldable pub validate_event : {A : Type 0} → Parsed A → ValidateEventResult A
validate_event (success event) = valid event
validate_event (failure issues) = invalid (map failure_detail issues)

unfoldable pub upcast_create_message_event_v1_to_v2 : Schemas → EventV1 → Reply EventV2
upcast_create_message_event_v1_to_v2 schemas e = elim (schemas.parse_payload_v2 e.payload) [
  | fails err ↦ fails err
  | gives payload ↦ gives (record {
    event_id = e.event_id;
    correlation_id = e.correlation_id;
    timestamp = e.timestamp;
    source = e.source;
    trace = e.trace;
    payload = payload;
  })
]
