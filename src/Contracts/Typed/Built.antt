-- ===== src/Contracts/Typed/Built.antt =====
-- Which of the events that build-create-message-event.ts builds the schemas accept.
use contract_driven_messagin.Common.{
  ◌≡◌, refl, ap, sym, ◌∙◌, subst, String, false, Option, none, some, none-ne-some,
}
use contract_driven_messagin.Contracts.Value.{Value, text, array, object, Fields, get_field}
use contract_driven_messagin.Contracts.Events.{EventV1, EventV2}
use contract_driven_messagin.Contracts.Zod.{
  Zod, IsDocumented, Shape, record_of, object_of, accepted, uuid, parse_keys, iso_datetime, literal,
  at_least, optional,
}
use contract_driven_messagin.Contracts.Zod.Keys.{
  IsDistinct, Gives, schema_at, parse_keys-Gives, parse_keys-total,
}
use contract_driven_messagin.Contracts.Schemas.{
  create_message_event_v1_schema, create_message_event_v2_schema, create_message_event_v1_shape,
  create_message_event_v2_shape, create_message_event_v1_payload_schema, service_id_schema,
  schema_version_schema,
}
use contract_driven_messagin.Contracts.Objects.{
  event_v1_value, event_v2_value, event_v1_fields, event_v2_fields, service_name, trace_items,
  optional_version,
}
use contract_driven_messagin.Contracts.Typed.{read_event_v1, read_payload_v1}
use contract_driven_messagin.Contracts.Typed.Reads.{read_event_v1-eq-some}
use contract_driven_messagin.Contracts.Typed.Leaves.{service_accepts}
use contract_driven_messagin.Contracts.Typed.Collections.{trace_accepts, version_accepts}
use contract_driven_messagin.Contracts.Typed.Payloads.{output_key}
use contract_driven_messagin.Contracts.Typed.Accepted.{payload_v1_value_accepts_v1}
use contract_driven_messagin.Contracts.Typed.Events.{
  IsValidV1, event_v1-IsDistinct, event_v2-IsDistinct,
}

-- The fields of an event but its payload.
abbrev pub HasEnvelope : Fields → EventV1 → Type 0
HasEnvelope fs e =
    (get_field "eventId" fs ≡ text e.event_id)
    × (get_field "correlationId" fs ≡ text e.correlation_id)
    × (get_field "timestamp" fs ≡ text e.timestamp)
    × (get_field "source" fs ≡ text (service_name e.source))
    × (get_field "trace" fs ≡ array (trace_items e.trace))
    × (get_field "schemaVersion" fs ≡ optional_version e.schema_version)
    × (get_field "type" fs ≡ text "CreateMessageEvent.v1")

module _ (zod : Zod) (documented : IsDocumented zod) where
  -- An object whose fields are those of a valid event is an event of version 1.
  pub event_v1_accepts :
      (fs : Fields) (e : EventV1)
      → IsValidV1 zod e
      → HasEnvelope fs e
      → (w : Value) × (accepted zod create_message_event_v1_payload_schema (get_field "payload" fs)
          ≡ some w)
        × (read_payload_v1 w ≡ some e.payload)
      → (w : Value) × (accepted zod create_message_event_v1_schema (object fs) ≡ some w)
        × (read_event_v1 w ≡ some e)
  event_v1_accepts fs e (ib, cb, tb, ssb, pb) (ie, ce, te, se, sse, ve, ye) (pw, pa, pr) =
      let shape = create_message_event_v1_shape in
      let ia = ap (accepted zod uuid) ie ∙ documented.uuid_law (text e.event_id) ∙ rw ib refl in
      let ca =
        ap (accepted zod uuid) ce ∙ documented.uuid_law (text e.correlation_id) ∙ rw cb refl in
      let ta =
        ap (accepted zod iso_datetime) te
        ∙ documented.iso_datetime_law (text e.timestamp)
        ∙ rw tb refl in
      let sa = ap (accepted zod service_id_schema) se ∙ service_accepts zod documented e.source in
      let ssa =
        ap (accepted zod (at_least service_id_schema 1)) sse
        ∙ trace_accepts zod documented e.trace ssb in
      let va =
        ap (accepted zod (optional schema_version_schema)) ve
        ∙ version_accepts zod documented e.schema_version in
      let la =
        ap (accepted zod (literal "CreateMessageEvent.v1")) ye
        ∙ documented.literal_law "CreateMessageEvent.v1" (text "CreateMessageEvent.v1") in
      let (gs, q) = parse_keys-total (accepted zod) shape fs (
        (_, ia),
        ((_, ca), ((_, ta), ((_, sa), ((_, ssa), ((_, va), ((_, la), ((pw, pa), tt))))))),
      ) in
      let give =
        λ (j : String). parse_keys-Gives (accepted zod) j shape fs gs event_v1-IsDistinct q in
      (
        object gs,
        documented.object_law shape (object fs) ∙ rw q refl,
        read_event_v1-eq-some gs pw e (
          output_key zod documented _ _ (give "eventId") ia,
          output_key zod documented _ _ (give "correlationId") ca,
          output_key zod documented _ _ (give "timestamp") ta,
          output_key zod documented _ _ (give "source") sa,
          output_key zod documented _ _ (give "trace") ssa,
          output_key zod documented _ _ (give "schemaVersion") va,
          output_key zod documented _ _ (give "payload") pa,
          pr,
        ),
      )

  pub event_v1_value_accepts :
      (e : EventV1)
      → IsValidV1 zod e
      → (w : Value) × (accepted zod create_message_event_v1_schema (event_v1_value e) ≡ some w)
        × (read_event_v1 w ≡ some e)
  unfolding event_v1_value get_field
  event_v1_value_accepts e h =
      event_v1_accepts (event_v1_fields e) e h (refl, refl, refl, refl, refl, refl, refl)
        (payload_v1_value_accepts_v1 zod documented e.payload h.4)

  -- A correlation id that is no UUID makes the whole event fail.
  no_uuid :
      (s : String) {w : Value} → zod.is_uuid s ≡ false → accepted zod uuid (text s) ≡ some w → ⊥
  no_uuid s f h = none-ne-some (sym (documented.uuid_law (text s) ∙ rw f refl) ∙ h)

  refused :
      (shape : Shape) (fs : Fields) (s : String)
      → IsDistinct shape
      → schema_at "correlationId" shape ≡ some uuid
      → get_field "correlationId" fs ≡ text s
      → zod.is_uuid s ≡ false
      → accepted zod (record_of shape) (object fs) ≡ none
  refused shape fs s d at_key e f = documented.object_law shape (object fs) ∙ by_keys _ refl
    where
      by_keys :
          (o : Option Fields)
          → parse_keys (accepted zod) shape fs ≡ o
          → object_of (parse_keys (accepted zod) shape fs) ≡ none
      by_keys none q = rw q refl
      by_keys (some gs) q =
          let given = parse_keys-Gives (accepted zod) "correlationId" shape fs gs d q in
          let at_uuid : Gives (accepted zod) (some uuid) (get_field "correlationId" fs)
              (get_field "correlationId" gs) =
            subst
              (λ o.
                Gives (accepted zod) o (get_field "correlationId" fs)
                  (get_field "correlationId" gs))
              at_key given in
          absurd (no_uuid s f (sym (ap (accepted zod uuid) e) ∙ at_uuid))

  pub event_v1_value_refused :
      (e : EventV1)
      → zod.is_uuid e.correlation_id ≡ false
      → accepted zod create_message_event_v1_schema (event_v1_value e) ≡ none
  unfolding event_v1_value get_field
  event_v1_value_refused e f =
      refused create_message_event_v1_shape (event_v1_fields e) e.correlation_id event_v1-IsDistinct
        refl refl f

  pub event_v2_value_refused :
      (e : EventV2)
      → zod.is_uuid e.correlation_id ≡ false
      → accepted zod create_message_event_v2_schema (event_v2_value e) ≡ none
  unfolding event_v2_value get_field
  event_v2_value_refused e f =
      refused create_message_event_v2_shape (event_v2_fields e) e.correlation_id event_v2-IsDistinct
        refl refl f
