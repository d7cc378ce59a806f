-- ===== src/Contracts/Typed/Accepted.antt =====
-- Which payloads the schemas accept.
use contract_driven_messagin.Common.{◌≡◌, refl, ap, ◌∙◌, String, [], arith, none, some}
use contract_driven_messagin.Contracts.Value.{
  Value, undefined, text, object, Fields, end, get_field,
}
use contract_driven_messagin.Contracts.Events.{normal, PayloadV1, PayloadV2}
use contract_driven_messagin.Contracts.Zod.{
  bounded, optional, default_of, Zod, IsDocumented, accepted,
}
use contract_driven_messagin.Contracts.Zod.Keys.{parse_keys-Gives, parse_keys-total}
use contract_driven_messagin.Contracts.Schemas.{
  create_message_event_v1_payload_schema, create_message_event_v2_payload_schema,
  create_message_event_v1_payload_shape, create_message_event_v2_payload_shape,
  message_priority_schema, message_metadata_schema,
}
use contract_driven_messagin.Contracts.Objects.{
  priority_name, optional_text, metadata_fields, payload_v1_value, payload_v1_fields,
  payload_v2_value,
}
use contract_driven_messagin.Contracts.Typed.{read_payload_v1, read_payload_v2}
use contract_driven_messagin.Contracts.Typed.Reads.{
  read_payload_v1-eq-some, read_payload_v2-eq-some,
}
use contract_driven_messagin.Contracts.Typed.Leaves.{bounded_accepts}
use contract_driven_messagin.Contracts.Typed.Collections.{recipient_accepts, priority_accepts}
use contract_driven_messagin.Contracts.Typed.Metadata.{metadata_accepts}
use contract_driven_messagin.Contracts.Typed.Payloads.{
  IsValidPayloadV1, IsValidPayloadV2, output_key, payload_v1-IsDistinct, payload_v2-IsDistinct,
}

-- A payload of version 1 as version 2 represents it.
abbrev pub with_defaults : PayloadV1 → PayloadV2
with_defaults p = record {
  subject = p.subject;
  content = p.content;
  recipient = p.recipient;
  priority = normal;
  metadata = [];
}

module _ (zod : Zod) (documented : IsDocumented zod) where
  -- An object whose fields are accepted one by one is a payload of version 2.
  pub payload_v2_accepts :
      (fs : Fields) (p : PayloadV2)
      → IsValidPayloadV2 p
      → get_field "subject" fs ≡ text p.subject
      → get_field "content" fs ≡ text p.content
      → get_field "recipient" fs ≡ optional_text p.recipient
      → accepted zod (default_of message_priority_schema (text "normal")) (get_field "priority" fs)
        ≡ some (text (priority_name p.priority))
      → accepted zod (default_of message_metadata_schema (object end)) (get_field "metadata" fs)
        ≡ some (object (metadata_fields p.metadata))
      → (w : Value) × (accepted zod create_message_event_v2_payload_schema (object fs) ≡ some w)
        × (read_payload_v2 w ≡ some p)
  payload_v2_accepts fs p (sb, cb, rb, mb) se ce re pe me =
      let shape = create_message_event_v2_payload_shape in
      let sa =
        ap (accepted zod (bounded 1 (some 255))) se
        ∙ bounded_accepts zod documented 1 (some 255) p.subject sb in
      let ca =
        ap (accepted zod (bounded 1 none)) ce
        ∙ bounded_accepts zod documented 1 none p.content cb in
      let ra =
        ap (accepted zod (optional (bounded 0 (some 255)))) re
        ∙ recipient_accepts zod documented 0 (some 255) p.recipient rb in
      let (gs, e) =
        parse_keys-total (accepted zod) shape fs
          ((_, sa), ((_, ca), ((_, ra), ((_, pe), ((_, me), tt))))) in
      let give =
        λ (j : String). parse_keys-Gives (accepted zod) j shape fs gs payload_v2-IsDistinct e in
      (
        object gs,
        documented.object_law shape (object fs) ∙ rw e refl,
        read_payload_v2-eq-some gs p (
          output_key zod documented _ _ (give "subject") sa,
          output_key zod documented _ _ (give "content") ca,
          output_key zod documented _ _ (give "recipient") ra,
          output_key zod documented _ _ (give "priority") pe,
          output_key zod documented _ _ (give "metadata") me,
        ),
      )

  pub payload_v2_value_accepts :
      (p : PayloadV2)
      → IsValidPayloadV2 p
      → (w : Value) × (accepted zod create_message_event_v2_payload_schema (payload_v2_value p)
          ≡ some w)
        × (read_payload_v2 w ≡ some p)
  unfolding payload_v2_value get_field
  payload_v2_value_accepts p h =
      payload_v2_accepts _ p h refl refl refl (priority_accepts zod documented p.priority)
        (metadata_accepts zod documented p.metadata h.3)

  -- A valid payload of version 1 is, with the defaults, a valid payload of version 2.
  pub payload_v1_value_accepts :
      (p : PayloadV1)
      → IsValidPayloadV1 p
      → (w : Value) × (accepted zod create_message_event_v2_payload_schema (payload_v1_value p)
          ≡ some w)
        × (read_payload_v2 w ≡ some (with_defaults p))
  unfolding payload_v1_value get_field
  payload_v1_value_accepts p (s, c, r) =
      payload_v2_accepts _ (with_defaults p) (s, c, r, (omega arith, tt)) refl refl refl
        (documented.default_law message_priority_schema (text "normal") undefined)
        (documented.default_law message_metadata_schema (object end) undefined)

  -- An object whose fields are those of a valid payload is one of version 1.
  pub payload_v1_accepts_v1 :
      (fs : Fields) (p : PayloadV1)
      → IsValidPayloadV1 p
      → get_field "subject" fs ≡ text p.subject
      → get_field "content" fs ≡ text p.content
      → get_field "recipient" fs ≡ optional_text p.recipient
      → (w : Value) × (accepted zod create_message_event_v1_payload_schema (object fs) ≡ some w)
        × (read_payload_v1 w ≡ some p)
  payload_v1_accepts_v1 fs p (sb, cb, rb) se ce re =
      let shape = create_message_event_v1_payload_shape in
      let sa =
        ap (accepted zod (bounded 1 (some 255))) se
        ∙ bounded_accepts zod documented 1 (some 255) p.subject sb in
      let ca =
        ap (accepted zod (bounded 1 none)) ce
        ∙ bounded_accepts zod documented 1 none p.content cb in
      let ra =
        ap (accepted zod (optional (bounded 0 (some 255)))) re
        ∙ recipient_accepts zod documented 0 (some 255) p.recipient rb in
      let (gs, e) = parse_keys-total (accepted zod) shape fs ((_, sa), ((_, ca), ((_, ra), tt))) in
      let give =
        λ (j : String). parse_keys-Gives (accepted zod) j shape fs gs payload_v1-IsDistinct e in
      (
        object gs,
        documented.object_law shape (object fs) ∙ rw e refl,
        read_payload_v1-eq-some gs p (
          output_key zod documented _ _ (give "subject") sa,
          output_key zod documented _ _ (give "content") ca,
          output_key zod documented _ _ (give "recipient") ra,
        ),
      )

  pub payload_v1_value_accepts_v1 :
      (p : PayloadV1)
      → IsValidPayloadV1 p
      → (w : Value) × (accepted zod create_message_event_v1_payload_schema (payload_v1_value p)
          ≡ some w)
        × (read_payload_v1 w ≡ some p)
  unfolding payload_v1_value get_field
  payload_v1_value_accepts_v1 p h = payload_v1_accepts_v1 (payload_v1_fields p) p h refl refl refl
