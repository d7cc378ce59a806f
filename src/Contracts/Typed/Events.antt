-- ===== src/Contracts/Typed/Events.antt =====
-- What the event schemas accept, and what they give: the cast in `validateEvent`.
use contract_driven_messagin.Common.{◌≤◌, ◌≡◌, refl, ap, sym, ◌∙◌, String, length, true, some}
use contract_driven_messagin.Contracts.Value.{Value, text, object, Fields, get_field}
use contract_driven_messagin.Contracts.Events.{EventV1, EventV2}
use contract_driven_messagin.Contracts.Zod.{Zod, IsDocumented, accepted}
use contract_driven_messagin.Contracts.Zod.Keys.{IsDistinct, parse_keys-Gives, parse_keys-total}
use contract_driven_messagin.Contracts.Schemas.{
  create_message_event_v1_schema, create_message_event_v2_schema, create_message_event_v1_shape,
  create_message_event_v2_shape, create_message_event_v2_payload_schema,
}
use contract_driven_messagin.Contracts.Objects.{event_v2_value, event_v2_fields_with}
use contract_driven_messagin.Contracts.Typed.{read_event_v1, read_event_v2, read_payload_v2}
use contract_driven_messagin.Contracts.Typed.Reads.{read_event_v1-eq-some, read_event_v2-eq-some}
use contract_driven_messagin.Contracts.Typed.Leaves.{
  uuid_gives, iso_datetime_gives, service_gives, service_accepts,
}
use contract_driven_messagin.Contracts.Typed.Collections.{trace_gives, trace_accepts, version_gives}
use contract_driven_messagin.Contracts.Typed.Payloads.{
  IsValidPayloadV1, IsValidPayloadV2, on_object-eq-some, output_key, payload_v1_gives,
  payload_v2_gives,
}
use contract_driven_messagin.Contracts.Typed.Accepted.{payload_v2_value_accepts}

-- What the schema of version 1 demands of an event.
abbrev pub IsValidV1 : Zod → EventV1 → Type 0
IsValidV1 zod e =
    (zod.is_uuid e.event_id ≡ true)
    × (zod.is_uuid e.correlation_id ≡ true)
    × (zod.is_iso_datetime e.timestamp ≡ true)
    × (1 ≤ length e.trace)
    × IsValidPayloadV1 e.payload

-- What the schema of version 2 demands of an event.
abbrev pub IsValidV2 : Zod → EventV2 → Type 0
IsValidV2 zod e =
    (zod.is_uuid e.event_id ≡ true)
    × (zod.is_uuid e.correlation_id ≡ true)
    × (zod.is_iso_datetime e.timestamp ≡ true)
    × (1 ≤ length e.trace)
    × IsValidPayloadV2 e.payload

pub event_v1-IsDistinct : IsDistinct create_message_event_v1_shape
event_v1-IsDistinct = (refl, (refl, (refl, (refl, (refl, (refl, (refl, (refl, tt))))))))

pub event_v2-IsDistinct : IsDistinct create_message_event_v2_shape
event_v2-IsDistinct = (refl, (refl, (refl, (refl, (refl, (refl, (refl, (refl, tt))))))))

module _ (zod : Zod) (documented : IsDocumented zod) where
  pub event_v1_gives :
      (v w : Value)
      → accepted zod create_message_event_v1_schema v ≡ some w
      → (e : EventV1) × (read_event_v1 w ≡ some e) × IsValidV1 zod e
  event_v1_gives v w h =
      let shape = create_message_event_v1_shape in
      let (fs, gs, _, q, x) = on_object-eq-some _ v w (sym (documented.object_law shape v) ∙ h) in
      let give =
        λ (j : String). parse_keys-Gives (accepted zod) j shape fs gs event_v1-IsDistinct q in
      let (i, ie, ib) = uuid_gives zod documented _ _ (give "eventId") in
      let (c, ce, cb) = uuid_gives zod documented _ _ (give "correlationId") in
      let (t, te, tb) = iso_datetime_gives zod documented _ _ (give "timestamp") in
      let (s, se) = service_gives zod documented _ _ (give "source") in
      let (ss, sse, ssb) = trace_gives zod documented _ _ (give "trace") in
      let (n, ne) = version_gives zod documented _ _ (give "schemaVersion") in
      let (p, pe, pb) = payload_v1_gives zod documented _ _ (give "payload") in
      let e : EventV1 = record {
        event_id = i;
        correlation_id = c;
        timestamp = t;
        source = s;
        trace = ss;
        schema_version = n;
        payload = p;
      } in
      (
        e,
        ap read_event_v1 x ∙ read_event_v1-eq-some gs _ e (ie, ce, te, se, sse, ne, refl, pe),
        (ib, cb, tb, ssb, pb),
      )

  pub event_v2_gives :
      (v w : Value)
      → accepted zod create_message_event_v2_schema v ≡ some w
      → (e : EventV2) × (read_event_v2 w ≡ some e) × IsValidV2 zod e
  event_v2_gives v w h =
      let shape = create_message_event_v2_shape in
      let (fs, gs, _, q, x) = on_object-eq-some _ v w (sym (documented.object_law shape v) ∙ h) in
      let give =
        λ (j : String). parse_keys-Gives (accepted zod) j shape fs gs event_v2-IsDistinct q in
      let (i, ie, ib) = uuid_gives zod documented _ _ (give "eventId") in
      let (c, ce, cb) = uuid_gives zod documented _ _ (give "correlationId") in
      let (t, te, tb) = iso_datetime_gives zod documented _ _ (give "timestamp") in
      let (s, se) = service_gives zod documented _ _ (give "source") in
      let (ss, sse, ssb) = trace_gives zod documented _ _ (give "trace") in
      let (p, pe, pb) = payload_v2_gives zod documented _ _ (give "payload") in
      let e : EventV2 = record {
        event_id = i;
        correlation_id = c;
        timestamp = t;
        source = s;
        trace = ss;
        payload = p;
      } in
      (
        e,
        ap read_event_v2 x ∙ read_event_v2-eq-some gs _ e (ie, ce, te, se, sse, refl, pe),
        (ib, cb, tb, ssb, pb),
      )

  -- An object whose fields are those of a valid event, some of them possibly absent in the payload,
  -- is an event of version 2.
  pub event_v2_accepts :
      (e : EventV2) (payload : Value)
      → IsValidV2 zod e
      → (w : Value) × (accepted zod create_message_event_v2_payload_schema payload ≡ some w)
        × (read_payload_v2 w ≡ some e.payload)
      → (w : Value) × (accepted zod create_message_event_v2_schema
            (object (event_v2_fields_with e payload))
          ≡ some w)
        × (read_event_v2 w ≡ some e)
  unfolding get_field
  event_v2_accepts e payload (ib, cb, tb, ssb, pb) (pw, pa, pr) =
      let shape = create_message_event_v2_shape in
      let fs : Fields = event_v2_fields_with e payload in
      let ia = documented.uuid_law (text e.event_id) ∙ rw ib refl in
      let ca = documented.uuid_law (text e.correlation_id) ∙ rw cb refl in
      let ta = documented.iso_datetime_law (text e.timestamp) ∙ rw tb refl in
      let sa = service_accepts zod documented e.source in
      let ssa = trace_accepts zod documented e.trace ssb in
      let (gs, q) = parse_keys-total (accepted zod) shape fs (
        (_, ia),
        (
          (_, ca),
          (
            (_, ta),
            (
              (_, sa),
              (
                (_, ssa),
                (
                  (_, documented.literal_law "2" (text "2")),
                  (
                    (
                      _,
                      documented.literal_law "CreateMessageEvent.v2" (text "CreateMessageEvent.v2"),
                    ),
                    ((pw, pa), tt),
                  ),
                ),
              ),
            ),
          ),
        ),
      ) in
      let give =
        λ (j : String). parse_keys-Gives (accepted zod) j shape fs gs event_v2-IsDistinct q in
      (
        object gs,
        documented.object_law shape (object fs) ∙ rw q refl,
        read_event_v2-eq-some gs pw e (
          output_key zod documented _ _ (give "eventId") ia,
          output_key zod documented _ _ (give "correlationId") ca,
          output_key zod documented _ _ (give "timestamp") ta,
          output_key zod documented _ _ (give "source") sa,
          output_key zod documented _ _ (give "trace") ssa,
          output_key zod documented _ _ (give "payload") pa,
          pr,
        ),
      )

  pub event_v2_value_accepts :
      (e : EventV2)
      → IsValidV2 zod e
      → (w : Value) × (accepted zod create_message_event_v2_schema (event_v2_value e) ≡ some w)
        × (read_event_v2 w ≡ some e)
  unfolding event_v2_value
  event_v2_value_accepts e h =
      event_v2_accepts e _ h (payload_v2_value_accepts zod documented e.payload h.4)
