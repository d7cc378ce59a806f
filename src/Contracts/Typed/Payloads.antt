-- ===== src/Contracts/Typed/Payloads.antt =====
-- What the schemas of the payloads accept, and what they give.
use contract_driven_messagin.Common.{
  ◌≡◌, refl, ap, sym, ◌∙◌, String, Option, none, some, none-ne-some, some_inj,
}
use contract_driven_messagin.Contracts.Value.{
  Value, undefined, null, boolean, number, text, buffer, array, object, Fields,
}
use contract_driven_messagin.Contracts.Events.{PayloadV1, PayloadV2}
use contract_driven_messagin.Contracts.Zod.{
  Schema, Zod, IsDocumented, accepted, on_object, object_of,
}
use contract_driven_messagin.Contracts.Zod.Keys.{IsDistinct, parse_keys-Gives}
use contract_driven_messagin.Contracts.Schemas.{
  create_message_event_v1_payload_schema, create_message_event_v2_payload_schema,
  create_message_event_v1_payload_shape, create_message_event_v2_payload_shape,
}
use contract_driven_messagin.Contracts.Typed.{read_payload_v1, read_payload_v2}
use contract_driven_messagin.Contracts.Typed.Reads.{
  read_payload_v1-eq-some, read_payload_v2-eq-some,
}
use contract_driven_messagin.Contracts.Typed.Leaves.{IsWithin, IsWithinIfAny, bounded_gives}
use contract_driven_messagin.Contracts.Typed.Collections.{recipient_gives, priority_gives}
use contract_driven_messagin.Contracts.Typed.Metadata.{IsWithinLimits, metadata_gives}

abbrev pub IsValidPayloadV1 : PayloadV1 → Type 0
IsValidPayloadV1 p =
    IsWithin 1 (some 255) p.subject
    × IsWithin 1 none p.content
    × IsWithinIfAny 0 (some 255) p.recipient

abbrev pub IsValidPayloadV2 : PayloadV2 → Type 0
IsValidPayloadV2 p =
    IsWithin 1 (some 255) p.subject
    × IsWithin 1 none p.content
    × IsWithinIfAny 0 (some 255) p.recipient
    × IsWithinLimits p.metadata

-- What an object schema gives is an object, made from an object.
pub on_object-eq-some :
    (f : Fields → Option Fields) (v w : Value)
    → on_object f v ≡ some w
    → (fs : Fields) × (gs : Fields) × (v ≡ object fs) × (f fs ≡ some gs) × (w ≡ object gs)
on_object-eq-some f v w h = by_value v h
  where
    by_fields :
        (fs : Fields) (o : Option Fields)
        → f fs ≡ o
        → object_of o ≡ some w
        → (gs : Fields) × (f fs ≡ some gs) × (w ≡ object gs)
    by_fields fs none e q = absurd (none-ne-some q)
    by_fields fs (some gs) e q = (gs, e, sym (some_inj q))

    by_value :
        (x : Value)
        → on_object f x ≡ some w
        → (fs : Fields) × (gs : Fields) × (x ≡ object fs) × (f fs ≡ some gs) × (w ≡ object gs)
    by_value undefined q = absurd (none-ne-some q)
    by_value null q = absurd (none-ne-some q)
    by_value (boolean b) q = absurd (none-ne-some q)
    by_value (number n) q = absurd (none-ne-some q)
    by_value (text s) q = absurd (none-ne-some q)
    by_value (buffer s) q = absurd (none-ne-some q)
    by_value (array vs) q = absurd (none-ne-some q)
    by_value (object fs) q = let (gs, e, x) = by_fields fs _ refl q in (fs, gs, refl, e, x)

pub payload_v1-IsDistinct : IsDistinct create_message_event_v1_payload_shape
payload_v1-IsDistinct = (refl, (refl, (refl, tt)))

pub payload_v2-IsDistinct : IsDistinct create_message_event_v2_payload_shape
payload_v2-IsDistinct = (refl, (refl, (refl, (refl, (refl, tt)))))

module _ (zod : Zod) (documented : IsDocumented zod) where
  -- The output of an object schema for one key, where the schema of the key gives `w`.
  pub output_key :
      (s : Schema) (v : Value) {w u : Value}
      → accepted zod s v ≡ some u
      → accepted zod s v ≡ some w
      → u ≡ w
  output_key s v p q = some_inj (sym p ∙ q)

  pub payload_v1_gives :
      (v w : Value)
      → accepted zod create_message_event_v1_payload_schema v ≡ some w
      → (p : PayloadV1) × (read_payload_v1 w ≡ some p) × IsValidPayloadV1 p
  payload_v1_gives v w h =
      let shape = create_message_event_v1_payload_shape in
      let (fs, gs, _, e, x) = on_object-eq-some _ v w (sym (documented.object_law shape v) ∙ h) in
      let give =
        λ (j : String). parse_keys-Gives (accepted zod) j shape fs gs payload_v1-IsDistinct e in
      let (s, _, se, sb) = bounded_gives zod documented 1 (some 255) _ _ (give "subject") in
      let (c, _, ce, cb) = bounded_gives zod documented 1 none _ _ (give "content") in
      let (r, re, rb) = recipient_gives zod documented 0 (some 255) _ _ (give "recipient") in
      let p : PayloadV1 = record { subject = s; content = c; recipient = r } in
      (p, ap read_payload_v1 x ∙ read_payload_v1-eq-some gs p (se, ce, re), (sb, cb, rb))

  pub payload_v2_gives :
      (v w : Value)
      → accepted zod create_message_event_v2_payload_schema v ≡ some w
      → (p : PayloadV2) × (read_payload_v2 w ≡ some p) × IsValidPayloadV2 p
  payload_v2_gives v w h =
      let shape = create_message_event_v2_payload_shape in
      let (fs, gs, _, e, x) = on_object-eq-some _ v w (sym (documented.object_law shape v) ∙ h) in
      let give =
        λ (j : String). parse_keys-Gives (accepted zod) j shape fs gs payload_v2-IsDistinct e in
      let (s, _, se, sb) = bounded_gives zod documented 1 (some 255) _ _ (give "subject") in
      let (c, _, ce, cb) = bounded_gives zod documented 1 none _ _ (give "content") in
      let (r, re, rb) = recipient_gives zod documented 0 (some 255) _ _ (give "recipient") in
      let (n, ne) = priority_gives zod documented _ _ (give "priority") in
      let (m, me, mb) = metadata_gives zod documented _ _ (give "metadata") in
      let p : PayloadV2 = record {
        subject = s;
        content = c;
        recipient = r;
        priority = n;
        metadata = m;
      } in
      (
        p,
        ap read_payload_v2 x ∙ read_payload_v2-eq-some gs p (se, ce, re, ne, me),
        (sb, cb, rb, mb),
      )
