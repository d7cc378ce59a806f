-- ===== src/Contracts/Upcast.antt =====
-- libs/contracts/src/events/validate-event.ts and upcast/upcast-create-message-event.ts over the
-- schemas: the cast is safe, and the upcast is total and loses nothing.
use contract_driven_messagin.Common.{
  ◌≡◌, refl, ap, sym, ◌∙◌, ◌↔◌, subst, arith, some_inj, List, map, some, Option, none-ne-some, none,
  gives, Thrown,
}
use contract_driven_messagin.Contracts.Value.{Value}
use contract_driven_messagin.Contracts.SchemaVersion.{v2, resolve_schema_version}
use contract_driven_messagin.Contracts.Events.{
  EventV1, EventV2, Issue, Parsed, success, failure, Schemas, ValidateEventResult, valid, invalid,
  failure_detail, validate_event, upcast_create_message_event_v1_to_v2,
}
use contract_driven_messagin.Contracts.Zod.{Zod, IsDocumented, parsed_data}
use contract_driven_messagin.Contracts.Schemas.{
  create_message_event_v1_schema, create_message_event_v2_schema,
}
use contract_driven_messagin.Contracts.Objects.{event_v2_value}
use contract_driven_messagin.Contracts.Typed.{
  read_event_v1, read_event_v2, read_payload_v2, cast_data, parse_or_throw, schemas_of, as_success,
}
use contract_driven_messagin.Contracts.Typed.Accepted.{with_defaults, payload_v1_value_accepts}
use contract_driven_messagin.Contracts.Typed.Events.{
  IsValidV1, IsValidV2, event_v1_gives, event_v2_gives, event_v2_value_accepts,
}

-- The answer of `validateEvent` to what `safeParse` gave: a typed event for data, and the details of
-- the issues for a failure.
abbrev pub IsAnswer : {A : Type 0} → (A → Type 0) → Parsed Value → ValidateEventResult A → Type 0
IsAnswer {A} P (success w) r = (e : A) × (r ≡ valid e) × P e
IsAnswer P (failure issues) r = r ≡ invalid (map failure_detail issues)

parsed_data-eq-some : {A : Type 0} (r : Parsed A) {a : A} → parsed_data r ≡ some a → r ≡ success a
parsed_data-eq-some (success b) h = cc
parsed_data-eq-some (failure issues) h = absurd (none-ne-some h)

failure-ne-success : {A : Type 0} {issues : List Issue} {a : A} → failure issues ≡ success a → ⊥
failure-ne-success h = cc

as_success-eq-success : {A : Type 0} (o : Option A) {a : A} → as_success o ≡ success a → o ≡ some a
as_success-eq-success none h = absurd (failure-ne-success h)
as_success-eq-success (some b) h = cc

cast-IsAnswer :
    {A : Type 0} (P : A → Type 0) (read : Value → Option A) (r : Parsed Value)
    → ((w : Value) → r ≡ success w → (e : A) × (read w ≡ some e) × P e)
    → IsAnswer P r (validate_event (cast_data read r))
unfolding cast_data validate_event
cast-IsAnswer P read (failure issues) h = refl
cast-IsAnswer P read (success w) h =
    let (e, q, p) = h w refl in (e, ap (λ o. validate_event (as_success o)) q, p)

cast_data-eq-success :
    {A : Type 0} (read : Value → Option A) (r : Parsed Value) {a : A}
    → cast_data read r ≡ success a
    → (w : Value) × (r ≡ success w) × (read w ≡ some a)
unfolding cast_data
cast_data-eq-success read (failure issues) h = absurd (failure-ne-success h)
cast_data-eq-success read (success w) h = (w, refl, as_success-eq-success (read w) h)

pub cast_data-success :
    {A : Type 0} (read : Value → Option A) (r : Parsed Value) {w : Value} {a : A}
    → parsed_data r ≡ some w
    → read w ≡ some a
    → cast_data read r ≡ success a
unfolding cast_data
cast_data-success read (failure issues) h q = absurd (none-ne-some h)
cast_data-success read (success v) h q = ap as_success (ap read (some_inj h) ∙ q)

-- What the upcast keeps, and the defaults that it adds.
abbrev pub upcast_of : EventV1 → EventV2
upcast_of e = record {
  event_id = e.event_id;
  correlation_id = e.correlation_id;
  timestamp = e.timestamp;
  source = e.source;
  trace = e.trace;
  payload = with_defaults e.payload;
}

module _ (zod : Zod) (documented : IsDocumented zod) (zod_error : Thrown) where
  abbrev pub schemas : Schemas
  schemas = schemas_of zod zod_error

  -- `validateEvent` answers data that a schema gives with an event of its type that meets the
  -- demands of the schema, whatever the raw value is, and a failure with the details of its issues.
  -- The library keeps to its documentation.
  pub validate_event-IsAnswer :
      (raw : Value)
      → IsAnswer
          (IsValidV1 zod)
          (zod.safe_parse create_message_event_v1_schema raw)
          (validate_event (schemas.safe_parse_v1 raw))
        × IsAnswer
            (IsValidV2 zod)
            (zod.safe_parse create_message_event_v2_schema raw)
            (validate_event (schemas.safe_parse_v2 raw))
  unfolding schemas_of
  validate_event-IsAnswer raw = (
    cast-IsAnswer (IsValidV1 zod) read_event_v1 _
        (λ w h. event_v1_gives zod documented raw w (ap parsed_data h)),
    cast-IsAnswer (IsValidV2 zod) read_event_v2 _
        (λ w h. event_v2_gives zod documented raw w (ap parsed_data h)),
  )

  -- An event of version 2, as an object, is parsed to itself exactly when it meets the demands of the
  -- schema: the two ids are UUIDs, the timestamp is an ISO date, the trace has an entry, and the
  -- payload keeps its limits. The library keeps to its documentation.
  pub safe_parse_v2-event_v2_value :
      (e : EventV2) → (schemas.safe_parse_v2 (event_v2_value e) ≡ success e) ↔ IsValidV2 zod e
  unfolding schemas_of
  safe_parse_v2-event_v2_value e = (
    (λ h.
        let (w, r, q) = cast_data-eq-success read_event_v2 _ h in
        let (e', q', ok) = event_v2_gives zod documented (event_v2_value e) w (ap parsed_data r) in
        let same : e' ≡ e = some_inj (sym q' ∙ q) in subst (IsValidV2 zod) same ok),
    (λ ok.
        let (w, a, q) = event_v2_value_accepts zod documented e ok in
        cast_data-success read_event_v2 _ a q),
  )

  -- The upcast of any event that version 1's schema accepted gives an event with the same ids,
  -- timestamp, source, trace, subject, content and recipient, normal priority and no metadata. It
  -- never throws, version 2's schema parses what it gives, as an object, to itself, and that object
  -- is dispatched to version 2, whatever the header and the type say. The library keeps to its
  -- documentation.
  pub upcast_create_message_event_v1_to_v2_total :
      (raw : Value) (e : EventV1)
      → schemas.safe_parse_v1 raw ≡ success e
      → (upcast_create_message_event_v1_to_v2 schemas e ≡ gives (upcast_of e))
        × (schemas.safe_parse_v2 (event_v2_value (upcast_of e)) ≡ success (upcast_of e))
        × ((header type : Value)
            → resolve_schema_version
                (record { envelope = event_v2_value (upcast_of e); header = header; type = type })
              ≡ v2)
  unfolding schemas_of upcast_create_message_event_v1_to_v2 parse_or_throw resolve_schema_version
      event_v2_value
  upcast_create_message_event_v1_to_v2_total raw e h =
      let (w, r, q) = cast_data-eq-success read_event_v1 _ h in
      let (e', q', ok) = event_v1_gives zod documented raw w (ap parsed_data r) in
      let valid_e : IsValidV1 zod e = subst (IsValidV1 zod) (some_inj (sym q' ∙ q)) ok in
      let (i, c, t, n, (s, b, l)) = valid_e in
      let (pw, pa, pr) = payload_v1_value_accepts zod documented e.payload (s, b, l) in
      (
        rw (cast_data-success read_payload_v2 _ pa pr, upcast_create_message_event_v1_to_v2) refl,
        (safe_parse_v2-event_v2_value (upcast_of e)).1 (i, c, t, n, (s, b, l, (omega arith, tt))),
        λ header type. refl,
      )
