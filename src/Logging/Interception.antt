-- ===== src/Logging/Interception.antt =====
-- What the interceptor adds to a handler, and where the identifiers in its records come from.
use contract_driven_messagin.Common.{
  ◌≡◌, refl, ap, ◌∙◌, ◌>>◌, String, true, ◌∷◌, Option, some, Run, returned, threw, Prog, gives,
  fails, Ends, Thrown, final_state, try_catch, pure, default_to,
}
use contract_driven_messagin.Contracts.Value.{
  Value, undefined, null, boolean, number, text, buffer, array, object, Fields, end, get_field,
}
use contract_driven_messagin.Relay.Rows.{error_message}
use contract_driven_messagin.Logging.{
  RmqMessage, CallContext, rpc, LogContext, Logged, invoked, completed, assign_text, read_message,
  read_data, tag_text, set_correlation, set_event, unknown, threw_error, base_fields, read_call,
  extract_rmq_context, intercept,
}

module _ {S A : Type 0} (call : CallContext) (class_name method : Option String) (next : Prog S A)
    (s : Logged S) where
  abbrev HasCompleted : A → Logged S → Type 0
  HasCompleted a s' =
      let fields = base_fields call class_name method in
      (next s.inner ≡ returned a s'.inner) × (s'.logs ≡ completed fields ∷ invoked fields ∷ s.logs)

  abbrev HasThrown : Thrown → Logged S → Type 0
  HasThrown e s' =
      let fields = base_fields call class_name method in
      (next s.inner ≡ threw e s'.inner)
      × (s'.logs ≡ threw_error fields (error_message e) ∷ invoked fields ∷ s.logs)

  by_run :
      (r : Run S A)
      → next s.inner ≡ r
      → Ends HasCompleted HasThrown (intercept true call class_name method next s)
  unfolding intercept
  by_run (returned a i) e = rw (Ends, e) (e, refl)
  by_run (threw x i) e = rw (Ends, e) (e, refl)

  -- `intercept` ends as the handler does, with the handler's result or error and its state, and adds
  -- two records: the call, and then its completion or its error.
  intercept-HasCompleted :
      Ends HasCompleted HasThrown (intercept true call class_name method next s)
  intercept-HasCompleted = by_run (next s.inner) refl

abbrev pub text_or : String → Value → String
text_or d (text s) = s
text_or d v = d

assign_correlation :
    (v : Value) (c : LogContext)
    → assign_text set_correlation v c
      ≡ returned tt (record c { correlation_id = text_or c.correlation_id v })
assign_correlation undefined c = refl
assign_correlation null c = refl
assign_correlation (boolean b) c = refl
assign_correlation (number n) c = refl
assign_correlation (text s) c = refl
assign_correlation (buffer b) c = refl
assign_correlation (array vs) c = refl
assign_correlation (object fs) c = refl

assign_event :
    (v : Value) (c : LogContext)
    → assign_text set_event v c ≡ returned tt (record c { event_id = text_or c.event_id v })
assign_event undefined c = refl
assign_event null c = refl
assign_event (boolean b) c = refl
assign_event (number n) c = refl
assign_event (text s) c = refl
assign_event (buffer b) c = refl
assign_event (array vs) c = refl
assign_event (object fs) c = refl

text_or_twice : (d : String) (v : Value) → text_or (text_or d v) v ≡ text_or d v
text_or_twice d undefined = refl
text_or_twice d null = refl
text_or_twice d (boolean b) = refl
text_or_twice d (number n) = refl
text_or_twice d (text s) = refl
text_or_twice d (buffer b) = refl
text_or_twice d (array vs) = refl
text_or_twice d (object fs) = refl

next_step :
    {S A : Type 0} (m : Prog S (Unit {0})) (k : Prog S A) (s s' : S)
    → m s ≡ returned tt s'
    → (m >> k) s ≡ k s'
next_step {S} {A} m k s s' e =
    ap (λ (r : Run S (Unit {0})). elim r [ returned _ s'' ↦ k s'' | threw x s'' ↦ threw x s'' ]) e

read_message_run :
    (m : RmqMessage) (c : LogContext)
    → let header = get_field "x-correlation-id" (default_to end m.headers) in
      (c' : LogContext) × (read_message m c ≡ returned tt c')
      × (c'.correlation_id ≡ text_or c.correlation_id header)
      × (c'.event_id ≡ c.event_id)
      × (c'.pattern ≡ c.pattern)
read_message_run m c =
    let header = get_field "x-correlation-id" (default_to end m.headers) in
    let c1 : LogContext = record c { message_id = tag_text m.delivery_tag } in
    let c2 : LogContext = record c1 { correlation_id = text_or c.correlation_id header } in
    (
      record c2 { correlation_id = text_or c2.correlation_id header },
      next_step (assign_text set_correlation header) (assign_text set_correlation header) c1 c2
            (assign_correlation header c1)
          ∙ assign_correlation header c2,
      text_or_twice c.correlation_id header,
      refl,
      refl,
    )

read_data_run :
    (fs : Fields) (c : LogContext)
    → read_data (object fs) c
      ≡ returned tt (record c {
        correlation_id = text_or c.correlation_id (get_field "correlationId" fs);
        event_id = text_or c.event_id (get_field "eventId" fs);
      })
read_data_run fs c =
    let c1 : LogContext = record c {
      correlation_id = text_or c.correlation_id (get_field "correlationId" fs);
    } in
    next_step (assign_text set_correlation (get_field "correlationId" fs)) _ c c1
      (assign_correlation (get_field "correlationId" fs) c)
    ∙ assign_event (get_field "eventId" fs) c1

-- The context after a run in which a throw is caught.
abbrev caught : Run LogContext (Unit {0}) → LogContext
caught r = final_state (try_catch (λ _. r) (λ _. pure tt) unknown)

-- Of a delivery whose context answers, the correlation id in the records is the payload's, else the
-- header's, else `unknown`, where only a text counts; the event id is the payload's or `unknown`.
-- With a context that throws when it is asked for the message, only the pattern is known.
extract_rmq_context-prefers :
    (p : String) (m : RmqMessage) (fs : Fields) (v : Value) (e : Thrown)
    → let answering = rpc (record {
      payload = object fs;
      get_pattern = some (gives p);
      get_message = some (gives (some m));
    }) in
      let failing =
        rpc (record { payload = v; get_pattern = some (gives p); get_message = some (fails e) }) in
      let header = get_field "x-correlation-id" (default_to end m.headers) in
      ((extract_rmq_context answering).correlation_id
        ≡ text_or (text_or "unknown" header) (get_field "correlationId" fs))
      × ((extract_rmq_context answering).event_id ≡ text_or "unknown" (get_field "eventId" fs))
      × ((extract_rmq_context answering).pattern ≡ p)
      × (extract_rmq_context failing ≡ record unknown { pattern = p })
unfolding extract_rmq_context read_call
extract_rmq_context-prefers p m fs v e =
    let c : LogContext = record unknown { pattern = p } in
    let (c1, r, cid, eid, pat) = read_message_run m c in
    let whole =
      ap caught (next_step (read_message m) (read_data (object fs)) c c1 r ∙ read_data_run fs c1) in
    (
      ap (λ (x : LogContext). x.correlation_id) whole
          ∙ ap (λ d. text_or d (get_field "correlationId" fs)) cid,
      ap (λ (x : LogContext). x.event_id) whole ∙ ap (λ d. text_or d (get_field "eventId" fs)) eid,
      ap (λ (x : LogContext). x.pattern) whole ∙ pat,
      refl,
    )
