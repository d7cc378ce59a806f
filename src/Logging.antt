-- ===== src/Logging.antt =====
-- apps/messaging/src/interceptors/logging.interceptor.ts, which surrounds every handler of the
-- messaging service. The calls of the logger are taken not to throw, and durations are left out.
pub mod Interception
use contract_driven_messagin.Common.{
  ℕ, String, Bool, true, false, List, [], ◌∷◌, Option, none, some, default_to, Thrown, Run,
  returned, threw, Prog, ◌>>=◌, ◌>>◌, pure, throw, try_catch, Reply, gives, fails, final_state,
  decimal,
}
use contract_driven_messagin.Contracts.Value.{
  Value, undefined, null, boolean, number, text, buffer, array, object, Fields, end, get_field,
}
use contract_driven_messagin.Contracts.Events.{concat_text}
use contract_driven_messagin.Relay.Rows.{error_message}

pub record LogContext : Type 0 where
  pub correlation_id : String
  pub event_id : String
  pub message_id : String
  pub pattern : String

abbrev pub unknown : LogContext
unknown = record {
  correlation_id = "unknown";
  event_id = "unknown";
  message_id = "unknown";
  pattern = "unknown";
}

-- `fields?.deliveryTag` and `properties?.headers`.
pub record RmqMessage : Type 0 where
  pub delivery_tag : Option ℕ
  pub headers : Option Fields

-- `payload` is what `getData` gives. `none`: the context has no such method. A method may throw; `getMessage` may give no message.
pub record RpcCall : Type 0 where
  pub payload : Value
  pub get_pattern : Option (Reply String)
  pub get_message : Option (Reply (Option RmqMessage))

-- The header `x-correlation-id`, and the names of the class and of the method.
pub record HttpCall : Type 0 where
  pub correlation_header : Option String
  pub class_name : Option String
  pub handler_name : Option String

pub data CallContext : Type 0 where
  rpc : RpcCall → CallContext
  http : HttpCall → CallContext
  other_type : CallContext

abbrev pub assign : (LogContext → LogContext) → Prog LogContext (Unit {0})
assign f c = returned tt (f c)

-- `if (typeof v === 'string') target = v`.
abbrev pub assign_text : (String → LogContext → LogContext) → Value → Prog LogContext (Unit {0})
assign_text set (text s) = assign (set s)
assign_text set v = pure tt

abbrev pub set_correlation : String → LogContext → LogContext
set_correlation s c = record c { correlation_id = s }

abbrev pub set_event : String → LogContext → LogContext
set_event s c = record c { event_id = s }

abbrev pub read_pattern : Option (Reply String) → Prog LogContext (Unit {0})
read_pattern none = pure tt
read_pattern (some (fails e)) = throw e
read_pattern (some (gives p)) = assign (λ c. record c { pattern = p })

abbrev pub tag_text : Option ℕ → String
tag_text none = "unknown"
tag_text (some n) = decimal n

-- `CORRELATION_ID_HEADER` is `x-correlation-id` as well, so that the header is read twice.
abbrev pub read_message : RmqMessage → Prog LogContext (Unit {0})
read_message m =
    let headers = default_to end m.headers in
    assign (λ c. record c { message_id = tag_text m.delivery_tag })
    >> (assign_text set_correlation (get_field "x-correlation-id" headers)
        >> assign_text set_correlation (get_field "x-correlation-id" headers))

abbrev pub read_get_message : Option (Reply (Option RmqMessage)) → Prog LogContext (Unit {0})
read_get_message none = pure tt
read_get_message (some (fails e)) = throw e
read_get_message (some (gives none)) = pure tt
read_get_message (some (gives (some m))) = read_message m

abbrev pub read_data : Value → Prog LogContext (Unit {0})
read_data (object fs) =
    assign_text set_correlation (get_field "correlationId" fs)
    >> assign_text set_event (get_field "eventId" fs)
read_data v = pure tt

unfoldable pub read_call : CallContext → Prog LogContext (Unit {0})
unfolding get_field decimal
read_call (rpc call) =
    read_pattern call.get_pattern >> (read_get_message call.get_message >> read_data call.payload)
read_call (http call) = assign (λ c. record c {
  correlation_id = default_to "unknown" call.correlation_header;
  pattern =
      concat_text (default_to "undefined" call.class_name)
        (concat_text "." (default_to "undefined" call.handler_name));
})
read_call other_type = pure tt

-- What was assigned before a throw is kept.
unfoldable pub extract_rmq_context : CallContext → LogContext
unfolding read_call
extract_rmq_context call = final_state (try_catch (read_call call) (λ _. pure tt) unknown)

pub record BaseFields : Type 0 where
  pub context : LogContext
  pub operation : String

pub data LogRecord : Type 0 where
  invoked completed : BaseFields → LogRecord
  threw_error : BaseFields → String → LogRecord

-- The state of the handler, and the log, the last record first.
pub record Logged (S : Type 0) : Type 0 where
  pub inner : S
  pub logs : List LogRecord

abbrev pub log : {S : Type 0} → LogRecord → Prog (Logged S) (Unit {0})
log r s = returned tt (record { inner = s.inner; logs = r ∷ s.logs })

abbrev pub handle : {S A : Type 0} → Prog S A → Prog (Logged S) A
handle m s = elim (m s.inner) [
  | returned a i ↦ returned a (record { inner = i; logs = s.logs })
  | threw e i ↦ threw e (record { inner = i; logs = s.logs })
]

abbrev pub base_fields : CallContext → Option String → Option String → BaseFields
base_fields call class_name method = record {
  context = extract_rmq_context call;
  operation =
      concat_text (default_to "UnknownClass" class_name)
        (concat_text "." (default_to "unknownMethod" method));
}

-- The first argument says whether a logger was injected.
unfoldable pub intercept :
    {S A : Type 0}
    → Bool
    → CallContext
    → Option String
    → Option String
    → Prog S A
    → Prog (Logged S) A
unfolding extract_rmq_context
intercept false call class_name method next = handle next
intercept true call class_name method next =
    let fields = base_fields call class_name method in
    log (invoked fields)
    >> try_catch (do result ← handle next; log (completed fields); pure result)
        (λ err. log (threw_error fields (error_message err)) >> throw err)
