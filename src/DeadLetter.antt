-- ===== src/DeadLetter.antt =====
-- apps/messaging/src/reliability/dlq-consumer.service.ts: `handleDlqMessage`.
pub mod Headers
mod Examples
use contract_driven_messagin.Common.{ℕ, suc, String, List, [], ◌∷◌, Option, none, some, default_to}
use contract_driven_messagin.Contracts.Value.{
  Value, undefined, number, text, array, object, Items, nil, cons, Fields, end, get_field,
}

pub record DlqMessage : Type 0 where
  pub headers : Option Fields
  pub content : String
  pub routing_key : String

-- The structured log record.
pub record DlqRecord : Type 0 where
  pub correlation_id : Option String
  pub error_class : String
  pub retry_count : ℕ
  pub first_error : String
  pub failed_at : String
  pub original_queue : String
  pub death_reason : String
  pub routing_key : String
  pub payload : Value

-- `landed` is the counter of dead letters by error class and queue; `acked` counts the acks.
pub record DlqState : Type 0 where
  pub logged : List DlqRecord
  pub landed : List (String × String)
  pub acked : ℕ

abbrev pub number_of : Value → ℕ
number_of (number n) = n
number_of _ = 0

abbrev pub text_or : String → Value → String
text_or d (text s) = s
text_or d _ = d

abbrev pub text_of : Value → Option String
text_of (text s) = some s
text_of _ = none

-- `xDeath?.[0]?.[key]`.
unfoldable pub first_death : String → Value → Value
unfolding get_field
first_death key (array (cons (object fs) rest)) = get_field key fs
first_death key _ = undefined

unfoldable pub dlq_record : (String → Option Value) → DlqMessage → DlqRecord
unfolding get_field first_death
dlq_record parse_json m =
    let headers = default_to end m.headers in
    let deaths = get_field "x-death" headers in
    record {
      correlation_id = text_of (get_field "x-correlation-id" headers);
      error_class = text_or "UNKNOWN" (get_field "x-error-class" headers);
      retry_count = number_of (get_field "x-retry-count" headers);
      first_error = text_or "unknown" (get_field "x-first-error" headers);
      failed_at = text_or "unknown" (get_field "x-failed-at" headers);
      original_queue = text_or "unknown" (first_death "queue" deaths);
      death_reason = text_or "unknown" (first_death "reason" deaths);
      routing_key = m.routing_key;
      payload = default_to (text m.content) (parse_json m.content);
    }

-- `null` means that the broker cancelled the consumer. `parse_json` is `JSON.parse`, without a
-- value where that throws.
unfoldable pub handle_dlq_message :
    (String → Option Value) → Option DlqMessage → DlqState → DlqState
unfolding dlq_record
handle_dlq_message parse_json none s = s
handle_dlq_message parse_json (some m) s =
    let entry = dlq_record parse_json m in
    record {
      logged = entry ∷ s.logged;
      landed = (entry.error_class, entry.original_queue) ∷ s.landed;
      acked = suc s.acked;
    }
