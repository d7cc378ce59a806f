-- ===== src/Consumer/Recovery.antt =====
-- The catch block of `handleMessage`: retry, requeue or dead-letter queue.
use contract_driven_messagin.Common.{
  ℕ, ◌+◌, String, Bool, true, false, Thrown, Prog, ◌>>=◌, ◌>>◌, pure, try_catch, ltb, decimal,
}
use contract_driven_messagin.Contracts.Value.{
  Value, undefined, null, number, text, Fields, get_field, set_field,
}
use contract_driven_messagin.Contracts.Events.{EventV2}
use contract_driven_messagin.ErrorClassifier.{
  ErrorClass, validation, transient, permanent, classify_error,
}
use contract_driven_messagin.Topology.{max_attempts_default}
use contract_driven_messagin.Relay.Rows.{error_message}
use contract_driven_messagin.Consumer.Retry.{publish_to_retry}
use contract_driven_messagin.Consumer.{
  Delivery, ack, nack_requeue, nack_dead_letter, retry, dlq, failure, messages_failed, retry_count,
  timer_ended, ConsumerState, settle, count_metric, headers_of, read_retry_count,
}
use contract_driven_messagin.Consumer.Env.{ConsumerEnv, Handled, nothing}

-- `a ?? b` on a header.
abbrev pub header_or : Value → Value → Value
header_or undefined b = b
header_or null b = b
header_or a b = a

abbrev pub class_name : ErrorClass → String
class_name validation = "VALIDATION"
class_name transient = "TRANSIENT"
class_name permanent = "PERMANENT"

-- `{ ...headers, … }`.
unfoldable pub retry_headers : ConsumerEnv → Delivery → EventV2 → Thrown → Fields
unfolding get_field set_field classify_error read_retry_count
retry_headers env d event err =
    let hs = headers_of d in
    set_field "x-correlation-id" (text event.correlation_id) (
      set_field "x-failed-at" (header_or (get_field "x-failed-at" hs) (text env.now_iso)) (
        set_field "x-error-class" (text (class_name (classify_error err))) (
          set_field "x-first-error"
            (header_or (get_field "x-first-error" hs) (text (error_message err)))
            (set_field "x-retry-count" (number (read_retry_count d + 1)) hs))))

unfoldable pub is_retryable : Thrown → ℕ → Bool
unfolding classify_error
is_retryable err durable_attempt_count = elim (classify_error err) [
  | transient ↦ ltb durable_attempt_count max_attempts_default
  | _ ↦ false
]

unfoldable pub finish_retry : Delivery → Bool → Prog ConsumerState Handled
unfolding settle count_metric read_retry_count decimal
finish_retry d false = pure nothing
finish_retry d true = do
  settle ack
  count_metric (retry_count (decimal (read_retry_count d + 1)))
  count_metric (timer_ended retry)
  pure nothing

unfoldable pub schedule_retry :
    ConsumerEnv → Delivery → EventV2 → Thrown → Prog ConsumerState Handled
unfolding publish_to_retry retry_headers settle count_metric finish_retry read_retry_count
schedule_retry env d event err =
    try_catch
      (publish_to_retry env.retry_env d.content (retry_headers env d event err)
          (read_retry_count d + 1)
        >> pure true)
      (λ publish_error. settle nack_requeue >> (count_metric (timer_ended failure) >> pure false))
    >>= finish_retry d

unfoldable pub route_to_dlq : Prog ConsumerState Handled
unfolding settle count_metric
route_to_dlq = do count_metric (timer_ended dlq); settle nack_dead_letter; pure nothing

-- The catch block.
unfoldable pub recover :
    ConsumerEnv → Delivery → String → EventV2 → ℕ → Thrown → Prog ConsumerState Handled
unfolding classify_error count_metric is_retryable schedule_retry route_to_dlq
recover env d event_type event durable_attempt_count err =
    count_metric (messages_failed event_type (classify_error err))
    >> (elim (is_retryable err durable_attempt_count) [
      | true ↦ schedule_retry env d event err
      | false ↦ route_to_dlq
    ])
