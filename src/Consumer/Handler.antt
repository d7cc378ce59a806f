-- ===== src/Consumer/Handler.antt =====
-- `handleMessage` and `handleTestRabbit` of apps/messaging/src/messaging.controller.ts.
use contract_driven_messagin.Common.{
  String, List, Option, none, some, default_to, Prog, ◌>>=◌, ◌>>◌, pure, throw, try_catch, Reply,
  gives, fails,
}
use contract_driven_messagin.Contracts.Value.{Value, undefined}
use contract_driven_messagin.Contracts.SchemaVersion.{SchemaVersion, v1, v2, resolve_schema_version}
use contract_driven_messagin.Contracts.Events.{
  EventV2, Schemas, ValidateEventResult, valid, invalid, ValidationFailureDetail, validate_event,
  event_type_name, upcast_create_message_event_v1_to_v2,
}
use contract_driven_messagin.ErrorClassifier.{validation, permanent}
use contract_driven_messagin.Database.{Message}
use contract_driven_messagin.OutboxTransaction.{
  IdempotencyInput, IdempotentRunResult, duplicate, processed_now,
}
use contract_driven_messagin.AttemptTracker.{record_attempt, clear_attempts}
use contract_driven_messagin.MessagingService.{
  MessageData, handle_message_creation, handle_message_creation_idempotent,
}
use contract_driven_messagin.Consumer.{
  Delivery, ack, nack_dead_letter, LifecycleStage, received, validated, persisted, rejected,
  LifecycleRecord, success, duplicate_event, failure, messages_processed, messages_failed,
  timer_ended, ConsumerState, on_database, settle, count_metric, publish_lifecycle,
  read_schema_version_header, extract_identifiers_for_rejection,
}
use contract_driven_messagin.Consumer.Env.{ConsumerEnv, Handled, nothing, null_answer, stored}
use contract_driven_messagin.Consumer.Recovery.{recover}

-- The contract that the delivery claims, with the validated event in its version 2 form. The
-- upcast may throw.
unfoldable pub validated_event :
    Schemas → SchemaVersion → Value → ValidateEventResult (Reply EventV2)
unfolding validate_event upcast_create_message_event_v1_to_v2
validated_event schemas v1 payload = elim (validate_event (schemas.safe_parse_v1 payload)) [
  | valid event ↦ valid (upcast_create_message_event_v1_to_v2 schemas event)
  | invalid errors ↦ invalid errors
]
validated_event schemas v2 payload = elim (validate_event (schemas.safe_parse_v2 payload)) [
  | valid event ↦ valid (gives event)
  | invalid errors ↦ invalid errors
]

abbrev pub lifecycle_record : LifecycleStage → String → EventV2 → LifecycleRecord
lifecycle_record stage event_type event = record {
  stage = stage;
  event_type = event_type;
  event_id = event.event_id;
  correlation_id = event.correlation_id;
  errors = none;
}

unfoldable pub reject :
    ConsumerEnv → Delivery → String → List ValidationFailureDetail → Prog ConsumerState Handled
unfolding count_metric publish_lifecycle settle extract_identifiers_for_rejection
reject env d event_type errors =
    let (event_id, correlation_id) = extract_identifiers_for_rejection d.payload in
    count_metric (messages_failed event_type validation)
    >> (publish_lifecycle (env.lifecycle_reaches rejected) (record {
      stage = rejected;
      event_type = event_type;
      event_id = event_id;
      correlation_id = correlation_id;
      errors = some errors;
    })
        >> (settle ack >> pure nothing))

abbrev pub input_of : String → EventV2 → IdempotencyInput
input_of event_type event = record {
  event_id = event.event_id;
  event_type = event_type;
  correlation_id = some event.correlation_id;
}

abbrev pub body_of : EventV2 → MessageData
body_of event = record {
  content = some event.payload.content;
  subject = some event.payload.subject;
}

-- The try block after the transaction.
unfoldable pub acknowledge :
    ConsumerEnv → String → EventV2 → IdempotentRunResult Message → Prog ConsumerState Handled
unfolding count_metric publish_lifecycle settle clear_attempts
acknowledge env event_type event duplicate = do
  count_metric (messages_processed event_type duplicate_event)
  count_metric (timer_ended duplicate_event)
  on_database (clear_attempts env.clear_query event.event_id)
  settle ack
  pure null_answer
acknowledge env event_type event (processed_now message) = do
  count_metric (messages_processed event_type success)
  count_metric (timer_ended success)
  publish_lifecycle (env.lifecycle_reaches persisted) (lifecycle_record persisted event_type event)
  on_database (clear_attempts env.clear_query event.event_id)
  settle ack
  pure (stored message)

unfoldable pub business : ConsumerEnv → String → EventV2 → Prog ConsumerState Handled
unfolding handle_message_creation_idempotent acknowledge
business env event_type event =
    on_database (
      handle_message_creation_idempotent env.transaction env.save (body_of event)
        (input_of event_type event))
    >>= acknowledge env event_type event

unfoldable pub process : ConsumerEnv → Delivery → String → EventV2 → Prog ConsumerState Handled
unfolding record_attempt publish_lifecycle business recover
process env d event_type event = do
  attempt ← on_database (record_attempt env.attempt_query event.event_id env.now)
  publish_lifecycle (env.lifecycle_reaches received) (lifecycle_record received event_type event)
  publish_lifecycle (env.lifecycle_reaches validated) (lifecycle_record validated event_type event)
  try_catch (business env event_type event) (recover env d event_type event attempt)

unfoldable pub dispatch :
    ConsumerEnv
    → Delivery
    → String
    → ValidateEventResult (Reply EventV2)
    → Prog ConsumerState Handled
unfolding reject process
dispatch env d event_type (invalid errors) = reject env d event_type errors
dispatch env d event_type (valid (fails e)) = throw e
dispatch env d event_type (valid (gives event)) = process env d event_type event

unfoldable pub version_of : Delivery → SchemaVersion
unfolding resolve_schema_version read_schema_version_header
version_of d =
    resolve_schema_version
      (record { envelope = d.payload; header = read_schema_version_header d; type = undefined })

unfoldable pub handle_message : ConsumerEnv → Delivery → Prog ConsumerState Handled
unfolding version_of event_type_name validated_event dispatch
handle_message env d =
    let version = version_of d in
    dispatch env d (event_type_name version) (validated_event env.schemas version d.payload)

-- The legacy pattern; the body and the correlation id are read from its payload.
unfoldable pub handle_test_rabbit :
    ConsumerEnv → MessageData → Option String → Prog ConsumerState Message
unfolding handle_message_creation count_metric settle
handle_test_rabbit env body correlation_id =
    try_catch
      (do
        result ← on_database (
            handle_message_creation env.transaction env.save body
              (some (default_to "unknown" correlation_id)))
        count_metric (messages_processed "test-rabbit" success)
        count_metric (timer_ended success)
        settle ack
        pure result)
      (λ err.
        count_metric (messages_failed "test-rabbit" permanent)
        >> (count_metric (timer_ended failure) >> (settle nack_dead_letter >> throw err)))
