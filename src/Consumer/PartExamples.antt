-- ===== src/Consumer/PartExamples.antt =====
-- The theorems of the parts that the consumer calls, at the samples.
use contract_driven_messagin.Common.{refl, [], some, gives, Ends}
use contract_driven_messagin.OutboxTransaction.{run_idempotent_with_outbox_events}
use contract_driven_messagin.OutboxTransaction.Atomic.{
  IsFinished, IsAllOrNothing, run_idempotent-IsAllOrNothing,
}
use contract_driven_messagin.MessagingService.{save_message, handle_message_creation_idempotent}
use contract_driven_messagin.MessagingService.Creation.{
  IsCreation, IsCreationFailure, save_message-StaysOpen, handle_message_creation_idempotent_atomic,
}
use contract_driven_messagin.Consumer.Handler.{handle_test_rabbit}
use contract_driven_messagin.Consumer.Legacy.{IsAcked, IsDeadLettered, handle_test_rabbit-IsAcked}
use contract_driven_messagin.Consumer.Samples.{
  healthy, transaction, sample_input, sample_body, empty, honest,
}

run_idempotent-IsAllOrNothing_example :
    Ends
      (IsFinished transaction sample_input
        (save_message (gives tt) sample_body 1000)
        []
        empty.database)
      (λ _ s'.
        IsAllOrNothing transaction sample_input
          (save_message (gives tt) sample_body 1000)
          []
          empty.database
          s')
      (run_idempotent_with_outbox_events transaction sample_input
        (save_message (gives tt) sample_body 1000)
        []
        empty.database)
run_idempotent-IsAllOrNothing_example =
    run_idempotent-IsAllOrNothing transaction sample_input
      (save_message (gives tt) sample_body 1000) [] empty.database
      (save_message-StaysOpen (gives tt) sample_body 1000) refl honest

handle_message_creation_idempotent_atomic_example :
    Ends
      (IsCreation transaction sample_body sample_input empty.database)
      (λ _ s'. IsCreationFailure transaction sample_body sample_input empty.database s')
      (handle_message_creation_idempotent transaction
        (gives tt)
        sample_body
        sample_input
        empty.database)
handle_message_creation_idempotent_atomic_example =
    handle_message_creation_idempotent_atomic transaction sample_body sample_input empty.database
      (gives tt) refl honest

handle_test_rabbit-IsAcked_example :
    Ends
      (IsAcked healthy sample_body (some "c1") empty)
      (λ _ s'. IsDeadLettered healthy sample_body (some "c1") empty s')
      (handle_test_rabbit healthy sample_body (some "c1") empty)
handle_test_rabbit-IsAcked_example =
    handle_test_rabbit-IsAcked healthy sample_body (some "c1") empty refl
