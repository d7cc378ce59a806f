-- ===== src/Consumer/Legacy.antt =====
-- How `handleTestRabbit`, the handler of the legacy pattern, settles its delivery.
use contract_driven_messagin.Common.{
  ◌≡◌, refl, String, ◌∷◌, Option, some, default_to, Run, returned, threw, Ends,
}
use contract_driven_messagin.Database.{Database, Message}
use contract_driven_messagin.OutboxTransaction.Open.{IsClosed}
use contract_driven_messagin.MessagingService.{MessageData, handle_message_creation}
use contract_driven_messagin.MessagingService.Plain.{
  IsAddition, IsAdditionOrNot, handle_message_creation-IsAddition,
}
use contract_driven_messagin.Consumer.{ack, nack_dead_letter, ConsumerState, count_metric, settle}
use contract_driven_messagin.Consumer.Env.{ConsumerEnv}
use contract_driven_messagin.Consumer.Handler.{handle_test_rabbit}

module _ (env : ConsumerEnv) (body : MessageData) (correlation_id : Option String)
    (s : ConsumerState) where
  abbrev pub correlation : Option String
  correlation = some (default_to "unknown" correlation_id)

  abbrev pub IsAcked : Message → ConsumerState → Type 0
  IsAcked m s' =
      (s'.settled ≡ ack ∷ s.settled)
      × IsAddition env.transaction body correlation s.database m s'.database
      × (s'.retries ≡ s.retries)

  abbrev pub IsDeadLettered : ConsumerState → Type 0
  IsDeadLettered s' =
      (s'.settled ≡ nack_dead_letter ∷ s.settled)
      × IsAdditionOrNot env.transaction body correlation s.database s'.database
      × (s'.retries ≡ s.retries)

  by_creation :
      (r : Run Database Message)
      → handle_message_creation env.transaction env.save body correlation s.database ≡ r
      → Ends
          (IsAddition env.transaction body correlation s.database)
          (λ _ d. IsAdditionOrNot env.transaction body correlation s.database d)
          r
      → Ends IsAcked (λ _ s'. IsDeadLettered s') (handle_test_rabbit env body correlation_id s)
  unfolding handle_test_rabbit count_metric settle
  by_creation (returned m d) e h = rw (Ends, e) (refl, h, refl)
  by_creation (threw err d) e h = rw (Ends, e) (refl, h, refl)

  -- `handleTestRabbit` settles its delivery exactly once and publishes no retry copy: it
  -- acknowledges when it returns the message, which then is in the table with one pending outbox
  -- row, and routes the delivery to the dead-letter queue when it throws, with both rows in the
  -- tables or neither. The connection starts without an open transaction.
  pub handle_test_rabbit-IsAcked :
      IsClosed s.database
      → Ends IsAcked (λ _ s'. IsDeadLettered s') (handle_test_rabbit env body correlation_id s)
  handle_test_rabbit-IsAcked closed =
      by_creation (handle_message_creation env.transaction env.save body correlation s.database)
        refl
        (handle_message_creation-IsAddition env.transaction body correlation s.database env.save
          closed)
