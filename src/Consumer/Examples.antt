-- ===== src/Consumer/Examples.antt =====
-- Runs of the consumer, and its theorems at them.
use contract_driven_messagin.Common.{
  ◌≤◌, ◌≡◌, refl, ◌⊎◌, true, [], ◌∷◌, Thrown, gives, fails, arith, Ends, length,
}
use contract_driven_messagin.Contracts.Events.{valid}
use contract_driven_messagin.ErrorClassifier.{has}
use contract_driven_messagin.Database.{is_processed}
use contract_driven_messagin.AttemptTracker.{get_attempt_count, attempts_or}
use contract_driven_messagin.Consumer.Handler.{handle_message}
use contract_driven_messagin.Consumer.Answer.{outcome_of}
use contract_driven_messagin.Consumer.Safety.{
  IsOneAnswer, IsSafe, handle_message_answers_once, handle_message_ack-IsSafe,
  handle_message_exhausted,
}
use contract_driven_messagin.Consumer.Deliveries.{handle_all}
use contract_driven_messagin.Consumer.ExactlyOnce.{
  HasUniqueEvents, IsBalanced, handle_all_exactly_once, handle_all_redelivered,
}
use contract_driven_messagin.Consumer.Budget.{handle_all_retries}
use contract_driven_messagin.Consumer.{ack, nack_dead_letter}
use contract_driven_messagin.Consumer.Samples.{
  healthy, down, delivery, empty, honest, three_deliveries, three_honest, six_outages, six_honest,
  six_of, after_five, sample_v2, sample_valid, sample_of, stored_once,
}

handle_message_answers_once_example :
    Ends
      (λ _ s'. IsOneAnswer empty s')
      (λ _ s'.
        (s'.settled ≡ [])
        × (s'.retries ≡ [])
        × (s'.database ≡ empty.database)
        × (((e : Thrown) × (outcome_of down delivery ≡ valid (fails e)))
            ⊎ ((e : Thrown) × (gives tt ≡ fails e))))
      (handle_message down delivery empty)
handle_message_answers_once_example = handle_message_answers_once down delivery empty refl honest

handle_message_ack-IsSafe_example :
    Ends
      (λ _ s'. s'.settled ≡ ack ∷ [] → IsSafe down delivery empty s')
      (λ _ _. Unit)
      (handle_message down delivery empty)
handle_message_ack-IsSafe_example = handle_message_ack-IsSafe down delivery empty refl honest

handle_message_exhausted_example :
    Ends
      (λ _ s'.
        (s'.retries ≡ [])
        × (((s'.settled ≡ ack ∷ []) × (is_processed "e1" s'.database.tables.processed ≡ true))
            ⊎ (s'.settled ≡ nack_dead_letter ∷ [])))
      (λ _ s'. (s'.retries ≡ []) × (s'.settled ≡ []))
      (handle_message down delivery after_five)
unfolding get_attempt_count attempts_or
handle_message_exhausted_example =
    handle_message_exhausted down delivery after_five sample_v2 refl honest (sample_valid down refl)
      (omega arith)

handle_all_exactly_once_example :
    HasUniqueEvents (handle_all three_deliveries empty).database.tables.processed
    × IsBalanced empty.database.tables (handle_all three_deliveries empty).database.tables
handle_all_exactly_once_example =
    handle_all_exactly_once three_deliveries empty refl three_honest tt

handle_all_redelivered_example :
    ((handle_all three_deliveries stored_once).database.tables.messages ≡ [])
    × ((handle_all three_deliveries stored_once).database.tables.processed
        ≡ stored_once.database.tables.processed)
    × ((handle_all three_deliveries stored_once).database.tables.outbox ≡ [])
handle_all_redelivered_example =
    handle_all_redelivered "e1" three_deliveries stored_once refl three_honest
      (sample_of down refl, (sample_of healthy refl, (sample_of healthy refl, tt))) refl

handle_all_retries_example : length (handle_all six_outages empty).retries ≤ 4
unfolding handle_all handle_message has
handle_all_retries_example = handle_all_retries "e1" six_outages empty refl six_honest six_of refl

-- With the outage, four copies are made, and then the messages are dead-lettered.
six_outages_run :
    (length (handle_all six_outages empty).retries ≡ 4)
    × ((handle_all six_outages empty).settled
        ≡ nack_dead_letter ∷ nack_dead_letter ∷ ack ∷ ack ∷ ack ∷ ack ∷ [])
unfolding handle_all handle_message has
six_outages_run = (refl, refl)

-- The event is stored once by three deliveries.
three_deliveries_run :
    (length (handle_all three_deliveries empty).database.tables.messages ≡ 1)
    × ((handle_all three_deliveries empty).settled ≡ ack ∷ ack ∷ ack ∷ [])
unfolding handle_all handle_message has
three_deliveries_run = (refl, refl)
