-- ===== src/Consumer/Deliveries.antt =====
-- A sequence of deliveries, each with what the services answer during it. What the handler throws
-- ends the delivery, not the sequence.
use contract_driven_messagin.Common.{
  ◌≡◌, String, List, [], ◌∷◌, All, Run, returned, threw, gives, Ends, final_state,
}
use contract_driven_messagin.Contracts.Events.{EventV2, valid}
use contract_driven_messagin.OutboxTransaction.Open.{IsClosed, IsHonest}
use contract_driven_messagin.Consumer.Env.{ConsumerEnv, Handled}
use contract_driven_messagin.Consumer.Handler.{handle_message}
use contract_driven_messagin.Consumer.Answer.{
  outcome_of, DeliveryEnd, acked_invalid, event_handled, Abandoned, abandoned, handle_message-Ends,
}
use contract_driven_messagin.Consumer.{Delivery, ConsumerState}

abbrev pub Deliveries : Type 0
Deliveries = List (ConsumerEnv × Delivery)

unfoldable pub handle_all : Deliveries → ConsumerState → ConsumerState
unfolding handle_message
handle_all [] s = s
handle_all ((env, d) ∷ ds) s = handle_all ds (final_state (handle_message env d s))

-- Only the unique index makes a ledger INSERT fail with a unique violation.
abbrev pub AreHonest : Deliveries → Type 0
AreHonest = All (λ x. IsHonest x.0.transaction.ledger_save)

-- Every valid event delivered is this one.
abbrev pub AreOf : String → Deliveries → Type 0
AreOf id =
    All (λ x. (event : EventV2) → outcome_of x.0 x.1 ≡ valid (gives event) → event.event_id ≡ id)

-- What one delivery does to the database.
pub data DeliveryRun (env : ConsumerEnv) (d : Delivery) (s s' : ConsumerState) : Type 0 where
  returns : DeliveryEnd env d s s' → DeliveryRun env d s s'
  throws : Abandoned env d s s' → DeliveryRun env d s s'

pub handling :
    (env : ConsumerEnv) (d : Delivery) (s : ConsumerState)
    → IsClosed s.database
    → IsHonest env.transaction.ledger_save
    → DeliveryRun env d s (final_state (handle_message env d s))
handling env d s closed honest =
    by_run (handle_message env d s) (handle_message-Ends env d s closed honest)
  where
    by_run :
        (r : Run ConsumerState Handled)
        → Ends (λ _ s'. DeliveryEnd env d s s') (λ _ s'. Abandoned env d s s') r
        → DeliveryRun env d s (final_state r)
    by_run (returned h s') e = returns e
    by_run (threw t s') e = throws e

pub handling-IsClosed :
    (env : ConsumerEnv) (d : Delivery) (s s' : ConsumerState)
    → IsClosed s.database
    → DeliveryRun env d s s'
    → IsClosed s'.database
handling-IsClosed env d s s' c (returns (acked_invalid errors v a r b)) = rw b c
handling-IsClosed env d s s' c (returns (event_handled event v end l closed n)) = closed
handling-IsClosed env d s s' c (throws (abandoned a r b cause)) = rw b c
