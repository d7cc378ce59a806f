-- ===== src/Consumer/Safety.antt =====
-- What an answered delivery guarantees.
use contract_driven_messagin.Common.{
  ℕ, suc, ◌+◌, ◌≤◌, ◌<◌, ◌≡◌, refl, sym, ap, subst, ◌∙◌, ◌⊎◌, inl, inr, true, false, List, [], ◌∷◌,
  Thrown, Reply, gives, fails, arith, Ends, Ends-mono, ltb, ltb→lt,
}
use contract_driven_messagin.Contracts.Events.{
  EventV2, ValidateEventResult, valid, invalid, ValidationFailureDetail,
}
use contract_driven_messagin.ErrorClassifier.{
  ErrorClass, transient, validation, permanent, classify_error,
}
use contract_driven_messagin.ErrorClassifier.Outages.{
  is_outage, is_transient, classify_error-outage,
}
use contract_driven_messagin.Topology.{max_attempts_default}
use contract_driven_messagin.Database.{is_processed}
use contract_driven_messagin.OutboxTransaction.Open.{IsClosed, IsHonest}
use contract_driven_messagin.AttemptTracker.Counts.{count}
use contract_driven_messagin.Consumer.Retry.{retry_message}
use contract_driven_messagin.Consumer.Env.{ConsumerEnv, Handled}
use contract_driven_messagin.Consumer.Recovery.{retry_headers, is_retryable}
use contract_driven_messagin.Consumer.Handler.{handle_message}
use contract_driven_messagin.Consumer.Ending.{
  EventEnd, acked_processed, acked_retried, requeued, dead_lettered,
}
use contract_driven_messagin.Consumer.Answer.{
  outcome_of, DeliveryEnd, acked_invalid, event_handled, abandoned, handle_message-Ends,
}
use contract_driven_messagin.Consumer.{
  Delivery, Settlement, ack, nack_requeue, nack_dead_letter, ConsumerState, RetryMessage,
  read_retry_count,
}

abbrev head_or : Settlement → List Settlement → Settlement
head_or d [] = d
head_or d (x ∷ xs) = x

cons_injective : {x y : Settlement} {xs : List Settlement} → x ∷ xs ≡ y ∷ xs → x ≡ y
cons_injective {x} {y} e = ap (head_or x) e

abbrev pub IsOneAnswer : ConsumerState → ConsumerState → Type 0
IsOneAnswer s s' = (x : Settlement) × (s'.settled ≡ x ∷ s.settled)

one_answer :
    (env : ConsumerEnv) (d : Delivery) (s s' : ConsumerState)
    → DeliveryEnd env d s s'
    → IsOneAnswer s s'
one_answer env d s s' (acked_invalid errors _ a _ _) = (ack, a)
one_answer env d s s' (event_handled event _ (acked_processed a _ _) _ _ _) = (ack, a)
one_answer env d s s' (event_handled event _ (acked_retried _ _ a _ _ _) _ _ _) = (ack, a)
one_answer env d s s' (event_handled event _ (requeued _ _ a _) _ _ _) = (nack_requeue, a)
one_answer env d s s' (event_handled event _ (dead_lettered _ _ a _) _ _ _) = (nack_dead_letter, a)

-- `handleMessage` answers a delivery exactly once when it returns. When it throws, it has answered
-- nothing, has published no copy and changed no table, and the cause is that the upcast threw or
-- the attempt could not be recorded. The connection starts without an open transaction, and only
-- the unique index makes the ledger's INSERT fail with a unique violation.
pub handle_message_answers_once :
    (env : ConsumerEnv) (d : Delivery) (s : ConsumerState)
    → IsClosed s.database
    → IsHonest env.transaction.ledger_save
    → Ends
        (λ _ s'. IsOneAnswer s s')
        (λ _ s'.
          (s'.settled ≡ s.settled)
          × (s'.retries ≡ s.retries)
          × (s'.database ≡ s.database)
          × (((e : Thrown) × (outcome_of env d ≡ valid (fails e)))
              ⊎ ((e : Thrown) × (env.attempt_query ≡ fails e))))
        (handle_message env d s)
handle_message_answers_once env d s closed honest =
    Ends-mono _ _ _ _ (handle_message env d s) (handle_message-Ends env d s closed honest)
      (λ _ s' h. one_answer env d s s' h)
      (λ _ s' h. elim h [ abandoned a b c cause ↦ (a, b, c, cause) ])

-- The delivery's payload is no valid event; or its event is in the ledger; or a copy of its content
-- was handed to the channel and confirmed by the broker.
pub data IsSafe (env : ConsumerEnv) (d : Delivery) (s s' : ConsumerState) : Type 0 where
  not_an_event :
      (errors : List ValidationFailureDetail)
      → outcome_of env d ≡ invalid errors
      → IsSafe env d s s'
  in_ledger :
      (event : EventV2)
      → outcome_of env d ≡ valid (gives event)
      → is_processed event.event_id s'.database.tables.processed ≡ true
      → IsSafe env d s s'
  copied :
      (copy : RetryMessage)
      → s'.retries ≡ copy ∷ s.retries
      → copy.content ≡ d.content
      → env.retry_env.confirmed ≡ gives tt
      → IsSafe env d s s'

safe :
    (env : ConsumerEnv) (d : Delivery) (s s' : ConsumerState)
    → DeliveryEnd env d s s'
    → s'.settled ≡ ack ∷ s.settled
    → IsSafe env d s s'
unfolding retry_message
safe env d s s' (acked_invalid errors v a _ _) e = not_an_event errors v
safe env d s s' (event_handled event v (acked_processed a _ found) _ _ _) e =
    in_ledger event v found
safe env d s s' (event_handled event v (acked_retried err _ a copy _ confirmed) _ _ _) e =
    copied
      (retry_message env.retry_env d.content (retry_headers env d event err)
        (read_retry_count d + 1))
      copy refl confirmed
safe env d s s' (event_handled event v (requeued _ _ a _) _ _ _) e =
    absurd (cc (cons_injective (sym e ∙ a)))
safe env d s s' (event_handled event v (dead_lettered _ _ a _) _ _ _) e =
    absurd (cc (cons_injective (sym e ∙ a)))

-- `handleMessage` acks a delivery only when nothing is lost by it: its payload fails the validation
-- of the version it claims, or its event is in the ledger, or a copy of its content was handed to
-- the retry publisher's channel and confirmed by the broker. The connection starts without an open
-- transaction, and only the unique index makes the ledger's INSERT fail with a unique violation.
pub handle_message_ack-IsSafe :
    (env : ConsumerEnv) (d : Delivery) (s : ConsumerState)
    → IsClosed s.database
    → IsHonest env.transaction.ledger_save
    → Ends
        (λ _ s'. s'.settled ≡ ack ∷ s.settled → IsSafe env d s s')
        (λ _ _. Unit)
        (handle_message env d s)
handle_message_ack-IsSafe env d s closed honest =
    Ends-mono _ _ _ _ (handle_message env d s) (handle_message-Ends env d s closed honest)
      (λ _ s' h. safe env d s s' h) (λ _ _ _. tt)

pub retryable_budget :
    (err : Thrown) (n : ℕ) → is_retryable err n ≡ true → (is_outage err ≡ true) × (n < 5)
unfolding is_retryable
retryable_budget err n h = by_class (classify_error err) refl h
  where
    by_class :
        (c : ErrorClass)
        → classify_error err ≡ c
        → elim c [ transient ↦ ltb n max_attempts_default | _ ↦ false ] ≡ true
        → (is_outage err ≡ true) × (n < 5)
    by_class transient e h = (sym (classify_error-outage err) ∙ ap is_transient e, ltb→lt n 5 h)
    by_class validation e h = cc
    by_class permanent e h = cc

exhausted :
    (env : ConsumerEnv) (d : Delivery) (s s' : ConsumerState) (event : EventV2)
    → 4 ≤ count event.event_id s.database
    → EventEnd env d event (suc (count event.event_id s.database)) s.settled s.retries s'
    → (s'.retries ≡ s.retries)
      × (((s'.settled ≡ ack ∷ s.settled)
            × (is_processed event.event_id s'.database.tables.processed ≡ true))
          ⊎ (s'.settled ≡ nack_dead_letter ∷ s.settled))
exhausted env d s s' event le (acked_processed a r found) = (r, inl (a, found))
exhausted env d s s' event le (acked_retried err h a r p c) =
    absurd (omega (arith, (retryable_budget err _ h).1))
exhausted env d s s' event le (requeued err h a few) =
    absurd (omega (arith, (retryable_budget err _ h).1))
exhausted env d s s' event le (dead_lettered err h a r) = (r, inr a)

abbrev event_or : EventV2 → ValidateEventResult (Reply EventV2) → EventV2
event_or e (valid (gives event)) = event
event_or e other = e

-- Once five deliveries of an event have been attempted, this one included, `handleMessage` neither
-- publishes a copy nor requeues: it acks an event that the ledger has, or dead-letters the message.
-- A throw answers nothing. The connection starts without an open transaction, and only the unique
-- index makes the ledger's INSERT fail with a unique violation.
pub handle_message_exhausted :
    (env : ConsumerEnv) (d : Delivery) (s : ConsumerState) (event : EventV2)
    → IsClosed s.database
    → IsHonest env.transaction.ledger_save
    → outcome_of env d ≡ valid (gives event)
    → 4 ≤ count event.event_id s.database
    → Ends
        (λ _ s'.
          (s'.retries ≡ s.retries)
          × (((s'.settled ≡ ack ∷ s.settled)
                × (is_processed event.event_id s'.database.tables.processed ≡ true))
              ⊎ (s'.settled ≡ nack_dead_letter ∷ s.settled)))
        (λ _ s'. (s'.retries ≡ s.retries) × (s'.settled ≡ s.settled))
        (handle_message env d s)
handle_message_exhausted env d s event closed honest is_valid le =
    Ends-mono _ _ _ _ (handle_message env d s) (handle_message-Ends env d s closed honest) returns
      (λ _ s' h. elim h [ abandoned a b c cause ↦ (b, a) ])
  where
    returns :
        (h : Handled) (s' : ConsumerState)
        → DeliveryEnd env d s s'
        → (s'.retries ≡ s.retries)
          × (((s'.settled ≡ ack ∷ s.settled)
                × (is_processed event.event_id s'.database.tables.processed ≡ true))
              ⊎ (s'.settled ≡ nack_dead_letter ∷ s.settled))
    returns h s' (acked_invalid errors v a r b) = cc (sym is_valid ∙ v)
    returns h s' (event_handled other v end l c n) =
        let same = ap (event_or event) (sym v ∙ is_valid) in
        exhausted env d s s' event le (
          subst (λ x. EventEnd env d x (suc (count x.event_id s.database)) s.settled s.retries s')
            same end)
