-- ===== src/Consumer/Answer.antt =====
-- How `handleMessage` answers a delivery.
use contract_driven_messagin.Common.{
  suc, ◌≡◌, refl, sym, ap, subst, ◌∙◌, ◌⊎◌, inl, inr, String, true, List, ◌∷◌, Thrown, returned,
  try_catch, Reply, gives, fails, Ends, Ends-mono, try_catch-Ends,
}
use contract_driven_messagin.Contracts.Events.{
  EventV2, ValidateEventResult, valid, invalid, ValidationFailureDetail, event_type_name,
}
use contract_driven_messagin.Database.{Tables, is_processed}
use contract_driven_messagin.OutboxTransaction.Open.{IsClosed, IsHonest}
use contract_driven_messagin.AttemptTracker.{record_attempt, get_attempt_count, upsert}
use contract_driven_messagin.AttemptTracker.Counts.{
  count, upsert_counted, record_attempt_run, with_attempts,
}
use contract_driven_messagin.Consumer.Env.{ConsumerEnv, Handled}
use contract_driven_messagin.Consumer.Recovery.{is_retryable, recover}
use contract_driven_messagin.Consumer.Handler.{
  validated_event, business, process, reject, dispatch, version_of, handle_message,
}
use contract_driven_messagin.Consumer.Ending.{EventEnd, acked_processed, recover-Ends}
use contract_driven_messagin.Consumer.Ledger.{
  LedgerStep, LedgerStep-from_attempts, IsAcknowledged, IsUnanswered, business-Ends,
}
use contract_driven_messagin.Consumer.{
  Delivery, ack, ConsumerState, settle, count_metric, publish_lifecycle,
}

-- The claimed version's validation of the delivery's payload.
abbrev pub outcome_of : ConsumerEnv → Delivery → ValidateEventResult (Reply EventV2)
outcome_of env d = validated_event env.schemas (version_of d) d.payload

-- The handler returned.
pub data DeliveryEnd (env : ConsumerEnv) (d : Delivery) (s s' : ConsumerState) : Type 0 where
  acked_invalid :
      (errors : List ValidationFailureDetail)
      → outcome_of env d ≡ invalid errors
      → s'.settled ≡ ack ∷ s.settled
      → s'.retries ≡ s.retries
      → s'.database ≡ s.database
      → DeliveryEnd env d s s'
  event_handled :
      (event : EventV2)
      → outcome_of env d ≡ valid (gives event)
      → EventEnd env d event (suc (count event.event_id s.database)) s.settled s.retries s'
      → LedgerStep event.event_id s.database.tables s'.database.tables
      → IsClosed s'.database
      → (is_processed event.event_id s'.database.tables.processed ≡ true)
        ⊎ (count event.event_id s'.database ≡ suc (count event.event_id s.database))
      → DeliveryEnd env d s s'

-- The handler threw: the upcast failed or the attempt could not be recorded.
pub data Abandoned (env : ConsumerEnv) (d : Delivery) (s s' : ConsumerState) : Type 0 where
  abandoned :
      s'.settled ≡ s.settled
      → s'.retries ≡ s.retries
      → s'.database ≡ s.database
      → ((e : Thrown) × (outcome_of env d ≡ valid (fails e)))
        ⊎ ((e : Thrown) × (env.attempt_query ≡ fails e))
      → Abandoned env d s s'

module _ (env : ConsumerEnv) (d : Delivery) (s : ConsumerState) (closed : IsClosed s.database)
    (honest : IsHonest env.transaction.ledger_save) where
  module _ (event : EventV2) (is_valid : outcome_of env d ≡ valid (gives event)) where
    abbrev attempted : ConsumerState
    attempted = record s {
      database =
          with_attempts (upsert event.event_id env.now s.database.tables.attempts) s.database;
    }

    event_end :
        (event_type : String) (s1 : ConsumerState)
        → s1.settled ≡ s.settled
        → s1.retries ≡ s.retries
        → s1.database ≡ attempted.database
        → Ends
            (λ _ s'. DeliveryEnd env d s s')
            (λ _ s'. Abandoned env d s s')
            (try_catch
              (business env event_type event)
              (recover env d event_type event (suc (count event.event_id s.database)))
              s1)
    event_end event_type s1 settled retries database =
        try_catch-Ends (λ _ s'. DeliveryEnd env d s s') (λ _ s'. Abandoned env d s s')
          (λ _ s'. IsUnanswered event s1 s') (business env event_type event)
          (recover env d event_type event (suc (count event.event_id s.database))) s1
          (Ends-mono _ _ _ _ (business env event_type event s1)
            (business-Ends env event_type event s1 (rw database closed) honest) acknowledged
            (λ _ _ h. h))
          recovered
      where
        step :
            (t : Tables)
            → LedgerStep event.event_id s1.database.tables t
            → LedgerStep event.event_id s.database.tables t
        step t l =
            LedgerStep-from_attempts event.event_id s.database.tables t
              attempted.database.tables.attempts
              (subst (λ b. LedgerStep event.event_id b.tables t) database l)

        acknowledged :
            (h : Handled) (s' : ConsumerState) → IsAcknowledged event s1 s' → DeliveryEnd env d s s'
        acknowledged h s' (c, a, b, l, found) =
            event_handled event is_valid
              (acked_processed (a ∙ ap (◌∷◌ ack) settled) (b ∙ retries) found)
              (step s'.database.tables l) c (inl found)

        counted :
            (s' : ConsumerState)
            → s'.database.tables.attempts ≡ s1.database.tables.attempts
            → count event.event_id s'.database ≡ suc (count event.event_id s.database)
        counted s' same =
            ap (get_attempt_count event.event_id) same
            ∙ ap (count event.event_id) database
            ∙ upsert_counted event.event_id env.now s.database

        recovered :
            (e : Thrown) (s' : ConsumerState)
            → IsUnanswered event s1 s'
            → Ends
                (λ _ x. DeliveryEnd env d s x)
                (λ _ x. Abandoned env d s x)
                (recover env d event_type event (suc (count event.event_id s.database)) e s')
        recovered e s' (c, a, b, l, same) =
            Ends-mono
              (λ _ x.
                EventEnd env d event (suc (count event.event_id s.database)) s'.settled s'.retries x
                × (x.database ≡ s'.database))
              (λ _ x. DeliveryEnd env d s x) (λ _ _. ⊥) (λ _ x. Abandoned env d s x)
              (recover env d event_type event (suc (count event.event_id s.database)) e s')
              (recover-Ends env d event (suc (count event.event_id s.database)) event_type e s'
                (is_retryable e (suc (count event.event_id s.database))) refl)
              (λ _ x k.
                event_handled event is_valid
                  (subst
                    (λ q.
                      EventEnd env d event (suc (count event.event_id s.database)) s.settled q x)
                    (b ∙ retries)
                    (subst
                      (λ q.
                        EventEnd env d event (suc (count event.event_id s.database)) q s'.retries x)
                      (a ∙ settled) k.0))
                  (subst (λ q. LedgerStep event.event_id s.database.tables q.tables) (sym k.1)
                    (step s'.database.tables l))
                  (subst IsClosed (sym k.1) c)
                  (inr (
                    subst (λ q. count event.event_id q ≡ suc (count event.event_id s.database))
                      (sym k.1) (counted s' same))))
              (λ _ _ k. absurd k)

    attempt_recorded :
        (q : Reply (Unit {0}))
        → q ≡ gives tt
        → record_attempt q event.event_id env.now s.database
          ≡ returned (suc (count event.event_id s.database)) attempted.database
    attempt_recorded q eq = rw eq (record_attempt_run event.event_id env.now s.database)

    process_recorded :
        (event_type : String)
        → env.attempt_query ≡ gives tt
        → Ends
            (λ _ s'. DeliveryEnd env d s s')
            (λ _ s'. Abandoned env d s s')
            (process env d event_type event s)
    unfolding process publish_lifecycle
    process_recorded event_type eq =
        rw (Ends, attempt_recorded env.attempt_query eq) (event_end event_type _ refl refl refl)

    process-Ends :
        (event_type : String) (q : Reply (Unit {0}))
        → env.attempt_query ≡ q
        → Ends
            (λ _ s'. DeliveryEnd env d s s')
            (λ _ s'. Abandoned env d s s')
            (process env d event_type event s)
    unfolding process publish_lifecycle record_attempt
    process-Ends event_type (fails e) eq = rw (Ends, eq) (abandoned refl refl refl (inr (e, eq)))
    process-Ends event_type (gives u) eq = process_recorded event_type eq

  dispatch-Ends :
      (event_type : String) (v : ValidateEventResult (Reply EventV2))
      → outcome_of env d ≡ v
      → Ends
          (λ _ s'. DeliveryEnd env d s s')
          (λ _ s'. Abandoned env d s s')
          (dispatch env d event_type v s)
  unfolding dispatch reject settle count_metric publish_lifecycle
  dispatch-Ends event_type (invalid errors) eq = acked_invalid errors eq refl refl refl
  dispatch-Ends event_type (valid (fails e)) eq = abandoned refl refl refl (inl (e, eq))
  dispatch-Ends event_type (valid (gives event)) eq =
      process-Ends event eq event_type env.attempt_query refl

  pub handle_message-Ends :
      Ends (λ _ s'. DeliveryEnd env d s s') (λ _ s'. Abandoned env d s s') (handle_message env d s)
  unfolding handle_message
  handle_message-Ends = dispatch-Ends (event_type_name (version_of d)) (outcome_of env d) refl
