-- ===== src/Consumer/Ledger.antt =====
-- How the try block of `handleMessage` ends, and what one delivery does to the tables.
use contract_driven_messagin.Common.{
  ◌≡◌, refl, ap, inl, inr, String, true, false, List, [], ◌∷◌, ◌++◌, eq_iff, Run, returned, threw,
  Reply, gives, fails, arith, Ends,
}
use contract_driven_messagin.Contracts.Events.{EventV2}
use contract_driven_messagin.Outbox.{OutboxRow}
use contract_driven_messagin.Database.{
  Database, Tables, Message, ProcessedEvent, EventAttempt, is_processed,
}
use contract_driven_messagin.OutboxTransaction.{IdempotentRunResult, duplicate, processed_now}
use contract_driven_messagin.OutboxTransaction.Open.{IsClosed, IsHonest}
use contract_driven_messagin.MessagingService.{handle_message_creation_idempotent}
use contract_driven_messagin.MessagingService.Creation.{
  Created, IsCreation, IsCreationFailure, handle_message_creation_idempotent_atomic,
}
use contract_driven_messagin.AttemptTracker.{clear_attempts}
use contract_driven_messagin.Consumer.Env.{ConsumerEnv}
use contract_driven_messagin.Consumer.Handler.{input_of, body_of, acknowledge, business}
use contract_driven_messagin.Consumer.{ack, ConsumerState, settle, count_metric, publish_lifecycle}

-- The three tables that a creation writes: as before, or with one message, one ledger row of this
-- event, which had none, and one outbox row more.
pub data LedgerStep (event_id : String) (t t' : Tables) : Type 0 where
  unchanged :
      t'.messages ≡ t.messages
      → t'.processed ≡ t.processed
      → t'.outbox ≡ t.outbox
      → LedgerStep event_id t t'
  added :
      (m : Message) (p : ProcessedEvent) (r : OutboxRow)
      → is_processed event_id t.processed ≡ false
      → p.event_id ≡ event_id
      → t'.messages ≡ t.messages ++ (m ∷ [])
      → t'.processed ≡ t.processed ++ (p ∷ [])
      → t'.outbox ≡ t.outbox ++ (r ∷ [])
      → LedgerStep event_id t t'

is_processed-append :
    (id : String) (ps : List ProcessedEvent) (p : ProcessedEvent)
    → p.event_id ≡ id
    → is_processed id (ps ++ (p ∷ [])) ≡ true
is_processed-append id [] p e = rw ((eq_iff p.event_id id).1 e) refl
is_processed-append id (q ∷ ps) p e = ground (arith, is_processed-append id ps p e)

Created-LedgerStep :
    (env : ConsumerEnv) (event_type : String) (event : EventV2) (t t' : Tables) (m : Message)
    → Created (body_of event) (input_of event_type event) t t' m
    → LedgerStep event.event_id t t'
Created-LedgerStep env event_type event t t' m c =
    added m c.ledger.0 c.outbox.0 c.fresh c.ledger.1 c.messages c.ledger.2 c.outbox.4

Created-is_processed :
    (event_type : String) (event : EventV2) (t t' : Tables) (m : Message)
    → Created (body_of event) (input_of event_type event) t t' m
    → is_processed event.event_id t'.processed ≡ true
Created-is_processed event_type event t t' m c =
    rw c.ledger.2 (is_processed-append event.event_id t.processed c.ledger.0 c.ledger.1)

-- The attempt counters are another table.
pub LedgerStep-attempts :
    (id : String) (t t' : Tables) (xs : List EventAttempt)
    → LedgerStep id t t'
    → LedgerStep id t (record t' { attempts = xs })
LedgerStep-attempts id t t' xs (unchanged a b c) = unchanged a b c
LedgerStep-attempts id t t' xs (added m p r f e a b c) = added m p r f e a b c

pub LedgerStep-from_attempts :
    (id : String) (t t' : Tables) (xs : List EventAttempt)
    → LedgerStep id (record t { attempts = xs }) t'
    → LedgerStep id t t'
LedgerStep-from_attempts id t t' xs (unchanged a b c) = unchanged a b c
LedgerStep-from_attempts id t t' xs (added m p r f e a b c) = added m p r f e a b c

pub same_tables : {id : String} {t t' : Tables} → t' ≡ t → LedgerStep id t t'
same_tables e =
    unchanged (ap (λ (x : Tables). x.messages) e) (ap (λ (x : Tables). x.processed) e)
      (ap (λ (x : Tables). x.outbox) e)

-- The try block returned: the event is in the ledger, and the delivery is acked.
abbrev pub IsAcknowledged : EventV2 → ConsumerState → ConsumerState → Type 0
IsAcknowledged event s s' =
    IsClosed s'.database
    × (s'.settled ≡ ack ∷ s.settled)
    × (s'.retries ≡ s.retries)
    × LedgerStep event.event_id s.database.tables s'.database.tables
    × (is_processed event.event_id s'.database.tables.processed ≡ true)

-- The try block threw: nothing is settled.
abbrev pub IsUnanswered : EventV2 → ConsumerState → ConsumerState → Type 0
IsUnanswered event s s' =
    IsClosed s'.database
    × (s'.settled ≡ s.settled)
    × (s'.retries ≡ s.retries)
    × LedgerStep event.event_id s.database.tables s'.database.tables
    × (s'.database.tables.attempts ≡ s.database.tables.attempts)

module _ (env : ConsumerEnv) (event_type : String) (event : EventV2) (s : ConsumerState) where
  by_clear :
      (r : IdempotentRunResult Message) (d : Database) (c : Reply (Unit {0}))
      → handle_message_creation_idempotent env.transaction env.save
          (body_of event)
          (input_of event_type event)
          s.database
        ≡ returned r d
      → IsCreation env.transaction (body_of event) (input_of event_type event) s.database r d
      → env.clear_query ≡ c
      → Ends
          (λ _ s'. IsAcknowledged event s s')
          (λ _ s'. IsUnanswered event s s')
          (business env event_type event s)
  unfolding business acknowledge count_metric publish_lifecycle settle clear_attempts
  by_clear duplicate d (gives u) eq (closed, same, found) ec =
      rw (Ends, eq, ec)
        (
          closed,
          refl,
          refl,
          LedgerStep-attempts event.event_id _ _ _ (same_tables same),
          rw same found,
        )
  by_clear duplicate d (fails e) eq (closed, same, found) ec =
      rw (Ends, eq, ec) (closed, refl, refl, same_tables same, ap (λ (x : Tables). x.attempts) same)
  by_clear (processed_now m) d (gives u) eq (closed, c) ec =
      rw (Ends, eq, ec)
        (
          closed,
          refl,
          refl,
          LedgerStep-attempts event.event_id _ _ _
              (Created-LedgerStep env event_type event _ _ m c),
          Created-is_processed event_type event _ _ m c,
        )
  by_clear (processed_now m) d (fails e) eq (closed, c) ec =
      rw (Ends, eq, ec)
        (closed, refl, refl, Created-LedgerStep env event_type event _ _ m c, c.attempts)

  by_creation :
      (r : Run Database (IdempotentRunResult Message))
      → handle_message_creation_idempotent env.transaction env.save
          (body_of event)
          (input_of event_type event)
          s.database
        ≡ r
      → Ends
          (IsCreation env.transaction (body_of event) (input_of event_type event) s.database)
          (λ _ d.
            IsCreationFailure env.transaction
              (body_of event)
              (input_of event_type event)
              s.database
              d)
          r
      → Ends
          (λ _ s'. IsAcknowledged event s s')
          (λ _ s'. IsUnanswered event s s')
          (business env event_type event s)
  unfolding business
  by_creation (returned r d) eq h = by_clear r d env.clear_query eq h refl
  by_creation (threw e d) eq (closed, inl same) =
      rw (Ends, eq) (closed, refl, refl, same_tables same, ap (λ (x : Tables). x.attempts) same)
  by_creation (threw e d) eq (closed, inr (m, c)) =
      rw (Ends, eq)
        (closed, refl, refl, Created-LedgerStep env event_type event _ _ m c, c.attempts)

  pub business-Ends :
      IsClosed s.database
      → IsHonest env.transaction.ledger_save
      → Ends
          (λ _ s'. IsAcknowledged event s s')
          (λ _ s'. IsUnanswered event s s')
          (business env event_type event s)
  business-Ends closed honest =
      by_creation
        (handle_message_creation_idempotent env.transaction env.save (body_of event)
          (input_of event_type event) s.database)
        refl
        (handle_message_creation_idempotent_atomic env.transaction (body_of event)
          (input_of event_type event) s.database env.save closed honest)
