-- ===== src/MessagingService/Creation.antt =====
-- What one idempotent creation leaves in the tables.
use contract_driven_messagin.Common.{
  ℕ, ◌≡◌, refl, sym, subst, ◌⊎◌, inl, inr, Bool, true, false, List, [], ◌∷◌, ◌++◌, default_to,
  Thrown, Reply, gives, fails, Ends, Ends-mono,
}
use contract_driven_messagin.Outbox.{OutboxRow, pending}
use contract_driven_messagin.Database.{Database, Tables, Message, ProcessedEvent, is_processed}
use contract_driven_messagin.OutboxTransaction.{
  OutboxEventInput, IdempotencyInput, IdempotentRunResult, duplicate, processed_now, TransactionEnv,
  save_processed_event, insert_outbox_events, save_outbox_row, new_processed_event,
}
use contract_driven_messagin.OutboxTransaction.Open.{IsClosed, StaysOpen, IsHonest, started}
use contract_driven_messagin.OutboxTransaction.Atomic.{
  writes, IsWritten, IsFinished, IsAllOrNothing, run_idempotent-IsAllOrNothing,
}
use contract_driven_messagin.MessagingService.{
  MessageData, save_message, message_persisted, handle_message_creation_idempotent,
}

-- Exactly one message with this data, one ledger row of a new event and one pending outbox row
-- have been added.
pub record Created (body : MessageData) (input : IdempotencyInput) (t t' : Tables) (m : Message)
    : Type 0 where
  pub title : m.title ≡ default_to "Untitled" body.subject
  pub content : m.content ≡ default_to "No content" body.content
  pub messages : t'.messages ≡ t.messages ++ (m ∷ [])
  pub fresh : is_processed input.event_id t.processed ≡ false
  pub ledger :
      (p : ProcessedEvent) × (p.event_id ≡ input.event_id)
      × (t'.processed ≡ t.processed ++ (p ∷ []))
  pub outbox :
      (r : OutboxRow) × (r.event_type ≡ "MessagePersisted")
      × (r.status ≡ pending)
      × (r.correlation_id ≡ input.correlation_id)
      × (t'.outbox ≡ t.outbox ++ (r ∷ []))
  pub attempts : t'.attempts ≡ t.attempts

pub save_message-StaysOpen :
    (r : Reply (Unit {0})) (body : MessageData) (now : ℕ) → StaysOpen (save_message r body now)
unfolding save_message
save_message-StaysOpen (fails e) body now t s h = h
save_message-StaysOpen (gives u) body now t s h = h

module _ (env : TransactionEnv) (body : MessageData) (input : IdempotencyInput) (s : Database) where
  writes-Created :
      (saved l o : Reply (Unit {0})) (b : Bool)
      → env.ledger_save ≡ l
      → env.outbox_save 0 ≡ o
      → is_processed input.event_id s.tables.processed ≡ b
      → Ends
          (λ m s'. Created body input s.tables s'.tables m)
          (λ _ _. Unit)
          (writes env input
            (save_message saved body env.now)
            (message_persisted body input.correlation_id ∷ [])
            (started s))
  unfolding writes save_message save_processed_event insert_outbox_events save_outbox_row
  writes-Created (gives u) (gives u') (gives u'') false el eo eb =
      rw (Ends, el, eb, eo)
        (record {
          title = refl;
          content = refl;
          messages = refl;
          fresh = eb;
          ledger = (new_processed_event input env.now s.sequences.processed_id, refl, refl);
          outbox = (_, refl, refl, refl, refl);
          attempts = refl;
        })
  writes-Created (fails e) (gives u') o false el eo eb = rw (Ends, el, eb) tt
  writes-Created (gives u) (gives u') (fails e) false el eo eb = rw (Ends, el, eb, eo) tt
  writes-Created saved (gives u') o true el eo eb = rw (Ends, el, eb) tt
  writes-Created saved (fails e) o b el eo eb = rw (Ends, el) tt

  Created-of_written :
      (saved : Reply (Unit {0})) (m : Message) (t' : Tables)
      → IsWritten env input
          (save_message saved body env.now)
          (message_persisted body input.correlation_id ∷ [])
          s
          m
          t'
      → Created body input s.tables t' m
  Created-of_written saved m t' (s', w, same) =
      subst (λ t. Created body input s.tables t m) (sym same)
        (subst (Ends (λ m s'. Created body input s.tables s'.tables m) (λ _ _. Unit)) w (
          writes-Created saved env.ledger_save (env.outbox_save 0)
            (is_processed input.event_id s.tables.processed) refl refl refl))

  abbrev pub IsCreation : IdempotentRunResult Message → Database → Type 0
  IsCreation duplicate s' =
      IsClosed s' × (s'.tables ≡ s.tables) × (is_processed input.event_id s.tables.processed ≡ true)
  IsCreation (processed_now m) s' = IsClosed s' × Created body input s.tables s'.tables m

  abbrev pub IsCreationFailure : Database → Type 0
  IsCreationFailure s' =
      IsClosed s'
      × ((s'.tables ≡ s.tables) ⊎ ((m : Message) × Created body input s.tables s'.tables m))

  -- `handleMessageCreationIdempotent`: a duplicate is reported only of an event in the ledger, and
  -- changes no table. A message is returned only with exactly one message, one ledger row of an
  -- event that was new, and one pending `MessagePersisted` row added. A throw leaves all three or
  -- none. The connection starts without an open transaction, and only the unique index makes the
  -- ledger's INSERT fail with a unique violation.
  pub handle_message_creation_idempotent_atomic :
      (saved : Reply (Unit {0}))
      → IsClosed s
      → IsHonest env.ledger_save
      → Ends IsCreation
          (λ _ s'. IsCreationFailure s')
          (handle_message_creation_idempotent env saved body input s)
  unfolding handle_message_creation_idempotent
  handle_message_creation_idempotent_atomic saved closed honest =
      Ends-mono _ _ _ _ (handle_message_creation_idempotent env saved body input s)
        (run_idempotent-IsAllOrNothing env input (save_message saved body env.now)
          (message_persisted body input.correlation_id ∷ []) s
          (save_message-StaysOpen saved body env.now) closed honest)
        creation failure
    where
      work : List OutboxEventInput
      work = message_persisted body input.correlation_id ∷ []

      creation :
          (r : IdempotentRunResult Message) (s' : Database)
          → IsFinished env input (save_message saved body env.now) work s r s'
          → IsCreation r s'
      creation duplicate s' h = h
      creation (processed_now m) s' (c, w) = (c, Created-of_written saved m s'.tables w)

      failure :
          (e : Thrown) (s' : Database)
          → IsAllOrNothing env input (save_message saved body env.now) work s s'
          → IsCreationFailure s'
      failure e s' (c, inl same) = (c, inl same)
      failure e s' (c, inr (m, w)) = (c, inr (m, Created-of_written saved m s'.tables w))
