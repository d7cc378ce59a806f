-- ===== src/MessagingService/Plain.antt =====
-- What one creation without the idempotency ledger leaves in the tables.
use contract_driven_messagin.Common.{
  ◌≡◌, refl, sym, subst, ◌⊎◌, inl, inr, String, List, [], ◌∷◌, ◌++◌, Option, default_to, Thrown,
  Reply, gives, fails, Ends, Ends-mono,
}
use contract_driven_messagin.Outbox.{OutboxRow, pending}
use contract_driven_messagin.Database.{Database, Tables, Message}
use contract_driven_messagin.OutboxTransaction.{
  OutboxEventInput, TransactionEnv, insert_outbox_events, save_outbox_row,
}
use contract_driven_messagin.OutboxTransaction.Open.{IsClosed, started}
use contract_driven_messagin.OutboxTransaction.Plain.{
  plain_writes, HasWritten, IsDoneOrNot, run_with_outbox_events-IsDone,
}
use contract_driven_messagin.MessagingService.{
  MessageData, save_message, message_persisted, handle_message_creation,
}
use contract_driven_messagin.MessagingService.Creation.{save_message-StaysOpen}

-- Exactly one message with this data and one pending outbox row have been added; the ledger and the
-- attempt counts are as they were.
pub record IsAdded (body : MessageData) (correlation_id : Option String) (t t' : Tables)
    (m : Message) : Type 0 where
  pub title : m.title ≡ default_to "Untitled" body.subject
  pub content : m.content ≡ default_to "No content" body.content
  pub messages : t'.messages ≡ t.messages ++ (m ∷ [])
  pub outbox :
      (r : OutboxRow) × (r.event_type ≡ "MessagePersisted")
      × (r.status ≡ pending)
      × (r.correlation_id ≡ correlation_id)
      × (t'.outbox ≡ t.outbox ++ (r ∷ []))
  pub processed : t'.processed ≡ t.processed
  pub attempts : t'.attempts ≡ t.attempts

module _ (env : TransactionEnv) (body : MessageData) (correlation_id : Option String)
    (s : Database) where
  abbrev work : List OutboxEventInput
  work = message_persisted body correlation_id ∷ []

  plain_writes-IsAdded :
      (saved o : Reply (Unit {0}))
      → env.outbox_save 0 ≡ o
      → Ends
          (λ m s'. IsAdded body correlation_id s.tables s'.tables m)
          (λ _ _. Unit)
          (plain_writes env (save_message saved body env.now) work (started s))
  unfolding plain_writes save_message insert_outbox_events save_outbox_row
  plain_writes-IsAdded (gives u) (gives u') eo =
      rw (Ends, eo)
        (record {
          title = refl;
          content = refl;
          messages = refl;
          outbox = (_, refl, refl, refl, refl);
          processed = refl;
          attempts = refl;
        })
  plain_writes-IsAdded (gives u) (fails e) eo = rw (Ends, eo) tt
  plain_writes-IsAdded (fails e) o eo = tt

  IsAdded-of_written :
      (saved : Reply (Unit {0})) (m : Message) (t' : Tables)
      → HasWritten env (save_message saved body env.now) work s m t'
      → IsAdded body correlation_id s.tables t' m
  IsAdded-of_written saved m t' (s', w, same) =
      subst (λ t. IsAdded body correlation_id s.tables t m) (sym same)
        (subst (Ends (λ m s'. IsAdded body correlation_id s.tables s'.tables m) (λ _ _. Unit)) w
          (plain_writes-IsAdded saved (env.outbox_save 0) refl))

  abbrev pub IsAddition : Message → Database → Type 0
  IsAddition m s' = IsClosed s' × IsAdded body correlation_id s.tables s'.tables m

  abbrev pub IsAdditionOrNot : Database → Type 0
  IsAdditionOrNot s' =
      IsClosed s'
      × ((s'.tables ≡ s.tables)
          ⊎ ((m : Message) × IsAdded body correlation_id s.tables s'.tables m))

  -- `handleMessageCreation` returns only the message that it added with one pending outbox row; a
  -- throw leaves both in the tables, or neither.
  pub handle_message_creation-IsAddition :
      (saved : Reply (Unit {0}))
      → IsClosed s
      → Ends IsAddition
          (λ _ s'. IsAdditionOrNot s')
          (handle_message_creation env saved body correlation_id s)
  unfolding handle_message_creation
  handle_message_creation-IsAddition saved closed =
      Ends-mono _ _ _ _ (handle_message_creation env saved body correlation_id s)
        (run_with_outbox_events-IsDone env (save_message saved body env.now) work s
          (save_message-StaysOpen saved body env.now) closed)
        (λ m s' h. (h.0, IsAdded-of_written saved m s'.tables h.1)) failure
    where
      failure :
          (e : Thrown) (s' : Database)
          → IsDoneOrNot env (save_message saved body env.now) work s s'
          → IsAdditionOrNot s'
      failure e s' (c, inl same) = (c, inl same)
      failure e s' (c, inr (m, w)) = (c, inr (m, IsAdded-of_written saved m s'.tables w))
