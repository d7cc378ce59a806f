-- ===== src/MessagingService.antt =====
-- apps/messaging/src/messaging.service.ts: the business write and its transaction.
pub mod Creation
pub mod Plain
use contract_driven_messagin.Common.{
  ℕ, suc, String, List, [], ◌∷◌, ◌++◌, Option, none, some, default_to, Prog, returned, threw, Reply,
  gives, fails,
}
use contract_driven_messagin.Contracts.Value.{Value, undefined, text, object, end, field}
use contract_driven_messagin.Database.{Database, Message}
use contract_driven_messagin.OutboxTransaction.{
  OutboxEventInput, IdempotencyInput, IdempotentRunResult, TransactionEnv, run_with_outbox_events,
  run_idempotent_with_outbox_events,
}

pub record MessageData : Type 0 where
  pub content : Option String
  pub subject : Option String

abbrev pub new_message : MessageData → ℕ → ℕ → Message
new_message body now id = record {
  id = id;
  title = default_to "Untitled" body.subject;
  content = default_to "No content" body.content;
  sender = "system-user";
  recipient = none;
  created_at = now;
}

-- The callback `work`: `em.save(Message, newMessage)`.
unfoldable pub save_message : Reply (Unit {0}) → MessageData → ℕ → Prog Database Message
save_message (fails e) body now s = threw e s
save_message (gives _) body now s =
    let message = new_message body now s.sequences.messages_id in
    returned message (record s {
      tables = record s.tables { messages = s.tables.messages ++ (message ∷ []) };
      sequences = record s.sequences { messages_id = suc s.sequences.messages_id };
    })

abbrev pub message_persisted : MessageData → Option String → OutboxEventInput
message_persisted body correlation_id = record {
  event_type = "MessagePersisted";
  payload =
      object (
        field "messageId" undefined
          (field "title" (text (default_to "Untitled" body.subject)) end));
  correlation_id = correlation_id;
  max_attempts = none;
}

unfoldable pub handle_message_creation :
    TransactionEnv → Reply (Unit {0}) → MessageData → Option String → Prog Database Message
unfolding run_with_outbox_events save_message
handle_message_creation env saved body correlation_id =
    run_with_outbox_events env (save_message saved body env.now)
      (message_persisted body correlation_id ∷ [])

unfoldable pub handle_message_creation_idempotent :
    TransactionEnv
    → Reply (Unit {0})
    → MessageData
    → IdempotencyInput
    → Prog Database (IdempotentRunResult Message)
unfolding run_idempotent_with_outbox_events save_message
handle_message_creation_idempotent env saved body input =
    run_idempotent_with_outbox_events env input (save_message saved body env.now)
      (message_persisted body input.correlation_id ∷ [])
