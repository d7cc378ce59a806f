-- ===== src/OutboxTransaction.antt =====
-- apps/messaging/src/outbox/outbox-transaction.service.ts. What the database, `randomUUID` and the
-- tracer answer is an argument.
pub mod Open
pub mod Atomic
pub mod Plain
use contract_driven_messagin.Common.{
  ℕ, suc, ◌+◌, String, Bool, true, false, ◌||◌, List, [], ◌∷◌, ◌++◌, Option, none, some, str_eq,
  Thrown, primitive, object, ErrorFields, returned, threw, Prog, ◌>>=◌, ◌>>◌, pure, throw,
  try_catch, finally, await, Reply, gives, fails, if◌then◌else◌, default_to,
}
use contract_driven_messagin.ErrorClassifier.{is_code}
use contract_driven_messagin.Contracts.Value.{Value}
use contract_driven_messagin.Outbox.{OutboxRow, pending}
use contract_driven_messagin.Database.{
  Database, ProcessedEvent, CommitReply, start_transaction, commit_transaction,
  rollback_transaction, is_processed, unique_violation,
}

pub record OutboxEventInput : Type 0 where
  pub event_type : String
  pub payload : Value
  pub correlation_id : Option String
  pub max_attempts : Option ℕ

pub record IdempotencyInput : Type 0 where
  pub event_id : String
  pub event_type : String
  pub correlation_id : Option String

pub data IdempotentRunResult (A : Type 0) : Type 0 where
  duplicate : IdempotentRunResult A
  processed_now : A → IdempotentRunResult A

-- The n-th outbox row has the answer `outbox_save n` and the id `random_uuid n`. The driver turns
-- a payload into JSON text.
pub record TransactionEnv : Type 0 where
  pub connect : Reply (Unit {0})
  pub start : Reply (Unit {0})
  pub ledger_save : Reply (Unit {0})
  pub outbox_save : ℕ → Reply (Unit {0})
  pub commit : CommitReply
  pub duplicate_rollback : Reply (Unit {0})
  pub rollback : Reply (Unit {0})
  pub release : Reply (Unit {0})
  pub now : ℕ
  pub random_uuid : ℕ → String
  pub trace_context : List (String × String)
  pub to_json : Value → String

abbrev pub new_outbox_row : TransactionEnv → ℕ → OutboxEventInput → ℕ → OutboxRow
new_outbox_row env n ev id = record {
  id = id;
  event_type = ev.event_type;
  payload = env.to_json ev.payload;
  correlation_id = ev.correlation_id;
  status = pending;
  attempts = 0;
  last_error = none;
  created_at = env.now;
  sent_at = none;
  locked_at = none;
  locked_by = none;
  next_retry_at = env.now;
  max_attempts = default_to 5 ev.max_attempts;
  event_id = some (env.random_uuid n);
  lock_version = 0;
  trace_context = elim env.trace_context [ [] ↦ none | entry ∷ more ↦ some (entry ∷ more) ];
}

unfoldable pub save_outbox_row : Reply (Unit {0}) → (ℕ → OutboxRow) → Prog Database (Unit {0})
save_outbox_row (fails e) row s = threw e s
save_outbox_row (gives _) row s = returned tt (record s {
  tables = record s.tables { outbox = s.tables.outbox ++ (row s.sequences.outbox_id ∷ []) };
  sequences = record s.sequences { outbox_id = suc s.sequences.outbox_id };
})

-- `insertOutboxEvents`, from the n-th event on.
unfoldable pub insert_outbox_events :
    TransactionEnv → ℕ → List OutboxEventInput → Prog Database (Unit {0})
unfolding save_outbox_row
insert_outbox_events env n [] s = returned tt s
insert_outbox_events env n (ev ∷ events) s =
    elim (save_outbox_row (env.outbox_save n) (new_outbox_row env n ev) s) [
      | returned _ s' ↦ insert_outbox_events env (suc n) events s'
      | threw e s' ↦ threw e s'
    ]

abbrev pub new_processed_event : IdempotencyInput → ℕ → ℕ → ProcessedEvent
new_processed_event input now id = record {
  id = id;
  event_id = input.event_id;
  event_type = input.event_type;
  correlation_id = input.correlation_id;
  result = none;
  processed_at = now;
}

-- The INSERT takes a number from the sequence even when the unique index refuses the row.
unfoldable pub save_processed_event :
    Reply (Unit {0}) → IdempotencyInput → ℕ → Prog Database (Unit {0})
save_processed_event (fails e) input now s = threw e s
save_processed_event (gives _) input now s =
    let s' = record s {
      sequences = record s.sequences { processed_id = suc s.sequences.processed_id };
    } in
    elim (is_processed input.event_id s.tables.processed) [
      | true ↦ threw unique_violation s'
      | false ↦ returned tt (record s' {
        tables = record s.tables {
          processed =
              s.tables.processed ++ (new_processed_event input now s.sequences.processed_id ∷ []);
        };
      })
    ]

unfoldable pub is_unique_violation : Thrown → Bool
is_unique_violation (primitive s) = false
is_unique_violation (object e) =
    if is_code "23505" e.code then true else is_code "23505" e.driver_code

unfoldable pub run_with_outbox_events :
    {A : Type 0} → TransactionEnv → Prog Database A → List OutboxEventInput → Prog Database A
unfolding start_transaction insert_outbox_events commit_transaction rollback_transaction
run_with_outbox_events env work events =
    await env.connect
    >> (start_transaction env.start
        >> finally
            (try_catch
              (do
                result ← work
                insert_outbox_events env 0 events
                commit_transaction env.commit
                pure result)
              (λ err. rollback_transaction env.rollback >> throw err))
            (await env.release))

-- Whether the ledger has the event already; then the transaction is rolled back.
unfoldable pub mark_processed : TransactionEnv → IdempotencyInput → Prog Database Bool
unfolding save_processed_event is_unique_violation rollback_transaction
mark_processed env input =
    try_catch (save_processed_event env.ledger_save input env.now >> pure false) (λ err.
      elim (is_unique_violation err) [
        | true ↦ rollback_transaction env.duplicate_rollback >> pure true
        | false ↦ throw err
      ])

unfoldable pub finish_unless_duplicate :
    {A : Type 0}
    → TransactionEnv
    → Prog Database A
    → List OutboxEventInput
    → Bool
    → Prog Database (IdempotentRunResult A)
unfolding insert_outbox_events commit_transaction
finish_unless_duplicate env work events true = pure duplicate
finish_unless_duplicate env work events false = do
  result ← work
  insert_outbox_events env 0 events
  commit_transaction env.commit
  pure (processed_now result)

unfoldable pub run_idempotent_with_outbox_events :
    {A : Type 0}
    → TransactionEnv
    → IdempotencyInput
    → Prog Database A
    → List OutboxEventInput
    → Prog Database (IdempotentRunResult A)
unfolding start_transaction mark_processed finish_unless_duplicate rollback_transaction
run_idempotent_with_outbox_events env input work events =
    await env.connect
    >> (start_transaction env.start
        >> finally
            (try_catch (mark_processed env input >>= finish_unless_duplicate env work events)
              (λ err. rollback_transaction env.rollback >> throw err))
            (await env.release))
