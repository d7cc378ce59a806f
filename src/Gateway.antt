-- ===== src/Gateway.antt =====
-- The gateway: its database, and its outbox transaction,
-- apps/gateway/src/outbox/gateway-outbox-transaction.service.ts. `Send` has the HTTP handlers,
-- `Relay` and `Replay` the outbox's relay and administration.
pub mod Send
pub mod Relay
pub mod Replay
pub mod Requests
pub mod Acceptance
pub mod Refusal
pub mod Checks
pub mod Samples
mod Examples
mod CheckExamples
use contract_driven_messagin.Common.{
  ℕ, suc, String, List, [], ◌∷◌, ◌++◌, Option, none, some, default_to, Thrown, returned, threw,
  Prog, ◌>>=◌, ◌>>◌, pure, throw, try_catch, finally, await, Reply, gives, fails,
}
use contract_driven_messagin.Outbox.{OutboxRow, Table, pending}
use contract_driven_messagin.Database.{CommitReply, commits, lost_before, lost_after}

-- `before` holds the table as it was when the open transaction started.
pub record GatewayDatabase : Type 0 where
  pub table : Table
  pub before : Option Table
  pub next_id : ℕ

-- A payload is its JSON text.
pub record GatewayOutboxEventInput : Type 0 where
  pub event_type : String
  pub payload : String
  pub correlation_id : Option String
  pub event_id : Option String
  pub max_attempts : Option ℕ

pub record GatewayTransactionEnv : Type 0 where
  pub connect : Reply (Unit {0})
  pub start : Reply (Unit {0})
  pub save : Reply (Unit {0})
  pub commit : CommitReply
  pub rollback : Reply (Unit {0})
  pub release : Reply (Unit {0})
  pub now : ℕ
  pub random_uuid : String
  pub trace_context : List (String × String)

unfoldable pub start_gateway_transaction : Reply (Unit {0}) → Prog GatewayDatabase (Unit {0})
start_gateway_transaction (fails e) s = threw e s
start_gateway_transaction (gives _) s = returned tt (record s { before = some s.table })

unfoldable pub commit_gateway_transaction : CommitReply → Prog GatewayDatabase (Unit {0})
commit_gateway_transaction commits s = returned tt (record s { before = none })
commit_gateway_transaction (lost_before e) s = threw e s
commit_gateway_transaction (lost_after e) s = threw e (record s { before = none })

abbrev pub without_writes : Option Table → GatewayDatabase → GatewayDatabase
without_writes none s = s
without_writes (some t) s = record s { table = t; before = none }

unfoldable pub rollback_gateway_transaction : Reply (Unit {0}) → Prog GatewayDatabase (Unit {0})
rollback_gateway_transaction (fails e) s = threw e (without_writes s.before s)
rollback_gateway_transaction (gives _) s = returned tt (without_writes s.before s)

abbrev pub new_gateway_row : GatewayTransactionEnv → GatewayOutboxEventInput → ℕ → OutboxRow
new_gateway_row env event id = record {
  id = id;
  event_type = event.event_type;
  payload = event.payload;
  correlation_id = event.correlation_id;
  status = pending;
  attempts = 0;
  last_error = none;
  created_at = env.now;
  sent_at = none;
  locked_at = none;
  locked_by = none;
  next_retry_at = env.now;
  max_attempts = default_to 5 event.max_attempts;
  event_id = some (default_to env.random_uuid event.event_id);
  lock_version = 0;
  trace_context = elim env.trace_context [ [] ↦ none | entry ∷ more ↦ some (entry ∷ more) ];
}

abbrev pub save_gateway_row : Reply (Unit {0}) → (ℕ → OutboxRow) → Prog GatewayDatabase OutboxRow
save_gateway_row (fails e) row s = threw e s
save_gateway_row (gives _) row s =
    returned (row s.next_id)
      (record s { table = s.table ++ (row s.next_id ∷ []); next_id = suc s.next_id })

unfoldable pub insert_outbox_event :
    GatewayTransactionEnv → GatewayOutboxEventInput → Prog GatewayDatabase OutboxRow
insert_outbox_event env event = save_gateway_row env.save (new_gateway_row env event)

unfoldable pub run_with_outbox_event :
    GatewayTransactionEnv
    → Prog GatewayDatabase (Unit {0})
    → GatewayOutboxEventInput
    → Prog GatewayDatabase OutboxRow
unfolding start_gateway_transaction insert_outbox_event commit_gateway_transaction
    rollback_gateway_transaction
run_with_outbox_event env work event =
    await env.connect
    >> (start_gateway_transaction env.start
        >> finally
            (try_catch
              (do
                work
                row ← insert_outbox_event env event
                commit_gateway_transaction env.commit
                pure row)
              (λ err. rollback_gateway_transaction env.rollback >> throw err))
            (await env.release))

unfoldable pub record_event :
    GatewayTransactionEnv → GatewayOutboxEventInput → Prog GatewayDatabase OutboxRow
unfolding run_with_outbox_event
record_event env event = run_with_outbox_event env (pure tt) event
