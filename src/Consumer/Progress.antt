-- ===== src/Consumer/Progress.antt =====
-- A valid new event is stored when the services work.
use contract_driven_messagin.Common.{◌≡◌, ◌∷◌, gives}
use contract_driven_messagin.Contracts.Events.{EventV2}
use contract_driven_messagin.Database.{Database, Message, commits}
use contract_driven_messagin.OutboxTransaction.{IdempotentRunResult, duplicate, processed_now}
use contract_driven_messagin.Consumer.Env.{ConsumerEnv, Handled, nothing, null_answer, stored}
use contract_driven_messagin.Consumer.{ack, ConsumerState}

-- Every call that storing an event makes is answered.
pub record IsUp (env : ConsumerEnv) : Type 0 where
  pub attempt : env.attempt_query ≡ gives tt
  pub connect : env.transaction.connect ≡ gives tt
  pub start : env.transaction.start ≡ gives tt
  pub ledger : env.transaction.ledger_save ≡ gives tt
  pub save : env.save ≡ gives tt
  pub outbox : env.transaction.outbox_save 0 ≡ gives tt
  pub commit : env.transaction.commit ≡ commits
  pub release : env.transaction.release ≡ gives tt
  pub clear : env.clear_query ≡ gives tt

abbrev IsNew : EventV2 → IdempotentRunResult Message → Database → Type 0
IsNew event duplicate d = ⊥
IsNew event (processed_now m) d = m.content ≡ event.payload.content

abbrev pub IsStored : EventV2 → ConsumerState → Handled → ConsumerState → Type 0
IsStored event s nothing s' = ⊥
IsStored event s null_answer s' = ⊥
IsStored event s (stored m) s' =
    (m.content ≡ event.payload.content) × (s'.settled ≡ ack ∷ s.settled) × (s'.retries ≡ s.retries)
