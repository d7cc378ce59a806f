-- ===== src/Consumer/Env.antt =====
-- What the services answer while a delivery is handled, and what a handler gives.
use contract_driven_messagin.Common.{ℕ, String, Bool, Reply}
use contract_driven_messagin.Contracts.Events.{Schemas}
use contract_driven_messagin.Database.{Message}
use contract_driven_messagin.OutboxTransaction.{TransactionEnv}
use contract_driven_messagin.Consumer.Retry.{RetryEnv}
use contract_driven_messagin.Consumer.{LifecycleStage}

-- What the services answer while one delivery is handled. `now_iso` is the time in the catch block.
pub record ConsumerEnv : Type 0 where
  pub schemas : Schemas
  pub attempt_query : Reply (Unit {0})
  pub transaction : TransactionEnv
  pub save : Reply (Unit {0})
  pub clear_query : Reply (Unit {0})
  pub retry_env : RetryEnv
  pub lifecycle_reaches : LifecycleStage → Bool
  pub now : ℕ
  pub now_iso : String

-- `undefined`, `null`, or the message.
pub data Handled : Type 0 where
  nothing null_answer : Handled
  stored : Message → Handled
