-- ===== src/Database.antt =====
-- The messaging service's PostgreSQL database, one connection to it, and a transaction on that
-- connection: the tables of apps/messaging/src/entities, with the unique index on
-- `processed_events.event_id`. A sequence keeps its value when a transaction is rolled back.
use contract_driven_messagin.Common.{
  ℕ, String, Bool, true, false, List, Option, none, some, any, str_eq, Thrown, object, returned,
  threw, Prog, Reply, gives, fails,
}
use contract_driven_messagin.Outbox.{Table}

pub record Message : Type 0 where
  pub id : ℕ
  pub title : String
  pub content : String
  pub sender : String
  pub recipient : Option String
  pub created_at : ℕ

pub record ProcessedEvent : Type 0 where
  pub id : ℕ
  pub event_id : String
  pub event_type : String
  pub correlation_id : Option String
  pub result : Option String
  pub processed_at : ℕ

pub record EventAttempt : Type 0 where
  pub event_id : String
  pub attempts : ℕ
  pub updated_at : ℕ

pub record Tables : Type 0 where
  pub messages : List Message
  pub processed : List ProcessedEvent
  pub outbox : Table
  pub attempts : List EventAttempt

pub record Sequences : Type 0 where
  pub messages_id : ℕ
  pub processed_id : ℕ
  pub outbox_id : ℕ

-- `before` holds the tables as they were when the open transaction started.
pub record Database : Type 0 where
  pub tables : Tables
  pub before : Option Tables
  pub sequences : Sequences

-- How COMMIT ends. When the connection is lost, the server may have committed all the same.
pub data CommitReply : Type 0 where
  commits : CommitReply
  lost_before lost_after : Thrown → CommitReply

unfoldable pub start_transaction : Reply (Unit {0}) → Prog Database (Unit {0})
start_transaction (fails e) s = threw e s
start_transaction (gives _) s = returned tt (record s { before = some s.tables })

unfoldable pub commit_transaction : CommitReply → Prog Database (Unit {0})
commit_transaction commits s = returned tt (record s { before = none })
commit_transaction (lost_before e) s = threw e s
commit_transaction (lost_after e) s = threw e (record s { before = none })

-- The tables without what the open transaction wrote.
abbrev pub discarded : Option Tables → Database → Database
discarded none s = s
discarded (some t) s = record s { tables = t; before = none }

-- A ROLLBACK that fails has lost the connection, and the server discards the writes.
unfoldable pub rollback_transaction : Reply (Unit {0}) → Prog Database (Unit {0})
rollback_transaction (fails e) s = threw e (discarded s.before s)
rollback_transaction (gives _) s = returned tt (discarded s.before s)

abbrev pub is_event : String → ProcessedEvent → Bool
is_event event_id p = str_eq p.event_id event_id

abbrev pub is_processed : String → List ProcessedEvent → Bool
is_processed event_id ps = any (is_event event_id) ps

abbrev pub unique_violation : Thrown
unique_violation = object (record {
  is_error = true;
  is_validation = false;
  code = some "23505";
  driver_code = some "23505";
  constructor_name = "QueryFailedError";
  message = "duplicate key value violates unique constraint";
})
