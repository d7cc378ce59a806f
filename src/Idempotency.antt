-- ===== src/Idempotency.antt =====
-- apps/messaging/src/idempotency/idempotency.service.ts, the ledger outside a transaction.
pub mod Ledger
pub mod Codes
mod Examples
use contract_driven_messagin.Common.{
  ℕ, suc, String, Bool, true, false, List, [], ◌∷◌, ◌++◌, Option, none, some, Thrown, primitive,
  object, returned, threw, Prog, ◌>>=◌, pure, throw, try_catch, Reply, gives, fails, str_eq,
  if◌then◌else◌,
}
use contract_driven_messagin.ErrorClassifier.{is_code}
use contract_driven_messagin.Database.{
  Database, ProcessedEvent, is_event, is_processed, unique_violation,
}

pub record MarkProcessedOptions : Type 0 where
  pub event_id : String
  pub event_type : String
  pub correlation_id : Option String
  pub result : Option String

pub record IdempotencyResult : Type 0 where
  pub is_duplicate : Bool
  pub processed_at : ℕ
  pub result : Option String

abbrev pub marked_row : MarkProcessedOptions → ℕ → ℕ → ProcessedEvent
marked_row options now id = record {
  id = id;
  event_id = options.event_id;
  event_type = options.event_type;
  correlation_id = options.correlation_id;
  result = options.result;
  processed_at = now;
}

abbrev pub with_processed : List ProcessedEvent → Database → Database
with_processed ps s = record s {
  tables = record s.tables { processed = ps };
  sequences = record s.sequences { processed_id = suc s.sequences.processed_id };
}

-- `this.repo.save(record)`.
unfoldable pub save_mark :
    Reply (Unit {0}) → MarkProcessedOptions → ℕ → Prog Database ProcessedEvent
save_mark (fails e) options now s = threw e s
save_mark (gives _) options now s =
    let row = marked_row options now s.sequences.processed_id in
    elim (is_processed options.event_id s.tables.processed) [
      | true ↦ threw unique_violation (with_processed s.tables.processed s)
      | false ↦ returned row (with_processed (s.tables.processed ++ (row ∷ [])) s)
    ]

abbrev pub first_of : String → List ProcessedEvent → Option ProcessedEvent
first_of event_id [] = none
first_of event_id (p ∷ ps) = if is_event event_id p then some p else first_of event_id ps

unfoldable pub find_by_event_id : Reply (Unit {0}) → String → Prog Database (Option ProcessedEvent)
find_by_event_id (fails e) event_id s = threw e s
find_by_event_id (gives _) event_id s = returned (first_of event_id s.tables.processed) s

abbrev pub own_or : Option String → Option String → Option String
own_or none d = d
own_or (some c) d = some c

unfoldable pub extract_pg_code : Thrown → Option String
extract_pg_code (primitive s) = none
extract_pg_code (object e) = own_or e.code e.driver_code

abbrev pub duplicate_of : ℕ → Option ProcessedEvent → IdempotencyResult
duplicate_of now (some p) = record {
  is_duplicate = true;
  processed_at = p.processed_at;
  result = p.result;
}
duplicate_of now none = record { is_duplicate = true; processed_at = now; result = none }

unfoldable pub answer_duplicate :
    Reply (Unit {0}) → String → ℕ → Thrown → Prog Database IdempotencyResult
unfolding extract_pg_code find_by_event_id
answer_duplicate found event_id now err = elim (is_code "23505" (extract_pg_code err)) [
  | true ↦ find_by_event_id found event_id >>= λ existing. pure (duplicate_of now existing)
  | false ↦ throw err
]

unfoldable pub check_and_mark :
    Reply (Unit {0}) → Reply (Unit {0}) → MarkProcessedOptions → ℕ → Prog Database IdempotencyResult
unfolding save_mark answer_duplicate
check_and_mark saved found options now =
    try_catch
      (save_mark saved options now >>= λ row.
        pure (record { is_duplicate = false; processed_at = row.processed_at; result = none }))
      (answer_duplicate found options.event_id now)
