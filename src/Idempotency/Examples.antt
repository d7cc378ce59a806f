-- ===== src/Idempotency/Examples.antt =====
-- The ledger's theorems at a ledger with one event.
use contract_driven_messagin.Common.{◌≡◌, refl, true, false, [], ◌∷◌, none, some, Thrown, object}
use contract_driven_messagin.ErrorClassifier.{is_code}
use contract_driven_messagin.Database.{Database, unique_violation}
use contract_driven_messagin.OutboxTransaction.{is_unique_violation}
use contract_driven_messagin.Idempotency.{MarkProcessedOptions, extract_pg_code}
use contract_driven_messagin.Idempotency.Codes.{is_unique_violation-extract_pg_code}

abbrev marked : Database
marked = record {
  tables = record {
    messages = [];
    processed =
        record {
          id = 1;
          event_id = "e1";
          event_type = "CreateMessageEvent.v1";
          correlation_id = none;
          result = none;
          processed_at = 900;
        }
        ∷ [];
    outbox = [];
    attempts = [];
  };
  before = none;
  sequences = record { messages_id = 1; processed_id = 2; outbox_id = 1 };
}

abbrev options : MarkProcessedOptions
options = record {
  event_id = "e1";
  event_type = "CreateMessageEvent.v1";
  correlation_id = none;
  result = none;
}

is_unique_violation-extract_pg_code_example :
    is_unique_violation unique_violation ≡ is_code "23505" (extract_pg_code unique_violation)
is_unique_violation-extract_pg_code_example =
    is_unique_violation-extract_pg_code unique_violation (λ _. refl)

-- An error with another code of its own, over a driver's unique violation.
abbrev wrapped : Thrown
wrapped = object (record {
  is_error = true;
  is_validation = false;
  code = some "P0001";
  driver_code = some "23505";
  constructor_name = "QueryFailedError";
  message = "";
})

wrapped_differs :
    (is_unique_violation wrapped ≡ true) × (is_code "23505" (extract_pg_code wrapped) ≡ false)
unfolding is_unique_violation extract_pg_code
wrapped_differs = (refl, refl)
