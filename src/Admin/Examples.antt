-- ===== src/Admin/Examples.antt =====
-- The replay theorems at a table with one failed and one pending row.
use contract_driven_messagin.Common.{ℕ, ◌≡◌, [], ◌∷◌, none, some, refl}
use contract_driven_messagin.Outbox.{OutboxRow, Table, Status, failed, pending}
use contract_driven_messagin.Outbox.Update.{updated}
use contract_driven_messagin.Contracts.Value.{get_field}
use contract_driven_messagin.InternalApiKey.{
  CarriesKey, can_activate, check_provided, admit, safe_compare,
}
use contract_driven_messagin.InternalApiKey.Examples.{node, node-IsDocumented, with_key}
use contract_driven_messagin.Admin.Requests.{
  IsGuarded, serve_replay_one, replay_one, serve_replay_failed, replay_failed, ok, not_found,
  refused, guarded, replay_one-IsGuarded,
}
use contract_driven_messagin.Admin.{replay_by_id}

abbrev row : ℕ → Status → OutboxRow
row id status = record {
  id = id;
  event_type = "MessagePersisted";
  payload = "{}";
  correlation_id = none;
  status = status;
  attempts = 5;
  last_error = none;
  created_at = 0;
  sent_at = none;
  locked_at = none;
  locked_by = none;
  next_retry_at = 20;
  max_attempts = 5;
  event_id = none;
  lock_version = 5;
  trace_context = none;
}

abbrev rows : Table
rows = row 1 failed ∷ row 2 pending ∷ []

replay_one-IsGuarded_example :
    IsGuarded
      (CarriesKey node (some "secret") (with_key "secret"))
      30
      rows
      (serve_replay_one (some 1) 30 rows)
      (replay_one node (some "secret") (λ _. some 1) (with_key "secret") "1" 30 rows)
    × IsGuarded
        (CarriesKey node (some "secret") (with_key "secret"))
        30
        rows
        (serve_replay_failed none 30 rows)
        (replay_failed node (some "secret") (with_key "secret") none 30 rows)
replay_one-IsGuarded_example =
    replay_one-IsGuarded node node-IsDocumented (some "secret") (with_key "secret") 30 rows
      (λ _. some 1) "1" none

-- With the key, the failed row is replayed, the pending one is not found; without it, neither.
replay_one_run :
    ((replay_one node (some "secret") (λ _. some 1) (with_key "secret") "1" 30 rows).0
      ≡ ok (record { replayed = 1; ids = 1 ∷ [] }))
    × ((replay_one node (some "secret") (λ _. some 2) (with_key "secret") "2" 30 rows).0
        ≡ not_found)
    × (replay_one node (some "secret") (λ _. some 1) (with_key "other") "1" 30 rows
        ≡ (refused "Invalid or missing internal API key", rows))
unfolding replay_one replay_by_id can_activate check_provided admit safe_compare get_field guarded
    updated
replay_one_run = (refl, refl, refl)
