-- ===== src/Migrations/Messaging.antt =====
-- apps/messaging/src/migrations, in the order in which they run. The names in unquoted SQL are lower
-- case, as the database folds them.
use contract_driven_messagin.Common.{true, none, some, List, [], ◌∷◌}
use contract_driven_messagin.Migrations.{
  Migration, integer, int, varchar, text, jsonb, timestamp, column, index, create_table, add_column,
  create_index, drop_table, drop_column, drop_index,
}

abbrev pub create_messages_table : Migration
create_messages_table = record {
  name = "CreateMessagesTable1640000000001";
  up =
      (create_table (record {
        name = "messages";
        columns =
            (record (column "id" integer none) { is_primary = true; is_generated = true })
            ∷ (column "title" varchar (some 255))
            ∷ (column "content" text none)
            ∷ (column "sender" varchar (some 255))
            ∷ (record (column "createdAt" timestamp none) { default = some "CURRENT_TIMESTAMP" })
            ∷ [];
      }))
      ∷ [];
  down = (drop_table "messages") ∷ [];
}

abbrev pub add_recipient_to_messages : Migration
add_recipient_to_messages = record {
  name = "AddRecipientToMessages1640000000002";
  up =
      (add_column "messages"
        (record (column "recipient" varchar (some 255)) { is_nullable = true }))
      ∷ [];
  down = (drop_column "messages" "recipient") ∷ [];
}

abbrev pub create_processed_events_table : Migration
create_processed_events_table = record {
  name = "CreateProcessedEventsTable1700000000003";
  up =
      (create_table (record {
        name = "processed_events";
        columns =
            (record (column "id" integer none) { is_primary = true; is_generated = true })
            ∷ (record (column "event_id" varchar (some 36)) { is_unique = true })
            ∷ (column "event_type" varchar (some 255))
            ∷ (record (column "correlation_id" varchar (some 36)) { is_nullable = true })
            ∷ (record (column "result" jsonb none) { is_nullable = true })
            ∷ (record (column "processed_at" timestamp none) { default = some "CURRENT_TIMESTAMP" })
            ∷ [];
      }))
      ∷ (create_index
          (index "IDX_processed_events_correlation_id" "processed_events" ("correlation_id" ∷ [])))
      ∷ (create_index
          (index "IDX_processed_events_processed_at" "processed_events" ("processed_at" ∷ [])))
      ∷ [];
  down =
      (drop_index "IDX_processed_events_processed_at")
      ∷ (drop_index "IDX_processed_events_correlation_id")
      ∷ (drop_table "processed_events")
      ∷ [];
}

abbrev pub create_outbox_events_table : Migration
create_outbox_events_table = record {
  name = "CreateOutboxEventsTable1700000000004";
  up =
      (create_table (record {
        name = "outbox_events";
        columns =
            (record (column "id" integer none) { is_primary = true; is_generated = true })
            ∷ (column "event_type" varchar (some 255))
            ∷ (column "payload" jsonb none)
            ∷ (record (column "correlation_id" varchar (some 36)) { is_nullable = true })
            ∷ (record (column "status" varchar (some 16)) { default = some "'pending'" })
            ∷ (record (column "attempts" int none) { default = some "0" })
            ∷ (record (column "last_error" text none) { is_nullable = true })
            ∷ (record (column "created_at" timestamp none) { default = some "CURRENT_TIMESTAMP" })
            ∷ (record (column "sent_at" timestamp none) { is_nullable = true })
            ∷ [];
      }))
      ∷ (create_index (index "IDX_outbox_events_status" "outbox_events" ("status" ∷ [])))
      ∷ (create_index (index "IDX_outbox_events_event_type" "outbox_events" ("event_type" ∷ [])))
      ∷ (create_index
          (index "IDX_outbox_events_correlation_id" "outbox_events" ("correlation_id" ∷ [])))
      ∷ [];
  down =
      (drop_index "IDX_outbox_events_correlation_id")
      ∷ (drop_index "IDX_outbox_events_event_type")
      ∷ (drop_index "IDX_outbox_events_status")
      ∷ (drop_table "outbox_events")
      ∷ [];
}

abbrev pub add_relay_locking_to_outbox_events : Migration
add_relay_locking_to_outbox_events = record {
  name = "AddRelayLockingToOutboxEvents1700000000005";
  up =
      (add_column "outbox_events"
        (record (column "locked_at" timestamp none) { is_nullable = true }))
      ∷ (add_column "outbox_events"
          (record (column "locked_by" varchar (some 128)) { is_nullable = true }))
      ∷ (add_column "outbox_events"
          (record (column "next_retry_at" timestamp none) { default = some "CURRENT_TIMESTAMP" }))
      ∷ (add_column "outbox_events"
          (record (column "max_attempts" int none) { default = some "5" }))
      ∷ (create_index (
          index "IDX_outbox_events_status_next_retry_at" "outbox_events"
            ("status" ∷ "next_retry_at" ∷ [])))
      ∷ (create_index (
          index "IDX_outbox_events_status_locked_at" "outbox_events" ("status" ∷ "locked_at" ∷ [])))
      ∷ [];
  down =
      (drop_index "IDX_outbox_events_status_locked_at")
      ∷ (drop_index "IDX_outbox_events_status_next_retry_at")
      ∷ (drop_column "outbox_events" "max_attempts")
      ∷ (drop_column "outbox_events" "next_retry_at")
      ∷ (drop_column "outbox_events" "locked_by")
      ∷ (drop_column "outbox_events" "locked_at")
      ∷ [];
}

abbrev pub create_event_attempts_table : Migration
create_event_attempts_table = record {
  name = "CreateEventAttemptsTable1700000000006";
  up =
      (create_table (record {
        name = "event_attempts";
        columns =
            (record (column "event_id" varchar (some 36)) { is_primary = true })
            ∷ (record (column "attempts" int none) { default = some "0" })
            ∷ (record (column "updated_at" timestamp none) { default = some "CURRENT_TIMESTAMP" })
            ∷ [];
      }))
      ∷ (create_index (index "IDX_event_attempts_updated_at" "event_attempts" ("updated_at" ∷ [])))
      ∷ [];
  down = (drop_index "IDX_event_attempts_updated_at") ∷ (drop_table "event_attempts") ∷ [];
}

abbrev pub add_event_id_and_lock_version_to_outbox_events : Migration
add_event_id_and_lock_version_to_outbox_events = record {
  name = "AddEventIdAndLockVersionToOutboxEvents1700000000007";
  up =
      (add_column "outbox_events"
        (record (column "event_id" varchar (some 36)) { is_nullable = true }))
      ∷ (add_column "outbox_events"
          (record (column "lock_version" int none) { default = some "0" }))
      ∷ (create_index
          (record (index "idx_outbox_events_event_id" "outbox_events" ("event_id" ∷ [])) {
            is_unique = true;
            where_present = some "event_id";
          }))
      ∷ [];
  down =
      (drop_index "idx_outbox_events_event_id")
      ∷ (drop_column "outbox_events" "lock_version")
      ∷ (drop_column "outbox_events" "event_id")
      ∷ [];
}

abbrev pub add_messages_created_at_index_and_outbox_trace_context : Migration
add_messages_created_at_index_and_outbox_trace_context = record {
  name = "AddMessagesCreatedAtIndexAndOutboxTraceContext1700000000008";
  up =
      (create_index (record (index "IDX_messages_created_at" "messages" ("createdAt" ∷ [])) {
        is_descending = true;
      }))
      ∷ (add_column "outbox_events"
          (record (column "trace_context" jsonb none) { is_nullable = true }))
      ∷ [];
  down =
      (drop_column "outbox_events" "trace_context") ∷ (drop_index "IDX_messages_created_at") ∷ [];
}

abbrev pub messaging_migrations : List Migration
messaging_migrations =
    create_messages_table ∷ add_recipient_to_messages ∷ create_processed_events_table
    ∷ create_outbox_events_table ∷ add_relay_locking_to_outbox_events ∷ create_event_attempts_table
    ∷ add_event_id_and_lock_version_to_outbox_events
    ∷ add_messages_created_at_index_and_outbox_trace_context ∷ []
