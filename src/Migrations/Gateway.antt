-- ===== src/Migrations/Gateway.antt =====
-- apps/gateway/src/migrations. The names in unquoted SQL are lower case, as the database folds them.
use contract_driven_messagin.Common.{true, none, some, List, [], ◌∷◌}
use contract_driven_messagin.Migrations.{
  Migration, integer, int, varchar, text, jsonb, timestamp, column, index, create_table,
  create_index, drop_table, drop_index, drop_index_if_exists,
}

abbrev pub create_gateway_outbox_events_table : Migration
create_gateway_outbox_events_table = record {
  name = "CreateGatewayOutboxEventsTable1700000000101";
  up =
      (create_table (record {
        name = "gateway_outbox_events";
        columns =
            (record (column "id" integer none) { is_primary = true; is_generated = true })
            ∷ (column "event_type" varchar (some 255))
            ∷ (column "payload" jsonb none)
            ∷ (record (column "correlation_id" varchar (some 36)) { is_nullable = true })
            ∷ (record (column "status" varchar (some 16)) { default = some "'pending'" })
            ∷ (record (column "attempts" int none) { default = some "0" })
            ∷ (record (column "last_error" text none) { is_nullable = true })
            ∷ (record (column "created_at" timestamp none) { default = some "CURRENT_TIMESTAMP" })
            ∷ (record (column "sent_at" timestamp none) { is_nullable = true })
            ∷ (record (column "locked_at" timestamp none) { is_nullable = true })
            ∷ (record (column "locked_by" varchar (some 128)) { is_nullable = true })
            ∷ (record (column "next_retry_at" timestamp none) {
              default = some "CURRENT_TIMESTAMP";
            })
            ∷ (record (column "max_attempts" int none) { default = some "5" })
            ∷ (record (column "event_id" varchar (some 36)) { is_nullable = true })
            ∷ (record (column "lock_version" int none) { default = some "0" })
            ∷ (record (column "trace_context" jsonb none) { is_nullable = true })
            ∷ [];
      }))
      ∷ (create_index
          (index "IDX_gateway_outbox_events_status" "gateway_outbox_events" ("status" ∷ [])))
      ∷ (create_index (
          index "IDX_gateway_outbox_events_event_type" "gateway_outbox_events" ("event_type" ∷ [])))
      ∷ (create_index (
          index "IDX_gateway_outbox_events_correlation_id" "gateway_outbox_events"
            ("correlation_id" ∷ [])))
      ∷ (create_index (
          index "IDX_gateway_outbox_events_status_next_retry_at" "gateway_outbox_events"
            ("status" ∷ "next_retry_at" ∷ [])))
      ∷ (create_index (
          index "IDX_gateway_outbox_events_status_locked_at" "gateway_outbox_events"
            ("status" ∷ "locked_at" ∷ [])))
      ∷ (create_index
          (record (index "idx_gateway_outbox_events_event_id" "gateway_outbox_events"
            ("event_id" ∷ [])) { is_unique = true; where_present = some "event_id" }))
      ∷ [];
  down =
      (drop_index_if_exists "idx_gateway_outbox_events_event_id")
      ∷ (drop_index "IDX_gateway_outbox_events_status_locked_at")
      ∷ (drop_index "IDX_gateway_outbox_events_status_next_retry_at")
      ∷ (drop_index "IDX_gateway_outbox_events_correlation_id")
      ∷ (drop_index "IDX_gateway_outbox_events_event_type")
      ∷ (drop_index "IDX_gateway_outbox_events_status")
      ∷ (drop_table "gateway_outbox_events")
      ∷ [];
}

abbrev pub gateway_migrations : List Migration
gateway_migrations = create_gateway_outbox_events_table ∷ []
