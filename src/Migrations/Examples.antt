-- ===== src/Migrations/Examples.antt =====
-- The migrations on an empty database, and the columns that the code reads.
use contract_driven_messagin.Common.{
  ◌≡◌, refl, inl, true, some, none, [], Option, List, String, map,
}
use contract_driven_messagin.Migrations.{
  Schema, Column, TableSchema, create, create_all, run_migrations, revert_migrations, find_table,
}
use contract_driven_messagin.Migrations.Messaging.{messaging_migrations}
use contract_driven_messagin.Migrations.Gateway.{gateway_migrations}
use contract_driven_messagin.Migrations.Revert.{
  all_migrations_new, revert_migrations-run_migrations,
}

abbrev empty : Schema
empty = record { tables = []; indices = [] }

all_new_on_empty : all_migrations_new messaging_migrations empty ≡ true
unfolding create create_all
all_new_on_empty = refl

abbrev column_names : Option TableSchema → List String
column_names none = []
column_names (some t) = map (λ (c : Column). c.name) t.columns

abbrev tables_after : Option Schema → String → List String
tables_after none n = []
tables_after (some s) n = column_names (find_table n s.tables)

-- The columns of `OutboxEvent` and of `GatewayOutboxEvent`, in the order in which they were added.
outbox_columns :
    tables_after (run_migrations messaging_migrations empty) "outbox_events"
    ≡ tables_after (run_migrations gateway_migrations empty) "gateway_outbox_events"
unfolding create create_all run_migrations
outbox_columns = refl

revert_migrations-run_migrations_example :
    (s' : Schema) × (run_migrations messaging_migrations empty ≡ some s')
    × (revert_migrations messaging_migrations s' ≡ some empty)
revert_migrations-run_migrations_example =
    revert_migrations-run_migrations messaging_migrations empty (inl (0, refl)) all_new_on_empty
