-- ===== src/Journey/Arrival.antt =====
-- A request that the gateway accepted arrives in the consumer's tables.
use contract_driven_messagin.Contracts.SchemaVersion.{SchemaVersion}
use contract_driven_messagin.Contracts.Zod.{Zod}
