-- ===== src/Lib.antt =====
-- contract-driven-messaging-platform: models and theorems of its reliability core.
--
-- A gateway accepts HTTP requests and stores events in its outbox table; a relay polls the table and
-- publishes the rows to RabbitMQ; the messaging service consumes the events, stores each of them once
-- in PostgreSQL together with a `MessagePersisted` row in its own outbox, and a second relay
-- publishes that. Retries go through a retry queue with a back-off; what cannot be handled ends in a
-- dead-letter queue.
--
-- Files, and the code that each models (paths from the root of the repository):
--   Common             lists, tests and numbers; `Effects` has programs that change a state and may
--                      throw, `Endings` the rules for what holds at their end.
--   Topology           libs/contracts/src/topology/topology.ts (`resolveOutboxRoute`, `retryDelayMs`)
--                      and apps/messaging/src/reliability/topology.service.ts (`assertTopology`).
--   RetryPolicy        libs/contracts/src/outbox/outbox-retry-policy.ts.
--   Outbox             the outbox table of apps/messaging/src/entities/outbox-event.entity.ts, and
--                      SELECT and UPDATE on it.
--   AmqpClient         the lazily opened channel of the relays and of the retry publisher.
--   Relay              apps/messaging/src/outbox/outbox-relay.service.ts: `Rows` has its SQL
--                      statements, `publish_one` and `run_relay_tick` are `publishOne` and
--                      `runRelayTick`.
--   Admin              apps/messaging/src/outbox/outbox-admin.service.ts; `Requests` is
--                      outbox-admin.controller.ts beside it, behind the guard.
--   Contracts          libs/contracts/src/events: `SchemaVersion` is dispatch-schema-version.ts,
--                      `Events` has the inferred types, validate-event.ts and the upcast, `Schemas`
--                      the schemas, over the combinators of `Zod`, `Objects` the objects that the
--                      code builds, `Typed` the cast of parsed data to the inferred types, and `Json` what
--                      an event's text is read as.
--   ErrorClassifier    apps/messaging/src/reliability/error-classifier.ts.
--   Database           the messaging service's tables and a transaction on one connection.
--   OutboxTransaction  apps/messaging/src/outbox/outbox-transaction.service.ts.
--   AttemptTracker     apps/messaging/src/reliability/retry-attempt-tracker.service.ts.
--   MessagingService   apps/messaging/src/messaging.service.ts.
--   Consumer           apps/messaging/src/messaging.controller.ts (`Handler` and
--                      `Recovery`) and
--                      apps/messaging/src/reliability/retry-publisher.service.ts (`Retry`).
--   DeadLetter         apps/messaging/src/reliability/dlq-consumer.service.ts (`handleDlqMessage`).
--   Messages           apps/messaging/src/messages/messages.service.ts.
--   Migrations         apps/messaging/src/migrations and apps/gateway/src/migrations.
--   Lifecycle          libs/contracts/src/lifecycle/event-lifecycle-subscriber.ts.
--   InternalApiKey     libs/common/src/security/internal-api-key.guard.ts, the guard of the
--                      operators' routes.
--   Idempotency        apps/messaging/src/idempotency/idempotency.service.ts.
--   Gateway            apps/gateway/src/outbox/gateway-outbox-transaction.service.ts; `Send` is
--                      apps/gateway/src/app.controller.ts with
--                      libs/contracts/src/events/build-create-message-event.ts, `Relay` is
--                      gateway-outbox-relay.service.ts, `Replay` gateway-outbox-admin.service.ts and
--                      `Requests` gateway-outbox-admin.controller.ts of apps/gateway/src/outbox.
--   Logging            apps/messaging/src/interceptors/logging.interceptor.ts.
--   Journey            the way of a request from the gateway's handlers over its outbox and relay to
--                      the consumer's tables.
--
-- How the code is read. A method is a function from the state before it to a result, or what it
-- throws, and the state after it. What a database, a broker, a clock or a library answers is an
-- argument, so a theorem that quantifies over it covers every failure at every call. One SQL
-- statement is one atomic step on a list of rows, its ties and RETURNING rows in table order; a row
-- that another statement holds is skipped by `SKIP LOCKED`. A COMMIT whose connection is lost may
-- have happened or not. A sequence is not rolled back. The application and the database share one
-- clock, in milliseconds. A JavaScript number is a natural number, a JSON column its text, a Buffer
-- its UTF-8 text; zod's parsers, the driver's JSON and OpenTelemetry's carriers are arguments. What
-- zod's documentation says of each combinator that the schemas use is the hypothesis
-- `IsDocumented`, which a parser written out in `Contracts.Samples` meets. How RabbitMQ and NestJS
-- bring a published message to the handler is not part of the model: a delivery has the payload
-- that the handler is given, in `Journey` the parsed body. A database failure that is reported as a
-- unique violation comes from the unique index (`IsHonest`). The loops run over finite lists;
-- `decimal` divides by ten with fuel n + 1, which is enough.
--
-- Not modelled: spans, the logs but those of the interceptor, health checks, timers and shutdown,
-- environment variables and their parsing, and the framework's wiring. `channel.ack` and
-- `channel.nack` are taken not to throw.
pub mod Common
pub mod Topology
pub mod RetryPolicy
pub mod Outbox
pub mod AmqpClient
pub mod Relay
pub mod Admin
pub mod Contracts
pub mod ErrorClassifier
pub mod Database
pub mod OutboxTransaction
pub mod AttemptTracker
pub mod MessagingService
pub mod Idempotency
pub mod Consumer
pub mod DeadLetter
pub mod Messages
pub mod Migrations
pub mod Lifecycle
pub mod InternalApiKey
pub mod Journey
pub mod Gateway
pub mod Logging
