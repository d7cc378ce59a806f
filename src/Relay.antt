-- ===== src/Relay.antt =====
-- apps/messaging/src/outbox/outbox-relay.service.ts: its SQL statements stand in `Rows`;
-- `publishOne` and the tick are programs over the relay's state. What the database, the broker
-- and the clock answer is an argument. The gateway's relay differs in one header's name.
pub mod Rows
pub mod Claim
pub mod History
pub mod Fencing
pub mod Races
pub mod Publish
pub mod Budget
pub mod Settling
pub mod Tick
pub mod Sending
pub mod Outage
mod Samples
mod Examples
mod TickExamples
use contract_driven_messagin.Common.{
  ℕ, ◌+◌, String, Bool, true, false, not, ◌&&◌, List, [], ◌∷◌, map, Option, none, some, Thrown,
  primitive, object, returned, threw, Prog, ◌>>=◌, ◌>>◌, try_catch, await, Reply, gives, fails, leb,
  ◌==◌, if◌then◌else◌, any, keep, length, default_to, decimal,
}
use contract_driven_messagin.Topology.{OutboxRoute, Exchange, resolve_outbox_route}
use contract_driven_messagin.AmqpClient.{AmqpClient, ConnectReply, get_channel}
use contract_driven_messagin.Outbox.{Table}
use Rows.{ClaimedRow, claim_batch, mark_sent, mark_failed_attempt}

pub record AmqpMessage : Type 0 where
  pub exchange : Exchange
  pub routing_key : String
  pub headers : List (String × String)
  pub body : String

-- `handed` holds the messages handed to the channel, the last first; `fenced` is the counter
-- `outbox_fenced_publishes_total`.
pub record RelayState : Type 0 where
  pub table : Table
  pub client : AmqpClient
  pub handed : List AmqpMessage
  pub fenced : ℕ

-- What the services answer while one row is published, and the time at its end.
pub record PublishEnv : Type 0 where
  pub connect : ConnectReply
  pub published : Reply Bool
  pub confirmed : Reply (Unit {0})
  pub sent_query : Reply (Unit {0})
  pub failed_query : Reply (Unit {0})
  pub now : ℕ

-- The name of the header with the row's id, and the carrier that OpenTelemetry injects in the
-- context restored from the row (`none`: the ambient one).
pub record Wire : Type 0 where
  pub id_header : String
  pub inject : Option (List (String × String)) → List (String × String)

-- `{ ...headers, ...carrier }`, as a list in which a later entry of a name counts.
unfoldable pub message_of : Wire → ClaimedRow → AmqpMessage
unfolding decimal
message_of w row = record {
  exchange = route.exchange;
  routing_key = route.routing_key;
  headers =
      ("x-event-type", row.event_type)
      ∷ ("x-correlation-id", default_to "" row.correlation_id)
      ∷ (w.id_header, decimal row.id)
      ∷ ("x-event-id", default_to "" row.event_id)
      ∷ w.inject row.trace_context;
  body = row.payload;
}
  where
    route : OutboxRoute
    route = resolve_outbox_route row.event_type

unfoldable pub open_channel : ConnectReply → Prog RelayState Bool
open_channel reply s = elim (get_channel reply s.client) [
  | returned ch c ↦ returned ch (record s { client = c })
  | threw e c ↦ threw e (record s { client = c })
]

abbrev pub type_error : Thrown
type_error = object (record {
  is_error = true;
  is_validation = false;
  code = none;
  driver_code = none;
  constructor_name = "TypeError";
  message = "Cannot read properties of undefined";
})

abbrev pub back_pressure : Thrown
back_pressure = object (record {
  is_error = true;
  is_validation = false;
  code = none;
  driver_code = none;
  constructor_name = "Error";
  message = "channel.publish() returned false (back-pressure)";
})

-- `ch.publish(…)`: an undefined channel throws; otherwise the message is handed over unless the
-- call throws, and the answer says whether the channel has room for more.
unfoldable pub publish : Bool → AmqpMessage → Reply Bool → Prog RelayState Bool
publish false m reply s = threw type_error s
publish true m (fails e) s = threw e s
publish true m (gives b) s = returned b (record s { handed = m ∷ s.handed })

-- An UPDATE through `dataSource.query`, which may fail and then changes nothing. A claim that is
-- no longer current counts as fenced.
unfoldable pub fenced_update :
    Reply (Unit {0}) → (Table → Bool × Table) → Prog RelayState (Unit {0})
fenced_update (fails e) change s = threw e s
fenced_update (gives _) change s =
    let result = change s.table in
    returned tt
      (record s { table = result.1; fenced = if result.0 then s.fenced else s.fenced + 1 })

unfoldable pub require : Bool → Thrown → Prog RelayState (Unit {0})
require true e s = returned tt s
require false e s = threw e s

unfoldable pub publish_one : Wire → PublishEnv → ClaimedRow → Prog RelayState (Unit {0})
unfolding open_channel publish fenced_update require
publish_one w env row =
    try_catch
      (do
        ch ← open_channel env.connect
        published ← publish ch (message_of w row) env.published
        require published back_pressure
        await env.confirmed
        fenced_update env.sent_query (mark_sent row.id row.lock_version env.now))
      (λ err. fenced_update env.failed_query (mark_failed_attempt row err env.now))

-- `for (const row of rows) await this.publishOne(row)`: a throw ends the loop.
unfoldable pub publish_all :
    Wire → (ClaimedRow → PublishEnv) → List ClaimedRow → Prog RelayState (Unit {0})
publish_all w env [] s = returned tt s
publish_all w env (row ∷ rows) s = elim (publish_one w (env row) row s) [
  | returned _ s' ↦ publish_all w env rows s'
  | threw e s' ↦ threw e s'
]

-- A claim whose query fails is logged and ends the tick.
unfoldable pub run_relay_tick :
    Wire
    → Reply (Unit {0})
    → (ℕ → Bool)
    → String
    → ℕ
    → ℕ
    → (ClaimedRow → PublishEnv)
    → Prog RelayState (Unit {0})
unfolding claim_batch
run_relay_tick w (fails e) held instance_id batch_size now env s = returned tt s
run_relay_tick w (gives _) held instance_id batch_size now env s =
    let claimed = claim_batch held instance_id batch_size now s.table in
    publish_all w env claimed.0 (record s { table = claimed.1 })
