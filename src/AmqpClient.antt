-- ===== src/AmqpClient.antt =====
-- The lazily connected AMQP channel that `OutboxRelayService`, `GatewayOutboxRelayService` and
-- `RetryPublisherService` each keep: `getChannel`, `connectAmqp` (`connect`) and the handlers of
-- the connection's events. An operation starts when the promise in `connecting` has settled.
pub mod Stuck
mod Examples
use contract_driven_messagin.Common.{
  ℕ, ◌+◌, ◌-◌, Bool, true, false, Option, none, some, Thrown, Run, returned, threw, ltb,
  if◌then◌else◌,
}

pub data Settled : Type 0 where
  resolved : Settled
  rejected : Thrown → Settled

-- `channel` and `connection`: the handle is defined. `open_connections` counts the connections
-- whose `error` and `close` handlers are registered and which have not yet emitted `close`.
pub record AmqpClient : Type 0 where
  pub channel : Bool
  pub connection : Bool
  pub connecting : Option Settled
  pub open_connections : ℕ

abbrev pub disconnected : AmqpClient
disconnected = record {
  channel = false;
  connection = false;
  connecting = none;
  open_connections = 0;
}

-- What the broker answers to `amqplib.connect` and then to `createConfirmChannel`.
pub data ConnectReply : Type 0 where
  connects : ConnectReply
  refuses : Thrown → ConnectReply
  opens_no_channel : Thrown → ConnectReply

-- The promise that `connectAmqp()` returns, settled, and what it has assigned by then.
unfoldable pub connect_amqp : ConnectReply → AmqpClient → Run AmqpClient Settled
connect_amqp connects c =
    returned resolved
      (record c { channel = true; connection = true; open_connections = c.open_connections + 1 })
connect_amqp (refuses e) c = returned (rejected e) c
connect_amqp (opens_no_channel e) c = returned (rejected e) (record c { connection = true })

-- `await this.connecting; return this.amqpChannel!`: the result says whether it is defined.
abbrev pub await_connecting : Settled → AmqpClient → Run AmqpClient Bool
await_connecting resolved c = returned c.channel c
await_connecting (rejected e) c = threw e c

abbrev start_connecting : Run AmqpClient Settled → Run AmqpClient Bool
start_connecting (returned p c) = await_connecting p (record c { connecting = some p })
start_connecting (threw e c) = threw e c

unfoldable pub get_channel : ConnectReply → AmqpClient → Run AmqpClient Bool
unfolding connect_amqp
get_channel r c = if c.channel then returned true c else elim c.connecting [
  | some p ↦ await_connecting p c
  | none ↦ start_connecting (connect_amqp r c)
]

-- The `reset` closure.
unfoldable pub reset : AmqpClient → AmqpClient
reset c = record c { channel = false; connection = false; connecting = none }

-- An `error` event, and a `close` event, of a connection with handlers; without one neither comes.
unfoldable pub on_error : AmqpClient → AmqpClient
unfolding reset
on_error c = if ltb 0 c.open_connections then reset c else c

unfoldable pub on_close : AmqpClient → AmqpClient
unfolding reset
on_close c =
    if ltb 0 c.open_connections
    then record (reset c) { open_connections = c.open_connections - 1 }
    else c
