-- ===== src/Topology.antt =====
-- libs/contracts/src/topology/topology.ts: names, back-off delays, and where an outbox row goes;
-- apps/messaging/src/reliability/topology.service.ts: what is declared to the broker.
pub mod Delays
pub mod Isolation
mod Examples
use contract_driven_messagin.Common.{
  ℕ, zero, suc, ◌*◌, ◌^◌, min, String, Bool, ◌||◌, List, [], ◌∷◌, Option, none, some, str_eq,
  if◌then◌else◌,
}

pub data Exchange : Type 0 where
  main dlx dlq_exchange events : Exchange

pub data Queue : Type 0 where
  work retry_queue dlq events_audit : Queue

abbrev pub work_key : String
work_key = "messaging.work"

abbrev pub retry_key : String
retry_key = "messaging.retry"

abbrev pub dead_key : String
dead_key = "messaging.dead"

abbrev pub max_attempts_default : ℕ
max_attempts_default = 5

abbrev pub base_delay_ms : ℕ
base_delay_ms = 2000

abbrev pub max_delay_ms : ℕ
max_delay_ms = 30000

-- `Math.min(BASE * Math.pow(2, attempt - 1), MAX)`; at attempt 0 the power is a half.
unfoldable pub retry_delay_ms : ℕ → ℕ
retry_delay_ms zero = min 1000 max_delay_ms
retry_delay_ms (suc n) = min (base_delay_ms * 2 ^ n) max_delay_ms

abbrev pub create_message_v1 : String
create_message_v1 = "CreateMessageEvent.v1"

abbrev pub create_message_v2 : String
create_message_v2 = "CreateMessageEvent.v2"

-- `COMMAND_EVENT_TYPES.has(eventType)`.
unfoldable pub is_command_event_type : String → Bool
is_command_event_type t = str_eq t create_message_v1 || str_eq t create_message_v2

pub data RouteKind : Type 0 where
  command domain_event : RouteKind

pub record OutboxRoute : Type 0 where
  pub exchange : Exchange
  pub routing_key : String
  pub kind : RouteKind

abbrev pub command_route : OutboxRoute
command_route = record { exchange = main; routing_key = work_key; kind = command }

abbrev pub domain_event_route : OutboxRoute
domain_event_route = record { exchange = events; routing_key = ""; kind = domain_event }

unfoldable pub resolve_outbox_route : String → OutboxRoute
resolve_outbox_route t = if is_command_event_type t then command_route else domain_event_route

pub data ExchangeType : Type 0 where
  direct fanout : ExchangeType

-- One call on the channel. A queue comes with its `x-dead-letter-exchange` and
-- `x-dead-letter-routing-key`.
pub data Declaration : Type 0 where
  assert_exchange : Exchange → ExchangeType → Declaration
  assert_queue : Queue → Option Exchange → Option String → Declaration
  bind_queue : Queue → Exchange → String → Declaration

unfoldable pub assert_topology : List Declaration
assert_topology =
    assert_exchange dlx fanout
    ∷ assert_exchange dlq_exchange direct
    ∷ assert_exchange main direct
    ∷ assert_queue dlq none none
    ∷ bind_queue dlq dlq_exchange dead_key
    ∷ assert_queue retry_queue (some main) (some work_key)
    ∷ bind_queue retry_queue main retry_key
    ∷ assert_queue work (some dlx) none
    ∷ bind_queue work main work_key
    ∷ bind_queue dlq dlx ""
    ∷ assert_exchange events fanout
    ∷ assert_queue events_audit none none
    ∷ bind_queue events_audit events ""
    ∷ []
