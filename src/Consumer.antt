-- ===== src/Consumer.antt =====
-- The messaging service's consumer: its state and the calls that
-- apps/messaging/src/messaging.controller.ts makes on the channel, the metrics and the lifecycle
-- publisher. `Retry` is the retry publisher, `Handler` the handlers and `Recovery` the catch block.
-- A handler is a program over this state for one delivery.
pub mod Retry
pub mod Env
pub mod Recovery
pub mod Handler
pub mod Ending
pub mod Ledger
pub mod Legacy
pub mod Answer
pub mod Safety
pub mod Deliveries
pub mod ExactlyOnce
pub mod Budget
pub mod Progress
pub mod Samples
mod Examples
mod PartExamples
use contract_driven_messagin.Common.{
  ℕ, ◌+◌, String, Bool, true, false, List, [], ◌∷◌, Option, none, some, Thrown, Run, returned,
  threw, Prog, Reply, gives, fails, if◌then◌else◌, default_to,
}
use contract_driven_messagin.Contracts.Value.{
  Value, undefined, null, number, text, object, Fields, end, find_field, get_field,
}
use contract_driven_messagin.Contracts.Events.{ValidationFailureDetail}
use contract_driven_messagin.ErrorClassifier.{ErrorClass}
use contract_driven_messagin.Topology.{Exchange}
use contract_driven_messagin.AmqpClient.{AmqpClient}
use contract_driven_messagin.Database.{Database}

pub record Delivery : Type 0 where
  pub payload : Value
  pub content : String
  pub headers : Option Fields

pub data Settlement : Type 0 where
  ack nack_requeue nack_dead_letter : Settlement

pub data LifecycleStage : Type 0 where
  emitted received validated rejected persisted : LifecycleStage

pub record LifecycleRecord : Type 0 where
  pub stage : LifecycleStage
  pub event_type : String
  pub event_id : String
  pub correlation_id : String
  pub errors : Option (List ValidationFailureDetail)

pub data Outcome : Type 0 where
  success duplicate_event retry dlq failure : Outcome

pub data Metric : Type 0 where
  messages_processed : String → Outcome → Metric
  messages_failed : String → ErrorClass → Metric
  retry_count : String → Metric
  timer_ended : Outcome → Metric

pub record RetryMessage : Type 0 where
  pub exchange : Exchange
  pub routing_key : String
  pub content : String
  pub headers : Fields
  pub expiration : String

-- Lists grow at the front. `retries` holds what was handed to the retry publisher's channel, and
-- `settled` the answers given for this delivery.
pub record ConsumerState : Type 0 where
  pub database : Database
  pub client : AmqpClient
  pub retries : List RetryMessage
  pub settled : List Settlement
  pub lifecycle : List LifecycleRecord
  pub metrics : List Metric

abbrev pub on_database : {A : Type 0} → Prog Database A → Prog ConsumerState A
on_database m s = elim (m s.database) [
  | returned a d ↦ returned a (record s { database = d })
  | threw e d ↦ threw e (record s { database = d })
]

unfoldable pub settle : Settlement → Prog ConsumerState (Unit {0})
settle x s = returned tt (record s { settled = x ∷ s.settled })

unfoldable pub count_metric : Metric → Prog ConsumerState (Unit {0})
count_metric m s = returned tt (record s { metrics = m ∷ s.metrics })

-- `EventLifecyclePublisher.publish`, which swallows every failure: the argument says whether the
-- record reaches the channel.
unfoldable pub publish_lifecycle : Bool → LifecycleRecord → Prog ConsumerState (Unit {0})
publish_lifecycle reached r s =
    returned tt (record s { lifecycle = if reached then r ∷ s.lifecycle else s.lifecycle })

abbrev pub headers_of : Delivery → Fields
headers_of d = default_to end d.headers

abbrev pub number_or_zero : Value → ℕ
number_or_zero (number n) = n
number_or_zero _ = 0

unfoldable pub read_retry_count : Delivery → ℕ
unfolding get_field
read_retry_count d = number_or_zero (get_field "x-retry-count" (headers_of d))

unfoldable pub read_schema_version_header : Delivery → Value
unfolding get_field
read_schema_version_header d = get_field "x-schema-version" (headers_of d)

abbrev pub text_or_unknown : Option Value → String
text_or_unknown (some (text s)) = s
text_or_unknown _ = "unknown"

-- `eventId` and `correlationId` of a payload that is not valid.
unfoldable pub extract_identifiers_for_rejection : Value → String × String
unfolding find_field
extract_identifiers_for_rejection (object fs) =
    (text_or_unknown (find_field "eventId" fs), text_or_unknown (find_field "correlationId" fs))
extract_identifiers_for_rejection _ = ("unknown", "unknown")
