-- ===== src/Consumer/Retry.antt =====
-- apps/messaging/src/reliability/retry-publisher.service.ts.
use contract_driven_messagin.Common.{
  ℕ, String, Bool, true, false, ◌∷◌, none, Thrown, object, returned, threw, Prog, ◌>>=◌, await,
  Reply, gives, fails, decimal,
}
use contract_driven_messagin.Contracts.Value.{Fields}
use contract_driven_messagin.Topology.{main, retry_key, retry_delay_ms}
use contract_driven_messagin.AmqpClient.{ConnectReply, get_channel}
use contract_driven_messagin.Consumer.{ConsumerState, RetryMessage}

-- What the broker answers, and OpenTelemetry's injection into the headers.
pub record RetryEnv : Type 0 where
  pub connect : ConnectReply
  pub published : Reply Bool
  pub confirmed : Reply (Unit {0})
  pub inject_trace_context : Fields → Fields

unfoldable pub retry_message : RetryEnv → String → Fields → ℕ → RetryMessage
unfolding decimal retry_delay_ms
retry_message env payload headers attempt_number = record {
  exchange = main;
  routing_key = retry_key;
  content = payload;
  headers = env.inject_trace_context headers;
  expiration = decimal (retry_delay_ms attempt_number);
}

abbrev pub error_named : String → String → Thrown
error_named name message = object (record {
  is_error = true;
  is_validation = false;
  code = none;
  driver_code = none;
  constructor_name = name;
  message = message;
})

-- An undefined channel throws; `false` means that the channel buffered the message but its buffer
-- is full.
unfoldable pub publish_copy : Bool → RetryMessage → Reply Bool → Prog ConsumerState Bool
publish_copy false m reply s =
    threw (error_named "TypeError" "Cannot read properties of undefined") s
publish_copy true m (fails e) s = threw e s
publish_copy true m (gives b) s = returned b (record s { retries = m ∷ s.retries })

unfoldable pub retry_channel : ConnectReply → Prog ConsumerState Bool
unfolding get_channel
retry_channel reply s = elim (get_channel reply s.client) [
  | returned ch c ↦ returned ch (record s { client = c })
  | threw e c ↦ threw e (record s { client = c })
]

unfoldable pub wait_if_published : Reply (Unit {0}) → Bool → Prog ConsumerState (Unit {0})
wait_if_published confirmed true s = await confirmed s
wait_if_published confirmed false s =
    threw (error_named "Error" "Retry publish back-pressured (local buffer full)") s

unfoldable pub publish_to_retry : RetryEnv → String → Fields → ℕ → Prog ConsumerState (Unit {0})
unfolding retry_channel retry_message publish_copy wait_if_published
publish_to_retry env payload headers attempt_number = do
  ch ← retry_channel env.connect
  published ← publish_copy ch (retry_message env payload headers attempt_number) env.published
  wait_if_published env.confirmed published
