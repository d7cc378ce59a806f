-- ===== src/Journey/Examples.antt =====
-- The way of a request at the samples of the gateway and of the consumer.
use contract_driven_messagin.Common.{[], none, Thrown, primitive, str_eq, if◌then◌else◌}
use contract_driven_messagin.Contracts.Objects.{event_v1_json, event_v2_json}
use contract_driven_messagin.Contracts.Typed.{schemas_of}
use contract_driven_messagin.Contracts.Samples.{sample_uuid, sample_time, sample_zod}
use contract_driven_messagin.Consumer.Env.{ConsumerEnv}
use contract_driven_messagin.Consumer.Samples.{healthy, empty}
use contract_driven_messagin.Gateway.Send.{SendEnv, build_create_message_event_v1}
use contract_driven_messagin.Gateway.Checks.{
  with_schemas, event_v2_of, test_payload, test_payload_v2,
}
use contract_driven_messagin.Gateway.Samples.{services}
use contract_driven_messagin.Journey.{Route}

abbrev zod_error : Thrown
zod_error = primitive "ZodError"

abbrev env : SendEnv
env = record services {
  event_uuid = sample_uuid;
  now_iso = sample_time;
  json_v1 = λ _. "v1";
  json_v2 = λ _. "v2";
}

abbrev checked : SendEnv
checked = with_schemas sample_zod zod_error env

abbrev consumer : ConsumerEnv
consumer = record healthy { schemas = schemas_of sample_zod zod_error }

-- The two texts are read as the events that they stand for.
abbrev route : Route
route = record {
  parse_json = λ s.
      if str_eq s "v1"
      then event_v1_json (build_create_message_event_v1 checked test_payload sample_uuid)
      else event_v2_json (event_v2_of env test_payload_v2 sample_uuid);
  inject = λ _. [];
  instance_id = "relay-1";
  claimed_at = 2000;
  headers = none;
  consumer = consumer;
  state = empty;
}
