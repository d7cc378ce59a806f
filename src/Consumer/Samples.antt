-- ===== src/Consumer/Samples.antt =====
-- Deliveries, answers and states at which the consumer is run.
use contract_driven_messagin.Common.{
  ◌≡◌, refl, sym, ap, ◌∙◌, String, true, false, [], ◌∷◌, none, some, Thrown, object, Reply, gives,
  fails,
}
use contract_driven_messagin.Contracts.Value.{undefined, get_field}
use contract_driven_messagin.Contracts.Events.{
  gateway, normal, EventV1, EventV2, Schemas, ValidateEventResult, success, failure, valid,
  validate_event, upcast_create_message_event_v1_to_v2,
}
use contract_driven_messagin.AmqpClient.{disconnected, connects}
use contract_driven_messagin.Contracts.SchemaVersion.{
  resolve_schema_version, read_envelope_schema_version, coerce_to_schema_version,
  extract_from_type_suffix, read_envelope_type,
}
use contract_driven_messagin.Database.{commits}
use contract_driven_messagin.OutboxTransaction.{TransactionEnv, IdempotencyInput}
use contract_driven_messagin.OutboxTransaction.Open.{IsHonest}
use contract_driven_messagin.MessagingService.{MessageData}
use contract_driven_messagin.Consumer.Env.{ConsumerEnv}
use contract_driven_messagin.Consumer.Handler.{validated_event, version_of}
use contract_driven_messagin.Consumer.Answer.{outcome_of}
use contract_driven_messagin.Consumer.Deliveries.{Deliveries, AreHonest, AreOf}
use contract_driven_messagin.Consumer.{Delivery, ConsumerState, read_schema_version_header}

abbrev pub sample : EventV1
sample = record {
  event_id = "e1";
  correlation_id = "c1";
  timestamp = "2026-01-01T00:00:00Z";
  source = gateway;
  trace = gateway ∷ [];
  schema_version = none;
  payload = record { subject = "Hello"; content = "World"; recipient = none };
}

-- A library that finds the sample in every payload.
abbrev pub schemas : Schemas
schemas = record {
  safe_parse_v1 = λ _. success sample;
  safe_parse_v2 = λ _. failure [];
  parse_payload_v2 = λ p. gives (record {
    subject = p.subject;
    content = p.content;
    recipient = p.recipient;
    priority = normal;
    metadata = [];
  });
}

abbrev pub transaction : TransactionEnv
transaction = record {
  connect = gives tt;
  start = gives tt;
  ledger_save = gives tt;
  outbox_save = λ _. gives tt;
  commit = commits;
  duplicate_rollback = gives tt;
  rollback = gives tt;
  release = gives tt;
  now = 1000;
  random_uuid = λ _. "u1";
  trace_context = [];
  to_json = λ _. "{}";
}

abbrev pub outage : Thrown
outage = object (record {
  is_error = true;
  is_validation = false;
  code = some "ECONNREFUSED";
  driver_code = none;
  constructor_name = "Error";
  message = "connect ECONNREFUSED";
})

abbrev pub healthy : ConsumerEnv
healthy = record {
  schemas = schemas;
  attempt_query = gives tt;
  transaction = transaction;
  save = gives tt;
  clear_query = gives tt;
  retry_env = record {
    connect = connects;
    published = gives true;
    confirmed = gives tt;
    inject_trace_context = λ hs. hs;
  };
  lifecycle_reaches = λ _. true;
  now = 1000;
  now_iso = "2026-01-01T00:00:01Z";
}

-- No connection for the transaction, while the attempt table answers.
abbrev pub down : ConsumerEnv
down = record healthy { transaction = record transaction { connect = fails outage } }

abbrev pub delivery : Delivery
delivery = record { payload = undefined; content = "{}"; headers = none }

abbrev pub sample_input : IdempotencyInput
sample_input = record {
  event_id = "e1";
  event_type = "CreateMessageEvent.v1";
  correlation_id = some "c1";
}

abbrev pub sample_body : MessageData
sample_body = record { content = some "World"; subject = some "Hello" }

abbrev pub empty : ConsumerState
empty = record {
  database = record {
    tables = record { messages = []; processed = []; outbox = []; attempts = [] };
    before = none;
    sequences = record { messages_id = 1; processed_id = 1; outbox_id = 1 };
  };
  client = disconnected;
  retries = [];
  settled = [];
  lifecycle = [];
  metrics = [];
}

pub honest : IsHonest (gives tt)
honest e h = cc

-- The first delivery meets the outage, the second stores the event, the third is a duplicate.
abbrev pub three_deliveries : Deliveries
three_deliveries = (down, delivery) ∷ (healthy, delivery) ∷ (healthy, delivery) ∷ []

pub three_honest : AreHonest three_deliveries
three_honest = (honest, (honest, (honest, tt)))

-- Every delivery meets the outage.
abbrev pub six_outages : Deliveries
six_outages =
    (down, delivery)
    ∷ (down, delivery)
    ∷ (down, delivery)
    ∷ (down, delivery)
    ∷ (down, delivery)
    ∷ (down, delivery)
    ∷ []

pub six_honest : AreHonest six_outages
six_honest = (honest, (honest, (honest, (honest, (honest, (honest, tt))))))

abbrev pub after_five : ConsumerState
after_five = record empty {
  database = record empty.database {
    tables = record empty.database.tables {
      attempts = record { event_id = "e1"; attempts = 5; updated_at = 900 } ∷ [];
    };
  };
}

abbrev pub sample_v2 : EventV2
sample_v2 = record {
  event_id = "e1";
  correlation_id = "c1";
  timestamp = "2026-01-01T00:00:00Z";
  source = gateway;
  trace = gateway ∷ [];
  payload = record {
    subject = "Hello";
    content = "World";
    recipient = none;
    priority = normal;
    metadata = [];
  };
}

pub sample_valid :
    (env : ConsumerEnv) → env.schemas ≡ schemas → outcome_of env delivery ≡ valid (gives sample_v2)
unfolding validated_event validate_event upcast_create_message_event_v1_to_v2 version_of
    resolve_schema_version read_envelope_schema_version coerce_to_schema_version
    extract_from_type_suffix read_envelope_type read_schema_version_header get_field
sample_valid env h = rw h refl

pub sample_of :
    (env : ConsumerEnv)
    → env.schemas ≡ schemas
    → (event : EventV2) → outcome_of env delivery ≡ valid (gives event)
    → event.event_id ≡ "e1"
sample_of env h event v = ap id_of (sym v ∙ sample_valid env h)
  where
    id_of : ValidateEventResult (Reply EventV2) → String
    id_of (valid (gives e)) = e.event_id
    id_of other = "e1"

abbrev pub stored_once : ConsumerState
stored_once = record empty {
  database = record empty.database {
    tables = record empty.database.tables {
      processed =
          record {
            id = 1;
            event_id = "e1";
            event_type = "CreateMessageEvent.v1";
            correlation_id = none;
            result = none;
            processed_at = 900;
          }
          ∷ [];
    };
  };
}

pub six_of : AreOf "e1" six_outages
six_of = let h = sample_of down refl in (h, (h, (h, (h, (h, (h, tt))))))
