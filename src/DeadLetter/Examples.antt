-- ===== src/DeadLetter/Examples.antt =====
-- A dead letter that was retried twice.
use contract_driven_messagin.Common.{true, ◌≡◌, refl, [], ◌∷◌, none, some, gives}
use contract_driven_messagin.Contracts.Value.{
  undefined, number, text, array, object, nil, cons, end, field,
}
use contract_driven_messagin.Contracts.Events.{gateway, normal, EventV2, failure}
use contract_driven_messagin.AmqpClient.{connects}
use contract_driven_messagin.Database.{commits}
use contract_driven_messagin.Consumer.Env.{ConsumerEnv}
use contract_driven_messagin.Consumer.{Delivery}
use contract_driven_messagin.DeadLetter.{handle_dlq_message}

abbrev event : EventV2
event = record {
  event_id = "e1";
  correlation_id = "c1";
  timestamp = "2026-01-01T00:00:00Z";
  source = gateway;
  trace = gateway ∷ [];
  payload = record {
    subject = "Hello";
    content = "World";
    recipient = none;
    priority = normal;
    metadata = [];
  };
}

abbrev services : ConsumerEnv
services = record {
  schemas = record {
    safe_parse_v1 = λ _. failure [];
    safe_parse_v2 = λ _. failure [];
    parse_payload_v2 = λ _. gives event.payload;
  };
  attempt_query = gives tt;
  transaction = record {
    connect = gives tt;
    start = gives tt;
    ledger_save = gives tt;
    outbox_save = λ _. gives tt;
    commit = commits;
    duplicate_rollback = gives tt;
    rollback = gives tt;
    release = gives tt;
    now = 1000;
    random_uuid = λ _. "u1";
    trace_context = [];
    to_json = λ _. "{}";
  };
  save = gives tt;
  clear_query = gives tt;
  retry_env = record {
    connect = connects;
    published = gives true;
    confirmed = gives tt;
    inject_trace_context = λ hs. hs;
  };
  lifecycle_reaches = λ _. true;
  now = 1000;
  now_iso = "2026-01-01T00:00:01Z";
}

abbrev retried_once : Delivery
retried_once = record {
  payload = undefined;
  content = "{}";
  headers = some (
      field "x-retry-count" (number 1) (
        field "x-death" (array (cons (object (field "queue" (text "messaging.retry") end)) nil))
          end));
}

-- Every message is acked once, a cancelled consumer nothing.
handle_dlq_message_run :
    (handle_dlq_message
        (λ _. none)
        (some (record { headers = none; content = "x"; routing_key = "k" }))
        (record { logged = []; landed = []; acked = 0 })
      ≡ record {
        logged =
            record {
              correlation_id = none;
              error_class = "UNKNOWN";
              retry_count = 0;
              first_error = "unknown";
              failed_at = "unknown";
              original_queue = "unknown";
              death_reason = "unknown";
              routing_key = "k";
              payload = text "x";
            }
            ∷ [];
        landed = ("UNKNOWN", "unknown") ∷ [];
        acked = 1;
      })
unfolding handle_dlq_message
handle_dlq_message_run = refl
