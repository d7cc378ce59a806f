-- ===== src/Gateway/Samples.antt =====
-- Services that answer, and a gateway without requests.
use contract_driven_messagin.Common.{true, [], none, gives}
use contract_driven_messagin.Contracts.Events.{normal, success, failure}
use contract_driven_messagin.Database.{commits}
use contract_driven_messagin.Gateway.Send.{SendEnv, GatewayState}
use contract_driven_messagin.Gateway.{GatewayTransactionEnv}

abbrev pub transaction : GatewayTransactionEnv
transaction = record {
  connect = gives tt;
  start = gives tt;
  save = gives tt;
  commit = commits;
  rollback = gives tt;
  release = gives tt;
  now = 1000;
  random_uuid = "u1";
  trace_context = [];
}

abbrev pub services : SendEnv
services = record {
  safe_parse_v1 = λ e. success e;
  safe_parse_v2 = λ e. failure [];
  parse_payload_v2 = λ p. gives (record {
    subject = p.subject;
    content = p.content;
    recipient = p.recipient;
    priority = normal;
    metadata = [];
  });
  json_v1 = λ _. "{}";
  json_v2 = λ _. "{}";
  event_uuid = "e1";
  now_iso = "2026-01-01T00:00:00Z";
  transaction = transaction;
  lifecycle_reaches = λ _. true;
}

abbrev pub idle : GatewayState
idle = record {
  database = record { table = []; before = none; next_id = 1 };
  lifecycle = [];
  metrics = [];
}
