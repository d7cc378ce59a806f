-- ===== src/Gateway/Examples.antt =====
-- Requests at a gateway whose services answer.
use contract_driven_messagin.Common.{◌≡◌, refl, none, Ends, final_state, length}
use contract_driven_messagin.Topology.{create_message_v1, create_message_v2}
use contract_driven_messagin.Gateway.Send.{send_test_message, send_test_message_v2}
use contract_driven_messagin.Gateway.Acceptance.{
  IsAnswered, IsUncertain, send_test_message-IsAnswered,
}
use contract_driven_messagin.Gateway.Samples.{services, idle}
use contract_driven_messagin.Gateway.{GatewayOutboxEventInput}

abbrev input : GatewayOutboxEventInput
input = record {
  event_type = create_message_v1;
  payload = "{}";
  correlation_id = none;
  event_id = none;
  max_attempts = none;
}

send_test_message-IsAnswered_example :
    Ends
      (IsAnswered services create_message_v1 idle)
      (λ _ s'. IsUncertain idle s')
      (send_test_message services "c1" idle)
    × Ends
        (IsAnswered services create_message_v2 idle)
        (λ _ s'. IsUncertain idle s')
        (send_test_message_v2 services "c1" idle)
send_test_message-IsAnswered_example = send_test_message-IsAnswered services "c1" idle refl

-- The valid request adds a row, the refused one none.
send_test_message_run :
    (length (final_state (send_test_message services "c1" idle)).database.table ≡ 1)
    × (length (final_state (send_test_message_v2 services "c1" idle)).database.table ≡ 0)
unfolding send_test_message send_test_message_v2
send_test_message_run = (refl, refl)
