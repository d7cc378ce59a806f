-- ===== src/Gateway/CheckExamples.antt =====
-- Requests and built events at a parser that keeps to the documentation of zod.
use contract_driven_messagin.Common.{◌≡◌, ◌↔◌, refl, false, none, Thrown, primitive}
use contract_driven_messagin.Contracts.Events.{PayloadV1}
use contract_driven_messagin.Contracts.Samples.{
  sample_uuid, sample_time, sample_zod, sample_zod-IsDocumented,
}
use contract_driven_messagin.Gateway.Send.{SendEnv, send_test_message, send_test_message_v2}
use contract_driven_messagin.Gateway.Refusal.{IsRefused}
use contract_driven_messagin.Gateway.Checks.{with_schemas, send_test_message-IsRefused}
use contract_driven_messagin.Gateway.Samples.{services, idle}

abbrev zod_error : Thrown
zod_error = primitive "ZodError"

abbrev env : SendEnv
env = record services { event_uuid = sample_uuid; now_iso = sample_time }

abbrev checked : SendEnv
checked = with_schemas sample_zod zod_error env

abbrev payload : PayloadV1
payload = record { subject = "Hello"; content = "World"; recipient = none }

send_test_message-IsRefused_example :
    (IsRefused idle (send_test_message checked "client-1" idle)
      ↔ (sample_zod.is_uuid "client-1" ≡ false))
    × (IsRefused idle (send_test_message_v2 checked "client-1" idle)
        ↔ (sample_zod.is_uuid "client-1" ≡ false))
send_test_message-IsRefused_example =
    send_test_message-IsRefused sample_zod sample_zod-IsDocumented zod_error env refl refl
      "client-1" idle
