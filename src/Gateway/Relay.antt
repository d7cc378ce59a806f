-- ===== src/Gateway/Relay.antt =====
-- apps/gateway/src/outbox/gateway-outbox-relay.service.ts: the statements and the loop of the
-- messaging service's relay, on the gateway's table and with a header of its own name.
use contract_driven_messagin.Common.{ℕ, String, Bool, List, Option, Thrown, Prog, Reply}
use contract_driven_messagin.Outbox.{Table}
use contract_driven_messagin.Relay.Rows.{
  ClaimedRow, claim_batch, mark_sent, mark_failed_attempt, reap_stale_locks, pending_count,
}
use contract_driven_messagin.Relay.{Wire, PublishEnv, RelayState, publish_one, run_relay_tick}

-- The messaging service's header is `x-outbox-id`.
unfoldable pub gateway_wire : (Option (List (String × String)) → List (String × String)) → Wire
gateway_wire inject = record { id_header = "x-gateway-outbox-id"; inject = inject }

unfoldable pub gateway_claim_batch : (ℕ → Bool) → String → ℕ → ℕ → Table → List ClaimedRow × Table
unfolding claim_batch
gateway_claim_batch held instance_id batch_size now t =
    claim_batch held instance_id batch_size now t

unfoldable pub gateway_mark_sent : ℕ → ℕ → ℕ → Table → Bool × Table
unfolding mark_sent
gateway_mark_sent id expected now t = mark_sent id expected now t

unfoldable pub gateway_mark_failed_attempt : ClaimedRow → Thrown → ℕ → Table → Bool × Table
unfolding mark_failed_attempt
gateway_mark_failed_attempt row err now t = mark_failed_attempt row err now t

unfoldable pub gateway_reap_stale_locks : ℕ → ℕ → Table → Table
unfolding reap_stale_locks
gateway_reap_stale_locks ttl_ms now t = reap_stale_locks ttl_ms now t

unfoldable pub gateway_pending_count : Table → ℕ
unfolding pending_count
gateway_pending_count t = pending_count t

unfoldable pub gateway_publish_one :
    (Option (List (String × String)) → List (String × String))
    → PublishEnv
    → ClaimedRow
    → Prog RelayState (Unit {0})
unfolding gateway_wire publish_one
gateway_publish_one inject env row = publish_one (gateway_wire inject) env row

unfoldable pub gateway_run_relay_tick :
    (Option (List (String × String)) → List (String × String))
    → Reply (Unit {0})
    → (ℕ → Bool)
    → String
    → ℕ
    → ℕ
    → (ClaimedRow → PublishEnv)
    → Prog RelayState (Unit {0})
unfolding gateway_wire run_relay_tick
gateway_run_relay_tick inject = run_relay_tick (gateway_wire inject)
