-- ===== src/Gateway/Requests.antt =====
-- apps/gateway/src/outbox/gateway-outbox-admin.controller.ts: the operators' routes of the gateway.
use contract_driven_messagin.Common.{ℕ, String, Bool, List, Option, none, some}
use contract_driven_messagin.Contracts.Value.{Fields}
use contract_driven_messagin.InternalApiKey.{
  Node, IsDocumented, can_activate, CarriesKey, can_activate-IsExactly,
}
use contract_driven_messagin.Outbox.{Table}
use contract_driven_messagin.Admin.{is_failed_row, is_failed_of_type}
use contract_driven_messagin.Admin.Requests.{
  Response, ok, bad_request, guarded, AreReplayed, IsGuarded, same-AreReplayed,
  update_where-AreReplayed, is_failed_row-failed, is_failed_of_type-failed, guarded-IsGuarded,
}
use contract_driven_messagin.Gateway.Replay.{
  GatewayOutboxRowSummary, list_failed, gateway_replay_by_id, gateway_replay_all_failed,
}

-- `listFailed`, which reads only.
abbrev pub serve_failed : Table → Response (List GatewayOutboxRowSummary) × Table
serve_failed t = (ok (list_failed t), t)

unfoldable pub gateway_list_failed :
    Node → Option String → Fields → Table → Response (List GatewayOutboxRowSummary) × Table
unfolding can_activate guarded list_failed
gateway_list_failed node key headers t = guarded (can_activate node key headers) serve_failed t

-- `replayOne`, after the pipe.
abbrev pub serve_gateway_replay_one : Option ℕ → ℕ → Table → Response Bool × Table
serve_gateway_replay_one none now t = (bad_request, t)
serve_gateway_replay_one (some id) now t =
    let answer = gateway_replay_by_id id now t in (ok answer.0, answer.1)

unfoldable pub gateway_replay_one :
    Node → Option String → (String → Option ℕ) → Fields → String → ℕ → Table → Response Bool × Table
unfolding can_activate guarded gateway_replay_by_id
gateway_replay_one node key parse_int headers id now t =
    guarded (can_activate node key headers) (serve_gateway_replay_one (parse_int id) now) t

abbrev pub serve_gateway_replay_failed : Option String → ℕ → Table → Response ℕ × Table
serve_gateway_replay_failed event_type now t =
    let answer = gateway_replay_all_failed event_type now t in (ok answer.0, answer.1)

unfoldable pub gateway_replay_failed :
    Node → Option String → Fields → Option String → ℕ → Table → Response ℕ × Table
unfolding can_activate guarded gateway_replay_all_failed
gateway_replay_failed node key headers event_type now t =
    guarded (can_activate node key headers) (serve_gateway_replay_failed event_type now) t

module _ (node : Node) (documented : IsDocumented node) (key : Option String) (headers : Fields)
    (now : ℕ) (t : Table) where
  -- The three routes of the gateway, alike: only failed rows may change, and only by a request with
  -- the configured key, which gets what its handler answers; any other request gets 401.
  gateway_replay_one-IsGuarded :
      (parse_int : String → Option ℕ) (id : String) (event_type : Option String)
      → IsGuarded
          (CarriesKey node key headers)
          now
          t
          (serve_failed t)
          (gateway_list_failed node key headers t)
        × IsGuarded
            (CarriesKey node key headers)
            now
            t
            (serve_gateway_replay_one (parse_int id) now t)
            (gateway_replay_one node key parse_int headers id now t)
        × IsGuarded
            (CarriesKey node key headers)
            now
            t
            (serve_gateway_replay_failed event_type now t)
            (gateway_replay_failed node key headers event_type now t)
  unfolding gateway_list_failed gateway_replay_one gateway_replay_failed gateway_replay_by_id
      gateway_replay_all_failed
  gateway_replay_one-IsGuarded parse_int id event_type =
      let exact = can_activate-IsExactly node documented key headers in
      (
        guarded-IsGuarded _ now t _ _ exact (same-AreReplayed now t),
        guarded-IsGuarded _ now t _ _ exact (served (parse_int id)),
        guarded-IsGuarded _ now t _ _ exact (
            update_where-AreReplayed (is_failed_of_type event_type) now
              (is_failed_of_type-failed event_type) t),
      )
    where
      served : (id : Option ℕ) → AreReplayed now t (serve_gateway_replay_one id now t).1
      served none = same-AreReplayed now t
      served (some n) = update_where-AreReplayed (is_failed_row n) now (is_failed_row-failed n) t
