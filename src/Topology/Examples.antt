-- ===== src/Topology/Examples.antt =====
-- The topology's theorems with a broker that follows the bindings literally.
use contract_driven_messagin.Common.{String, ◌≡◌, refl, Bool}
use contract_driven_messagin.Topology.{
  Exchange, Queue, events_audit, events, assert_topology, is_command_event_type,
  resolve_outbox_route,
}
use contract_driven_messagin.Topology.Isolation.{
  is_bound, is_fanout, Reaches, delivered, resolve_outbox_route-Reaches,
}

abbrev literal_broker : Exchange → String → Queue → Bool
literal_broker e k q = is_bound (is_fanout assert_topology e) assert_topology e k q

Reaches-audit : Reaches literal_broker events "" events_audit ""
unfolding assert_topology
Reaches-audit = delivered refl

resolve_outbox_route-Reaches_example : events_audit ≡ events_audit
unfolding resolve_outbox_route is_command_event_type
resolve_outbox_route-Reaches_example =
    resolve_outbox_route-Reaches literal_broker (λ e k q. refl) "MessagePersisted" refl
      Reaches-audit
