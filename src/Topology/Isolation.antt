-- ===== src/Topology/Isolation.antt =====
-- Where a published message can end up, given the declared topology. The broker is RabbitMQ: what
-- it routes is a parameter, with the binding rule of AMQP 0-9-1 as the hypothesis on it.
use contract_driven_messagin.Common.{
  String, ◌≡◌, refl, subst, Bool, true, false, ◌&&◌, ◌||◌, List, [], ◌∷◌, Option, none, some, arith,
  str_eq, default_to, if◌then◌else◌,
}
use contract_driven_messagin.Topology.{
  Exchange, main, dlx, dlq_exchange, events, Queue, work, retry_queue, dlq, events_audit, fanout,
  Declaration, assert_exchange, assert_queue, bind_queue, assert_topology, is_command_event_type,
  OutboxRoute, command_route, domain_event_route, resolve_outbox_route, work_key,
}

abbrev pub same_exchange : Exchange → Exchange → Bool
same_exchange main main = true
same_exchange dlx dlx = true
same_exchange dlq_exchange dlq_exchange = true
same_exchange events events = true
same_exchange _ _ = false

abbrev pub same_queue : Queue → Queue → Bool
same_queue work work = true
same_queue retry_queue retry_queue = true
same_queue dlq dlq = true
same_queue events_audit events_audit = true
same_queue _ _ = false

abbrev pub is_fanout : List Declaration → Exchange → Bool
is_fanout [] e = false
is_fanout (assert_exchange e' fanout ∷ ds) e = same_exchange e' e || is_fanout ds e
is_fanout (_ ∷ ds) e = is_fanout ds e

-- A binding of the exchange to the queue exists, whose key is the message's or is ignored.
abbrev pub is_bound : Bool → List Declaration → Exchange → String → Queue → Bool
is_bound ignores_key [] e k q = false
is_bound ignores_key (bind_queue q' e' k' ∷ ds) e k q =
    (same_queue q' q && same_exchange e' e && (ignores_key || str_eq k' k))
    || is_bound ignores_key ds e k q
is_bound ignores_key (_ ∷ ds) e k q = is_bound ignores_key ds e k q

-- The dead-letter exchange and key of a queue.
abbrev pub dead_letter_of : List Declaration → Queue → Option (Exchange × Option String)
dead_letter_of [] q = none
dead_letter_of (assert_queue work (some e) k ∷ ds) work = some (e, k)
dead_letter_of (assert_queue retry_queue (some e) k ∷ ds) retry_queue = some (e, k)
dead_letter_of (assert_queue dlq (some e) k ∷ ds) dlq = some (e, k)
dead_letter_of (assert_queue events_audit (some e) k ∷ ds) events_audit = some (e, k)
dead_letter_of (_ ∷ ds) q = dead_letter_of ds q

-- The rule: a message goes to exactly the queues that a matching binding names.
abbrev pub FollowsBindings : (Exchange → String → Queue → Bool) → Type 0
FollowsBindings routes =
    (e : Exchange) (k : String) (q : Queue)
    → routes e k q ≡ is_bound (is_fanout assert_topology e) assert_topology e k q

module _ (routes : Exchange → String → Queue → Bool) where
  -- The queues and keys under which a message published to `(e, k)` may stand, now or after it has
  -- been dead-lettered any number of times.
  pub data Reaches (e : Exchange) (k : String) : Queue → String → Type 0 where
    delivered : {q : Queue} → routes e k q ≡ true → Reaches e k q k
    dead_lettered :
        {q q' : Queue} {key : String} (e' : Exchange) (key' : Option String)
        → Reaches e k q key
        → dead_letter_of assert_topology q ≡ some (e', key')
        → routes e' (default_to key key') q' ≡ true
        → Reaches e k q' (default_to key key')

  module _ (follows : FollowsBindings routes) where
    events_routes : (k : String) (q : Queue) → routes events k q ≡ true → q ≡ events_audit
    unfolding assert_topology
    events_routes k work h = ground (arith, follows events k work)
    events_routes k retry_queue h = ground (arith, follows events k retry_queue)
    events_routes k dlq h = ground (arith, follows events k dlq)
    events_routes k events_audit h = refl

    audit_is_final :
        (q : Queue) (e : Exchange) (k : Option String)
        → q ≡ events_audit
        → ¬ (dead_letter_of assert_topology q ≡ some (e, k))
    unfolding assert_topology
    audit_is_final work e k h = cc
    audit_is_final retry_queue e k h = cc
    audit_is_final dlq e k h = cc
    audit_is_final events_audit e k h = λ d. cc

    Reaches-events : {k key : String} {q : Queue} → Reaches events k q key → q ≡ events_audit
    Reaches-events {k} {q = q} (delivered h) = events_routes k q h
    Reaches-events (dead_lettered {q = p} e' key' r d h) =
        absurd (audit_is_final p e' key' (Reaches-events r) d)

    work_routes : (q : Queue) → routes main work_key q ≡ same_queue q work
    unfolding assert_topology
    work_routes work = ground (arith, follows main work_key work)
    work_routes retry_queue = ground (arith, follows main work_key retry_queue)
    work_routes dlq = ground (arith, follows main work_key dlq)
    work_routes events_audit = ground (arith, follows main work_key events_audit)

    -- An outbox row that is no command is published where no chain of routing and dead-lettering
    -- brings it to another queue than the audit queue.
    pub resolve_outbox_route-Reaches :
        (t : String) {q : Queue} {key : String}
        → is_command_event_type t ≡ false
        → Reaches (resolve_outbox_route t).exchange (resolve_outbox_route t).routing_key q key
        → q ≡ events_audit
    unfolding resolve_outbox_route
    resolve_outbox_route-Reaches t {q} {key} no_command r =
        Reaches-events
          (subst (λ b. Reaches (route b).exchange (route b).routing_key q key) no_command r)
      where
        route : Bool → OutboxRoute
        route b = if b then command_route else domain_event_route

    -- A command is routed to the work queue, and to no other.
    resolve_outbox_route-routes :
        (t : String) (q : Queue)
        → is_command_event_type t ≡ true
        → routes (resolve_outbox_route t).exchange (resolve_outbox_route t).routing_key q
          ≡ same_queue q work
    unfolding resolve_outbox_route
    resolve_outbox_route-routes t q is_command = rw is_command (work_routes q)
