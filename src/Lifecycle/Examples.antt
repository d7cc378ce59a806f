-- ===== src/Lifecycle/Examples.antt =====
-- Two waits for one record, and one that times out.
use contract_driven_messagin.Common.{◌≡◌, refl, none, [], ◌∷◌, List}
use contract_driven_messagin.Consumer.{emitted, persisted}
use contract_driven_messagin.Lifecycle.{
  EventLifecycleRecord, malformed, parsed, matches, notify_waiters, on_arrival, wait_for,
  on_timeout, Happening, arrives, waits, times_out, happen, happen_all, new_subscriber,
}
use contract_driven_messagin.Lifecycle.Waits.{IsConsistent, happen_all-IsConsistent}
use contract_driven_messagin.Lifecycle.Waiters.{settled_calls}

abbrev saved : EventLifecycleRecord
saved = record {
  stage = persisted;
  service = "messaging";
  event_type = "CreateMessageEvent.v1";
  event_id = "e1";
  correlation_id = "c1";
  timestamp = "2026-01-01T00:00:00Z";
  errors = none;
}

abbrev history : List Happening
history =
    waits "e1" persisted
    ∷ waits "e1" emitted
    ∷ waits "e1" persisted
    ∷ arrives malformed
    ∷ arrives (parsed saved)
    ∷ times_out 1
    ∷ times_out 0
    ∷ waits "e1" persisted
    ∷ []

-- The later of two waiters is resolved first; the timer of a resolved call does nothing.
settled_in_order : settled_calls (happen_all history new_subscriber).settled ≡ 2 ∷ 0 ∷ 1 ∷ 3 ∷ []
unfolding happen_all happen on_arrival notify_waiters matches wait_for on_timeout
settled_in_order = refl

happen_all-IsConsistent_example : IsConsistent (happen_all history new_subscriber)
happen_all-IsConsistent_example = happen_all-IsConsistent history
