-- ===== src/Lifecycle.antt =====
-- libs/contracts/src/lifecycle/event-lifecycle-subscriber.ts: what a test waits for.
pub mod Waiters
pub mod Answers
pub mod Waits
mod Examples
use contract_driven_messagin.Common.{
  ℕ, suc, ◌+◌, String, Bool, true, false, ◌&&◌, not, List, [], ◌∷◌, ◌++◌, map, Option, none, some,
  any, keep, ◌==◌, str_eq, if◌then◌else◌,
}
use contract_driven_messagin.Contracts.Events.{ValidationFailureDetail}
use contract_driven_messagin.Consumer.{
  LifecycleStage, emitted, received, validated, rejected, persisted,
}

pub record EventLifecycleRecord : Type 0 where
  pub stage : LifecycleStage
  pub service : String
  pub event_type : String
  pub event_id : String
  pub correlation_id : String
  pub timestamp : String
  pub errors : Option (List ValidationFailureDetail)

abbrev pub stage_name : LifecycleStage → String
stage_name emitted = "emitted"
stage_name received = "received"
stage_name validated = "validated"
stage_name rejected = "rejected"
stage_name persisted = "persisted"

-- The calls of `waitFor` are numbered; a call's waiter is told from others by the number.
pub record Waiter : Type 0 where
  pub call : ℕ
  pub event_id : String
  pub stage : LifecycleStage

-- How the promise of a call is settled: with a record, or by the timer's error, which lists what was
-- observed.
pub data Settled : Type 0 where
  resolved : EventLifecycleRecord → Settled
  timed_out : List EventLifecycleRecord → Settled

-- `timers` are the timers that run, each by the waiter that it closes over.
pub record Subscriber : Type 0 where
  pub records : List EventLifecycleRecord
  pub waiters : List Waiter
  pub timers : List Waiter
  pub settled : List (Waiter × Settled)
  pub next_call : ℕ
  pub acks : ℕ

-- What the queue hands over: nothing when the consumer is cancelled, a text that is no JSON, or a
-- record.
pub data Arrival : Type 0 where
  cancelled malformed : Arrival
  parsed : EventLifecycleRecord → Arrival

unfoldable pub matches : Waiter → EventLifecycleRecord → Bool
matches w r = str_eq r.event_id w.event_id && str_eq (stage_name r.stage) (stage_name w.stage)

-- From the last waiter to the first: the waiters that are left, and those resolved, in that order.
unfoldable pub notify_waiters :
    EventLifecycleRecord → List Waiter → List Waiter × List (Waiter × Settled)
unfolding matches
notify_waiters r [] = ([], [])
notify_waiters r (w ∷ ws) =
    let (rest, done) = notify_waiters r ws in
    if matches w r then (rest, done ++ ((w, resolved r) ∷ [])) else (w ∷ rest, done)

abbrev pub is_done : List (Waiter × Settled) → Waiter → Bool
is_done done w = any (λ d. w.call == d.0.call) done

unfoldable pub on_arrival : Arrival → Subscriber → Subscriber
unfolding notify_waiters
on_arrival cancelled s = s
on_arrival malformed s = record s { acks = suc s.acks }
on_arrival (parsed r) s =
    let (rest, done) = notify_waiters r s.waiters in
    record s {
      records = s.records ++ (r ∷ []);
      waiters = rest;
      timers = keep (λ w. not (is_done done w)) s.timers;
      settled = s.settled ++ done;
      acks = suc s.acks;
    }

abbrev pub find_record : Waiter → List EventLifecycleRecord → Option EventLifecycleRecord
find_record w [] = none
find_record w (r ∷ rs) = if matches w r then some r else find_record w rs

abbrev pub wait_or_resolve : Waiter → Subscriber → Option EventLifecycleRecord → Subscriber
wait_or_resolve w s (some existing) = record s {
  settled = s.settled ++ ((w, resolved existing) ∷ []);
  next_call = suc s.next_call;
}
wait_or_resolve w s none = record s {
  waiters = s.waiters ++ (w ∷ []);
  timers = s.timers ++ (w ∷ []);
  next_call = suc s.next_call;
}

unfoldable pub wait_for : String → LifecycleStage → Subscriber → Subscriber
unfolding matches
wait_for event_id stage s =
    let w : Waiter = record { call = s.next_call; event_id = event_id; stage = stage } in
    wait_or_resolve w s (find_record w s.records)

abbrev pub find_timer : ℕ → List Waiter → Option Waiter
find_timer c [] = none
find_timer c (w ∷ ws) = if w.call == c then some w else find_timer c ws

abbrev pub without_call : ℕ → List Waiter → List Waiter
without_call c ws = keep (λ w. not (w.call == c)) ws

abbrev pub expire : ℕ → Subscriber → Option Waiter → Subscriber
expire c s none = s
expire c s (some w) = record s {
  waiters = without_call c s.waiters;
  timers = without_call c s.timers;
  settled = s.settled ++ ((w, timed_out s.records) ∷ []);
}

-- The timer of a call fires, if it still runs.
unfoldable pub on_timeout : ℕ → Subscriber → Subscriber
on_timeout c s = expire c s (find_timer c s.timers)

pub data Happening : Type 0 where
  arrives : Arrival → Happening
  waits : String → LifecycleStage → Happening
  times_out : ℕ → Happening

unfoldable pub happen : Happening → Subscriber → Subscriber
unfolding on_arrival wait_for on_timeout
happen (arrives a) s = on_arrival a s
happen (waits event_id stage) s = wait_for event_id stage s
happen (times_out c) s = on_timeout c s

unfoldable pub happen_all : List Happening → Subscriber → Subscriber
unfolding happen
happen_all [] s = s
happen_all (h ∷ hs) s = happen_all hs (happen h s)

abbrev pub new_subscriber : Subscriber
new_subscriber = record {
  records = [];
  waiters = [];
  timers = [];
  settled = [];
  next_call = 0;
  acks = 0;
}
