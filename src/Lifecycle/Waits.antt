-- ===== src/Lifecycle/Waits.antt =====
-- No wait is lost, and every one is settled once and rightly.
use contract_driven_messagin.Common.{
  ℕ, suc, ◌+◌, ◌<◌, ◌≡◌, refl, ap, true, false, not, List, [], ◌∷◌, ◌++◌, Option, none, some, any,
  keep, All, All-append, ltb, if◌then◌else◌, arith, String,
}
use contract_driven_messagin.Consumer.{LifecycleStage}
use contract_driven_messagin.Lifecycle.{
  EventLifecycleRecord, Waiter, resolved, timed_out, Subscriber, Arrival, cancelled, malformed,
  parsed, matches, notify_waiters, on_arrival, find_record, wait_or_resolve, wait_for, find_timer,
  without_call, expire, on_timeout, Happening, arrives, waits, times_out, happen, happen_all,
  new_subscriber,
}
use contract_driven_messagin.Lifecycle.Answers.{
  IsRight, keep_holds, still-IsRight, notified-IsRight, find_record-eq-some, find_record-eq-none,
  find_timer-eq-some,
}
use contract_driven_messagin.Lifecycle.Waiters.{
  any-append, All-keep, All-zip, HaveDistinctCalls, HaveDistinctCalls-keep,
  HaveDistinctCalls-append, left_waiters, cleared_timers, count, calls, settled_calls,
  count-settled_calls, count-calls, count-notify_waiters, count-without_call,
}

pub record IsConsistent (s : Subscriber) : Type 0 where
  pub timed : s.timers ≡ s.waiters
  pub distinct : HaveDistinctCalls s.waiters
  pub below : All (λ w. w.call < s.next_call) s.waiters
  pub waiting : All (λ w. any (matches w) s.records ≡ false) s.waiters
  pub answered : All (IsRight s.records) s.settled
  pub once :
      (c : ℕ)
      → count c (calls s.waiters) + count c (settled_calls s.settled)
        ≡ (if ltb c s.next_call then 1 else 0)

below_next : (n : ℕ) (ws : List Waiter) → All (λ w. w.call < n) ws → All (λ w. w.call < suc n) ws
below_next n [] h = tt
below_next n (w ∷ ws) h = (omega (arith, h.0), below_next n ws h.1)

module _ (s : Subscriber) (ok : IsConsistent s) where
  arrival-IsConsistent : (a : Arrival) → IsConsistent (on_arrival a s)
  unfolding on_arrival
  arrival-IsConsistent cancelled = ok
  arrival-IsConsistent malformed = record {
    timed = ok.timed;
    distinct = ok.distinct;
    below = ok.below;
    waiting = ok.waiting;
    answered = ok.answered;
    once = ok.once;
  }
  arrival-IsConsistent (parsed r) = record {
    timed = rw ok.timed (cleared_timers r s.waiters ok.distinct);
    distinct = rw (left_waiters r s.waiters) (HaveDistinctCalls-keep _ s.waiters ok.distinct);
    below = rw (left_waiters r s.waiters) (All-keep _ _ s.waiters ok.below);
    waiting = rw (left_waiters r s.waiters) (
        All-zip _ _ _ not_yet (keep (λ w. not (matches w r)) s.waiters)
          (All-keep _ _ s.waiters ok.waiting) (keep_holds (λ w. not (matches w r)) s.waiters));
    answered =
        All-append _ s.settled _ (still-IsRight s.records _ s.settled ok.answered)
          (notified-IsRight r s.records s.waiters);
    once = λ c. omega (
      arith,
      ok.once c,
      count-notify_waiters c r s.waiters,
      count-settled_calls c s.settled (notify_waiters r s.waiters).1,
    );
  }
    where
      not_yet :
          (w : Waiter)
          → any (matches w) s.records ≡ false
          → not (matches w r) ≡ true
          → any (matches w) (s.records ++ (r ∷ [])) ≡ false
      not_yet w a b = ground (arith, any-append (matches w) s.records (r ∷ []))

  wait-IsConsistent :
      (event_id : String) (stage : LifecycleStage) → IsConsistent (wait_for event_id stage s)
  unfolding wait_for
  wait-IsConsistent event_id stage = by_find _ refl
    where
      w : Waiter
      w = record { call = s.next_call; event_id = event_id; stage = stage }

      by_find :
          (o : Option EventLifecycleRecord)
          → find_record w s.records ≡ o
          → IsConsistent (wait_or_resolve w s (find_record w s.records))
      by_find (some r) e = rw e (record {
        timed = ok.timed;
        distinct = ok.distinct;
        below = below_next s.next_call s.waiters ok.below;
        waiting = ok.waiting;
        answered = All-append _ s.settled _ ok.answered (find_record-eq-some w s.records e, tt);
        once =
            λ c. ground (arith, ok.once c, count-settled_calls c s.settled ((w, resolved r) ∷ []));
      })
      by_find none e = rw e (record {
        timed = ap (λ ws. ws ++ (w ∷ [])) ok.timed;
        distinct = HaveDistinctCalls-append w s.waiters ok.distinct ok.below;
        below =
            All-append _ s.waiters _ (below_next s.next_call s.waiters ok.below) (omega arith, tt);
        waiting = All-append _ s.waiters _ ok.waiting (find_record-eq-none w s.records e, tt);
        answered = ok.answered;
        once = λ c. ground (arith, ok.once c, count-calls c s.waiters (w ∷ []));
      })

  timeout-IsConsistent : (c : ℕ) → IsConsistent (on_timeout c s)
  unfolding on_timeout
  timeout-IsConsistent c = by_find _ refl
    where
      by_find :
          (o : Option Waiter)
          → find_timer c s.timers ≡ o
          → IsConsistent (expire c s (find_timer c s.timers))
      by_find none e = rw e ok
      by_find (some w) e =
          let (call, seen, found) =
            find_timer-eq-some (λ v. any (matches v) s.records ≡ false) c s.waiters
              (rw ok.timed at e) ok.waiting in
          rw e (record {
            timed = ap (without_call c) ok.timed;
            distinct = HaveDistinctCalls-keep _ s.waiters ok.distinct;
            below = All-keep _ _ s.waiters ok.below;
            waiting = All-keep _ _ s.waiters ok.waiting;
            answered = All-append _ s.settled _ ok.answered (seen, tt);
            once = λ d. ground (
              arith,
              ok.once d,
              ok.once c,
              count-without_call c d s.waiters,
              count-settled_calls d s.settled ((w, timed_out s.records) ∷ []),
            );
          })

happen-IsConsistent : (h : Happening) (s : Subscriber) → IsConsistent s → IsConsistent (happen h s)
unfolding happen
happen-IsConsistent (arrives a) s ok = arrival-IsConsistent s ok a
happen-IsConsistent (waits event_id stage) s ok = wait-IsConsistent s ok event_id stage
happen-IsConsistent (times_out c) s ok = timeout-IsConsistent s ok c

happen_all_from-IsConsistent :
    (hs : List Happening) (s : Subscriber) → IsConsistent s → IsConsistent (happen_all hs s)
unfolding happen_all
happen_all_from-IsConsistent [] s ok = ok
happen_all_from-IsConsistent (h ∷ hs) s ok =
    happen_all_from-IsConsistent hs (happen h s) (happen-IsConsistent h s ok)

-- In any order of arriving messages, calls of `waitFor` and timers that fire, every call is pending
-- or settled, and not both or twice. A call that is pending has its timer, and no record that it asks
-- for has arrived. A call is resolved only with a record that has arrived and that it asks for, and
-- rejected only with a list of what had arrived, none of which it asks for.
pub happen_all-IsConsistent : (hs : List Happening) → IsConsistent (happen_all hs new_subscriber)
happen_all-IsConsistent hs = happen_all_from-IsConsistent hs new_subscriber (record {
  timed = refl;
  distinct = tt;
  below = tt;
  waiting = tt;
  answered = tt;
  once = λ c. ground arith;
})
