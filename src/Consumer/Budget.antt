-- ===== src/Consumer/Budget.antt =====
-- Redeliveries of an event that is never stored come to an end.
use contract_driven_messagin.Common.{
  ℕ, suc, ◌+◌, ◌-◌, ◌≤◌, ◌≡◌, refl, sym, ap, subst, ◌∙◌, inl, inr, String, false, List, [], ◌∷◌,
  ◌++◌, length, gives, arith, final_state,
}
use contract_driven_messagin.Contracts.Events.{EventV2, valid}
use contract_driven_messagin.Database.{Tables, ProcessedEvent, is_processed}
use contract_driven_messagin.OutboxTransaction.Open.{IsClosed}
use contract_driven_messagin.AttemptTracker.Counts.{count}
use contract_driven_messagin.Consumer.Env.{ConsumerEnv}
use contract_driven_messagin.Consumer.Handler.{handle_message}
use contract_driven_messagin.Consumer.Ending.{
  EventEnd, acked_processed, acked_retried, requeued, dead_lettered,
}
use contract_driven_messagin.Consumer.Ledger.{LedgerStep, unchanged, added}
use contract_driven_messagin.Consumer.Answer.{outcome_of, acked_invalid, event_handled, abandoned}
use contract_driven_messagin.Consumer.Safety.{retryable_budget}
use contract_driven_messagin.Consumer.{Delivery, ConsumerState}
use contract_driven_messagin.Consumer.Deliveries.{
  Deliveries, handle_all, AreHonest, AreOf, DeliveryRun, returns, throws, handling,
  handling-IsClosed,
}

-- The copies that were made and those that the budget still allows.
abbrev spent : String → ConsumerState → ℕ
spent id s = length s.retries + (4 - count id s.database)

event-spent :
    (env : ConsumerEnv) (d : Delivery) (event : EventV2) (s s' : ConsumerState)
    → EventEnd env d event (suc (count event.event_id s.database)) s.settled s.retries s'
    → count event.event_id s'.database ≡ suc (count event.event_id s.database)
    → spent event.event_id s' ≤ spent event.event_id s
event-spent env d event s s' (acked_processed a r found) n = omega (arith, ap length r, n)
event-spent env d event s s' (acked_retried err h a r p c) n =
    omega (arith, ap length r, n, (retryable_budget err _ h).1)
event-spent env d event s s' (requeued err h a few) n =
    omega (arith, few, n, (retryable_budget err _ h).1)
event-spent env d event s s' (dead_lettered err h a r) n = omega (arith, ap length r, n)

handling-spent :
    (id : String) (env : ConsumerEnv) (d : Delivery) (s s' : ConsumerState)
    → ((event : EventV2) → outcome_of env d ≡ valid (gives event) → event.event_id ≡ id)
    → is_processed id s'.database.tables.processed ≡ false
    → DeliveryRun env d s s'
    → spent id s' ≤ spent id s
handling-spent id env d s s' of h (returns (acked_invalid errors v a r b)) =
    omega (arith, ap length r, ap (count id) b)
handling-spent id env d s s' of h (returns (event_handled event v end l c (inl found))) =
    cc (sym h ∙ ap (λ x. is_processed x s'.database.tables.processed) (sym (of event v)) ∙ found)
handling-spent id env d s s' of h (returns (event_handled event v end l c (inr n))) =
    subst (λ x. spent x s' ≤ spent x s) (of event v) (event-spent env d event s s' end n)
handling-spent id env d s s' of h (throws (abandoned a r b cause)) =
    omega (arith, ap length r, ap (count id) b)

step-processed :
    (id other : String) (t t' : Tables)
    → LedgerStep other t t'
    → is_processed id t'.processed ≡ false
    → is_processed id t.processed ≡ false
step-processed id other t t' (unchanged a b c) h = ap (is_processed id) (sym b) ∙ h
step-processed id other t t' (added m p r f e a b c) h =
    append_false t.processed (ap (is_processed id) (sym b) ∙ h)
  where
    append_false :
        (ps : List ProcessedEvent)
        → is_processed id (ps ++ (p ∷ [])) ≡ false
        → is_processed id ps ≡ false
    append_false [] h = refl
    append_false (q ∷ ps) h = ground (arith, append_false ps)

handling-processed :
    (id : String) (env : ConsumerEnv) (d : Delivery) (s s' : ConsumerState)
    → DeliveryRun env d s s'
    → is_processed id s'.database.tables.processed ≡ false
    → is_processed id s.database.tables.processed ≡ false
handling-processed id env d s s' (returns (acked_invalid errors v a r b)) h = rw (sym b) h
handling-processed id env d s s' (returns (event_handled event v end l c n)) h =
    step-processed id event.event_id _ _ l h
handling-processed id env d s s' (throws (abandoned a r b cause)) h = rw (sym b) h

handle_all-processed :
    (id : String) (ds : Deliveries) (s : ConsumerState)
    → IsClosed s.database
    → AreHonest ds
    → is_processed id (handle_all ds s).database.tables.processed ≡ false
    → is_processed id s.database.tables.processed ≡ false
unfolding handle_all
handle_all-processed id [] s closed honest h = h
handle_all-processed id ((env, d) ∷ ds) s closed honest h =
    let k = handling env d s closed honest.0 in
    handling-processed id env d s _ k (
      handle_all-processed id ds (final_state (handle_message env d s))
        (handling-IsClosed env d s _ closed k) honest.1 h)

handle_all-spent :
    (id : String) (ds : Deliveries) (s : ConsumerState)
    → IsClosed s.database
    → AreHonest ds
    → AreOf id ds
    → is_processed id (handle_all ds s).database.tables.processed ≡ false
    → spent id (handle_all ds s) ≤ spent id s
unfolding handle_all
handle_all-spent id [] s closed honest of h = omega arith
handle_all-spent id ((env, d) ∷ ds) s closed honest of h =
    let k = handling env d s closed honest.0 in
    let c = handling-IsClosed env d s _ closed k in
    omega (
      arith,
      handle_all-spent id ds (final_state (handle_message env d s)) c honest.1 of.1 h,
      handling-spent id env d s _ of.0
          (handle_all-processed id ds (final_state (handle_message env d s)) c honest.1 h) k,
    )

-- However often an event is delivered that is never stored, at most four copies are handed to the
-- retry publisher's channel for it, so its retries come to an end; the headers of the deliveries
-- have no influence. The connection starts without an open transaction, and only the unique index
-- makes a ledger INSERT fail with a unique violation.
pub handle_all_retries :
    (id : String) (ds : Deliveries) (s : ConsumerState)
    → IsClosed s.database
    → AreHonest ds
    → AreOf id ds
    → is_processed id (handle_all ds s).database.tables.processed ≡ false
    → length (handle_all ds s).retries ≤ length s.retries + 4
handle_all_retries id ds s closed honest of h =
    omega (arith, handle_all-spent id ds s closed honest of h)
