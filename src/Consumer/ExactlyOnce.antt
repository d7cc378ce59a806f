-- ===== src/Consumer/ExactlyOnce.antt =====
-- However often an event is delivered, it is stored once.
use contract_driven_messagin.Common.{
  ◌+◌, ◌≡◌, refl, sym, ap, ◌∙◌, inl, inr, String, true, false, ◌||◌, List, [], ◌∷◌, ◌++◌, length,
  length-append, gives, arith, final_state, Bool-cases, str_eq, eq_iff, eq_refl,
}
use contract_driven_messagin.Contracts.Events.{EventV2, valid}
use contract_driven_messagin.Database.{Database, Tables, ProcessedEvent, is_processed, is_event}
use contract_driven_messagin.OutboxTransaction.Open.{IsClosed}
use contract_driven_messagin.Consumer.Env.{ConsumerEnv}
use contract_driven_messagin.Consumer.Handler.{handle_message}
use contract_driven_messagin.Consumer.Ledger.{LedgerStep, unchanged, added}
use contract_driven_messagin.Consumer.Answer.{outcome_of, acked_invalid, event_handled, abandoned}
use contract_driven_messagin.Consumer.{Delivery, ConsumerState}
use contract_driven_messagin.Consumer.Deliveries.{
  Deliveries, handle_all, AreHonest, AreOf, DeliveryRun, returns, throws, handling,
  handling-IsClosed,
}

-- No two rows of the ledger have one event id.
abbrev pub HasUniqueEvents : List ProcessedEvent → Type 0
HasUniqueEvents [] = Unit
HasUniqueEvents (p ∷ ps) = (is_processed p.event_id ps ≡ false) × HasUniqueEvents ps

-- As many messages, ledger rows and outbox rows have been added.
abbrev pub IsBalanced : Tables → Tables → Type 0
IsBalanced t t' =
    (length t'.messages + length t.processed ≡ length t.messages + length t'.processed)
    × (length t'.outbox + length t.processed ≡ length t.outbox + length t'.processed)

is_processed-append :
    (id : String) (ps : List ProcessedEvent) (p : ProcessedEvent)
    → is_processed id (ps ++ (p ∷ [])) ≡ (is_processed id ps || is_event id p)
is_processed-append id [] p = ground arith
is_processed-append id (q ∷ ps) p = ground (arith, is_processed-append id ps p)

is_event_sym :
    (p q : ProcessedEvent) → is_event q.event_id p ≡ false → is_event p.event_id q ≡ false
is_event_sym p q h = elim (Bool-cases (is_event p.event_id q)) [
  | inr e ↦ e
  | inl e ↦
      cc (sym h ∙ ap (str_eq p.event_id) ((eq_iff q.event_id p.event_id).0 e) ∙ eq_refl p.event_id)
]

HasUniqueEvents-append :
    (ps : List ProcessedEvent) (p : ProcessedEvent)
    → HasUniqueEvents ps
    → is_processed p.event_id ps ≡ false
    → HasUniqueEvents (ps ++ (p ∷ []))
HasUniqueEvents-append [] p u f = (refl, tt)
HasUniqueEvents-append (q ∷ ps) p u f = elim (Bool-cases (is_event p.event_id q)) [
  | inl e ↦ absurd (not_true (sym f ∙ ap (λ b. b || is_processed p.event_id ps) e))
  | inr e ↦ (
    is_processed-append q.event_id ps p
        ∙ ap (λ b. b || is_event q.event_id p) u.0
        ∙ is_event_sym q p e,
    HasUniqueEvents-append ps p u.1 (ap (λ b. b || is_processed p.event_id ps) (sym e) ∙ f),
  )
]
  where
    not_true : false ≡ true → ⊥
    not_true h = cc

module _ (id : String) (t t' : Tables) where
  step-HasUniqueEvents :
      LedgerStep id t t' → HasUniqueEvents t.processed → HasUniqueEvents t'.processed
  step-HasUniqueEvents (unchanged a b c) u = rw b u
  step-HasUniqueEvents (added m p r f e a b c) u =
      rw b (HasUniqueEvents-append t.processed p u (rw e f))

  step-IsBalanced : LedgerStep id t t' → IsBalanced t t'
  step-IsBalanced (unchanged a b c) = rw (a, b, c) (refl, refl)
  step-IsBalanced (added m p r f e a b c) =
      rw (a, b, c)
        (
          omega (arith, length-append t.messages (m ∷ []), length-append t.processed (p ∷ [])),
          omega (arith, length-append t.outbox (r ∷ []), length-append t.processed (p ∷ [])),
        )

  step-same :
      LedgerStep id t t'
      → is_processed id t.processed ≡ true
      → (t'.messages ≡ t.messages) × (t'.processed ≡ t.processed) × (t'.outbox ≡ t.outbox)
  step-same (unchanged a b c) h = (a, b, c)
  step-same (added m p r f e a b c) h = cc (sym f ∙ h)

abbrev KeepsBooks : Tables → Tables → Type 0
KeepsBooks t t' = (HasUniqueEvents t.processed → HasUniqueEvents t'.processed) × IsBalanced t t'

keeps_same : (t t' : Tables) → t' ≡ t → KeepsBooks t t'
keeps_same t t' e = rw e ((λ u. u), (refl, refl))

handling-KeepsBooks :
    (env : ConsumerEnv) (d : Delivery) (s s' : ConsumerState)
    → DeliveryRun env d s s'
    → KeepsBooks s.database.tables s'.database.tables
handling-KeepsBooks env d s s' (returns (acked_invalid errors v a r b)) =
    keeps_same _ _ (ap (λ (x : Database). x.tables) b)
handling-KeepsBooks env d s s' (returns (event_handled event v end l c n)) =
    (step-HasUniqueEvents event.event_id _ _ l, step-IsBalanced event.event_id _ _ l)
handling-KeepsBooks env d s s' (throws (abandoned a r b cause)) =
    keeps_same _ _ (ap (λ (x : Database). x.tables) b)

-- Over any sequence of deliveries, whatever the services answer, the ledger keeps at most one row
-- for each event, and exactly as many messages and outbox rows are added as ledger rows: every
-- event is stored at most once and together with its outbox row. The connection starts without an
-- open transaction, and only the unique index makes a ledger INSERT fail with a unique violation.
pub handle_all_exactly_once :
    (ds : Deliveries) (s : ConsumerState)
    → IsClosed s.database
    → AreHonest ds
    → HasUniqueEvents s.database.tables.processed
    → HasUniqueEvents (handle_all ds s).database.tables.processed
      × IsBalanced s.database.tables (handle_all ds s).database.tables
unfolding handle_all
handle_all_exactly_once [] s closed honest u = (u, (refl, refl))
handle_all_exactly_once ((env, d) ∷ ds) s closed honest u =
    let h = handling env d s closed honest.0 in
    let (unique, balanced) = handling-KeepsBooks env d s _ h in
    let rest =
      handle_all_exactly_once ds (final_state (handle_message env d s))
        (handling-IsClosed env d s _ closed h) honest.1 (unique u) in
    (rest.0, (omega (arith, balanced.0, rest.1.0), omega (arith, balanced.1, rest.1.1)))

abbrev SameStored : Tables → Tables → Type 0
SameStored t t' = (t'.messages ≡ t.messages) × (t'.processed ≡ t.processed) × (t'.outbox ≡ t.outbox)

handling-SameStored :
    (id : String) (env : ConsumerEnv) (d : Delivery) (s s' : ConsumerState)
    → ((event : EventV2) → outcome_of env d ≡ valid (gives event) → event.event_id ≡ id)
    → is_processed id s.database.tables.processed ≡ true
    → DeliveryRun env d s s'
    → SameStored s.database.tables s'.database.tables
handling-SameStored id env d s s' of h (returns (acked_invalid errors v a r b)) =
    rw b (refl, refl, refl)
handling-SameStored id env d s s' of h (returns (event_handled event v end l c n)) =
    step-same event.event_id _ _ l (rw (of event v) h)
handling-SameStored id env d s s' of h (throws (abandoned a r b cause)) = rw b (refl, refl, refl)

-- Once the ledger has an event, delivering it again any number of times changes neither the
-- messages, nor the ledger, nor the outbox, whatever the services answer. The connection starts
-- without an open transaction, and only the unique index makes a ledger INSERT fail with a unique
-- violation.
pub handle_all_redelivered :
    (id : String) (ds : Deliveries) (s : ConsumerState)
    → IsClosed s.database
    → AreHonest ds
    → AreOf id ds
    → is_processed id s.database.tables.processed ≡ true
    → SameStored s.database.tables (handle_all ds s).database.tables
unfolding handle_all
handle_all_redelivered id [] s closed honest of h = (refl, refl, refl)
handle_all_redelivered id ((env, d) ∷ ds) s closed honest of h =
    let k = handling env d s closed honest.0 in
    let (a, b, c) = handling-SameStored id env d s _ of.0 h k in
    let (a', b', c') =
      handle_all_redelivered id ds (final_state (handle_message env d s))
        (handling-IsClosed env d s _ closed k) honest.1 of.1 (rw b h) in
    (a' ∙ a, b' ∙ b, c' ∙ c)
