-- ===== src/OutboxTransaction/Open.antt =====
-- The steps of an open transaction, and what ends it.
use contract_driven_messagin.Common.{
  ℕ, suc, ◌≡◌, refl, inl, inr, true, false, List, [], ◌∷◌, none, some, Thrown, Prog, ◌>>◌, await,
  Reply, gives, fails, Bool-cases, Reply-cases, Ends,
}
use contract_driven_messagin.Database.{Database, Tables, start_transaction, is_processed, discarded}
use contract_driven_messagin.OutboxTransaction.{
  OutboxEventInput, IdempotencyInput, TransactionEnv, save_outbox_row, insert_outbox_events,
  save_processed_event, is_unique_violation,
}

abbrev pub IsOpen : Tables → Database → Type 0
IsOpen t s = s.before ≡ some t

abbrev pub IsClosed : Database → Type 0
IsClosed s = s.before ≡ none

-- A step that neither starts nor ends a transaction.
abbrev pub StaysOpen : {A : Type 0} → Prog Database A → Type 0
StaysOpen m =
    (t : Tables) (s : Database)
    → IsOpen t s
    → Ends (λ a s'. IsOpen t s') (λ e s'. IsOpen t s') (m s)

-- The index refuses a row only because of another row: no other failure of the INSERT looks so.
abbrev pub IsHonest : Reply (Unit {0}) → Type 0
IsHonest r = (e : Thrown) → r ≡ fails e → is_unique_violation e ≡ false

pub insert_outbox_events-StaysOpen :
    (env : TransactionEnv) (n : ℕ) (events : List OutboxEventInput)
    → StaysOpen (insert_outbox_events env n events)
unfolding insert_outbox_events save_outbox_row
insert_outbox_events-StaysOpen env n [] t s h = h
insert_outbox_events-StaysOpen env n (ev ∷ events) t s h = elim (Reply-cases (env.outbox_save n)) [
  | inl (u, eq) ↦ rw (Ends, eq) (insert_outbox_events-StaysOpen env (suc n) events t _ h)
  | inr (e, eq) ↦ rw (Ends, eq) h
]

pub save_processed_event-StaysOpen :
    (r : Reply (Unit {0})) (input : IdempotencyInput) (now : ℕ)
    → StaysOpen (save_processed_event r input now)
unfolding save_processed_event
save_processed_event-StaysOpen (fails e) input now t s h = h
save_processed_event-StaysOpen (gives u) input now t s h =
    elim (Bool-cases (is_processed input.event_id s.tables.processed)) [
      | inl eq ↦ rw (Ends, eq) h
      | inr eq ↦ rw (Ends, eq) h
    ]

-- An INSERT that fails with a unique violation found the event in the ledger.
pub save_processed_event-found :
    (r : Reply (Unit {0})) (input : IdempotencyInput) (now : ℕ) (s : Database)
    → IsHonest r
    → Ends
        (λ _ s'. Unit)
        (λ e s'.
          is_unique_violation e ≡ true → is_processed input.event_id s.tables.processed ≡ true)
        (save_processed_event r input now s)
unfolding save_processed_event
save_processed_event-found (fails e) input now s honest = λ violates. cc (honest e refl)
save_processed_event-found (gives u) input now s honest =
    elim (Bool-cases (is_processed input.event_id s.tables.processed)) [
      | inl eq ↦ rw (Ends, eq) (λ _. eq)
      | inr eq ↦ rw (Ends, eq) tt
    ]

pub discarded-IsClosed :
    (s : Database) (t : Tables)
    → IsOpen t s
    → IsClosed (discarded s.before s) × ((discarded s.before s).tables ≡ t)
discarded-IsClosed s t h = rw h (refl, refl)

abbrev pub started : Database → Database
started s = record s { before = some s.tables }

pub started-Ends :
    {B : Type 0} (P : B → Database → Type 0) (Q : Thrown → Database → Type 0)
    (r r' : Reply (Unit {0})) (rest : Prog Database B) (s : Database)
    → ((e : Thrown) → Q e s)
    → Ends P Q (rest (started s))
    → Ends P Q ((await r >> (start_transaction r' >> rest)) s)
unfolding start_transaction
started-Ends P Q (fails e) r' rest s q h = q e
started-Ends P Q (gives u) (fails e) rest s q h = q e
started-Ends P Q (gives u) (gives u') rest s q h = h
