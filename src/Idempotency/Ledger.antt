-- ===== src/Idempotency/Ledger.antt =====
-- What `checkAndMark` reports, and what it leaves in the ledger.
use contract_driven_messagin.Common.{
  ℕ, ◌≡◌, ◌⊎◌, true, false, [], ◌∷◌, ◌++◌, none, some, Thrown, Reply, fails,
}
use contract_driven_messagin.ErrorClassifier.{is_code}
use contract_driven_messagin.Database.{Database, ProcessedEvent, is_processed}
use contract_driven_messagin.Idempotency.{
  MarkProcessedOptions, IdempotencyResult, marked_row, first_of, extract_pg_code,
}

-- Only the unique index makes the INSERT fail with a unique violation.
abbrev pub IsHonestSave : Reply (Unit {0}) → Type 0
IsHonestSave r = (e : Thrown) → r ≡ fails e → is_code "23505" (extract_pg_code e) ≡ false

module _ (options : MarkProcessedOptions) (now : ℕ) (s : Database) where
  -- A duplicate is answered from the event's first row, and no table changes; otherwise the event
  -- was new, and its row is the only change.
  abbrev pub IsMarked : IdempotencyResult → Database → Type 0
  IsMarked r s' =
      ((s'.tables ≡ s.tables)
        × ((p : ProcessedEvent) × (first_of options.event_id s.tables.processed ≡ some p)
            × (r ≡ record {
              is_duplicate = true;
              processed_at = p.processed_at;
              result = p.result;
            })))
      ⊎ ((is_processed options.event_id s.tables.processed ≡ false)
          × (r ≡ record { is_duplicate = false; processed_at = now; result = none })
          × ((id : ℕ) × (s'.tables.processed
                ≡ s.tables.processed ++ (marked_row options now id ∷ [])))
          × (s'.tables.messages ≡ s.tables.messages)
          × (s'.tables.outbox ≡ s.tables.outbox))
