-- ===== src/OutboxTransaction/Atomic.antt =====
-- All or nothing: how a transaction of `runIdempotentWithOutboxEvents` can end.
use contract_driven_messagin.Common.{
  ◌≡◌, refl, sym, subst, ◌⊎◌, inl, inr, Bool, true, false, List, Thrown, Run, returned, threw, Prog,
  ◌>>=◌, ◌>>◌, pure, throw, try_catch, Reply, gives, fails, arith, Ends, try_catch-Ends, bind-Ends,
  finally-Ends,
}
use contract_driven_messagin.Database.{
  Database, Tables, CommitReply, commits, lost_before, lost_after, start_transaction,
  commit_transaction, rollback_transaction, is_processed, discarded,
}
use contract_driven_messagin.OutboxTransaction.{
  OutboxEventInput, IdempotencyInput, IdempotentRunResult, duplicate, processed_now, TransactionEnv,
  insert_outbox_events, save_processed_event, is_unique_violation, mark_processed,
  finish_unless_duplicate, run_idempotent_with_outbox_events,
}
use contract_driven_messagin.OutboxTransaction.Open.{
  IsOpen, IsClosed, StaysOpen, IsHonest, insert_outbox_events-StaysOpen,
  save_processed_event-StaysOpen, save_processed_event-found, discarded-IsClosed, started,
  started-Ends,
}

module _ {A : Type 0} (env : TransactionEnv) (input : IdempotencyInput) (work : Prog Database A)
    (events : List OutboxEventInput) where
  -- The writes of one transaction, one after the other.
  unfoldable pub writes : Prog Database A
  unfolding save_processed_event insert_outbox_events
  writes = do
    save_processed_event env.ledger_save input env.now
    result ← work
    insert_outbox_events env 0 events
    pure result

  -- These are the tables after all the writes, which give `a`.
  abbrev pub IsWritten : Database → A → Tables → Type 0
  IsWritten s a t = (s' : Database) × (writes (started s) ≡ returned a s') × (t ≡ s'.tables)

  abbrev pub IsFinished : Database → IdempotentRunResult A → Database → Type 0
  IsFinished s duplicate s' =
      IsClosed s' × (s'.tables ≡ s.tables) × (is_processed input.event_id s.tables.processed ≡ true)
  IsFinished s (processed_now a) s' = IsClosed s' × IsWritten s a s'.tables

  abbrev pub IsAllOrNothing : Database → Database → Type 0
  IsAllOrNothing s s' = IsClosed s' × ((s'.tables ≡ s.tables) ⊎ ((a : A) × IsWritten s a s'.tables))

  abbrev HasFailed : Database → Database → Type 0
  HasFailed s s' = IsOpen s.tables s' ⊎ IsAllOrNothing s s'

  rollback-AllOrNothing :
      (r : Reply (Unit {0})) (s s' : Database)
      → HasFailed s s'
      → Ends
          (λ _ s''. IsAllOrNothing s s'')
          (λ _ s''. IsAllOrNothing s s'')
          (rollback_transaction r s')
  unfolding rollback_transaction
  rollback-AllOrNothing (fails e) s s' (inl o) =
      let (c, same) = discarded-IsClosed s' s.tables o in (c, inl same)
  rollback-AllOrNothing (gives u) s s' (inl o) =
      let (c, same) = discarded-IsClosed s' s.tables o in (c, inl same)
  rollback-AllOrNothing (fails e) s s' (inr h) =
      subst (λ b. IsAllOrNothing s (discarded b s')) (sym h.0) h
  rollback-AllOrNothing (gives u) s s' (inr h) =
      subst (λ b. IsAllOrNothing s (discarded b s')) (sym h.0) h

  module _ (s s2 : Database)
      (saved : save_processed_event env.ledger_save input env.now (started s)
        ≡ returned tt s2) where
    abbrev IsTransactionEnd : Run Database (IdempotentRunResult A) → Type 0
    IsTransactionEnd = Ends (IsFinished s) (λ _ s'. HasFailed s s')

    by_commit :
        (a : A) (s3 s4 : Database) (c : CommitReply)
        → work s2 ≡ returned a s3
        → insert_outbox_events env 0 events s3 ≡ returned tt s4
        → env.commit ≡ c
        → IsOpen s.tables s4
        → IsTransactionEnd (finish_unless_duplicate env work events false s2)
    unfolding finish_unless_duplicate writes commit_transaction
    by_commit a s3 s4 commits ew ei ec o = rw (Ends, ew, ei, ec) (refl, (s4, ground arith, refl))
    by_commit a s3 s4 (lost_before e) ew ei ec o = rw (Ends, ew, ei, ec) (inl o)
    by_commit a s3 s4 (lost_after e) ew ei ec o =
        rw (Ends, ew, ei, ec) (inr (refl, inr (a, (s4, ground arith, refl))))

    by_insert :
        (a : A) (s3 : Database) (i : Run Database (Unit {0}))
        → work s2 ≡ returned a s3
        → insert_outbox_events env 0 events s3 ≡ i
        → Ends (λ _ s'. IsOpen s.tables s') (λ _ s'. IsOpen s.tables s') i
        → IsTransactionEnd (finish_unless_duplicate env work events false s2)
    unfolding finish_unless_duplicate
    by_insert a s3 (returned u s4) ew ei o = by_commit a s3 s4 env.commit ew ei refl o
    by_insert a s3 (threw e s4) ew ei o = rw (Ends, ew, ei) (inl o)

    by_work :
        (r : Run Database A)
        → work s2 ≡ r
        → Ends (λ _ s'. IsOpen s.tables s') (λ _ s'. IsOpen s.tables s') r
        → IsTransactionEnd (finish_unless_duplicate env work events false s2)
    unfolding finish_unless_duplicate
    by_work (returned a s3) ew o =
        by_insert a s3 (insert_outbox_events env 0 events s3) ew refl
          (insert_outbox_events-StaysOpen env 0 events s.tables s3 o)
    by_work (threw e s3) ew o = rw (Ends, ew) (inl o)

  module _ (s : Database) (keeps : StaysOpen work) where
    by_rollback :
        (s2 : Database) (e : Thrown) (b : Bool) (r : Reply (Unit {0}))
        → save_processed_event env.ledger_save input env.now (started s) ≡ threw e s2
        → is_unique_violation e ≡ b
        → env.duplicate_rollback ≡ r
        → IsOpen s.tables s2
        → (b ≡ true → is_processed input.event_id s.tables.processed ≡ true)
        → Ends
            (IsFinished s)
            (λ _ s'. HasFailed s s')
            ((mark_processed env input >>= finish_unless_duplicate env work events) (started s))
    unfolding mark_processed finish_unless_duplicate rollback_transaction
    by_rollback s2 e true (gives u) es eb er o found =
        let (closed, same) = discarded-IsClosed s2 s.tables o in
        rw (Ends, es, eb, er) (closed, same, found refl)
    by_rollback s2 e true (fails e') es eb er o found =
        let (closed, same) = discarded-IsClosed s2 s.tables o in
        rw (Ends, es, eb, er) (inr (closed, inl same))
    by_rollback s2 e false r es eb er o found = rw (Ends, es, eb) (inl o)

    by_mark :
        (r : Run Database (Unit {0}))
        → save_processed_event env.ledger_save input env.now (started s) ≡ r
        → Ends (λ _ s'. IsOpen s.tables s') (λ _ s'. IsOpen s.tables s') r
        → Ends
            (λ _ s'. Unit)
            (λ e s'.
              is_unique_violation e ≡ true → is_processed input.event_id s.tables.processed ≡ true)
            r
        → Ends
            (IsFinished s)
            (λ _ s'. HasFailed s s')
            ((mark_processed env input >>= finish_unless_duplicate env work events) (started s))
    unfolding mark_processed
    by_mark (returned u s2) es o found =
        rw (Ends, es) (by_work s s2 es (work s2) refl (keeps s.tables s2 o))
    by_mark (threw e s2) es o found =
        by_rollback s2 e (is_unique_violation e) env.duplicate_rollback es refl refl o found

    -- `runIdempotentWithOutboxEvents` reports a duplicate only if the ledger had the event, and then
    -- nothing is written; a result only if the ledger row, the business write and the outbox rows
    -- are all in the tables; and when it throws, all of them are or none is. No transaction is left
    -- open. The connection starts with none, the business write keeps to the transaction, and only
    -- the unique index makes the ledger's INSERT fail with a unique violation.
    pub run_idempotent-IsAllOrNothing :
        IsClosed s
        → IsHonest env.ledger_save
        → Ends
            (IsFinished s)
            (λ _ s'. IsAllOrNothing s s')
            (run_idempotent_with_outbox_events env input work events s)
    unfolding run_idempotent_with_outbox_events start_transaction
    run_idempotent-IsAllOrNothing closed honest =
        started-Ends _ _ env.connect env.start _ s (λ e. (closed, inl refl))
          (finally-Ends _ _ guarded env.release (started s)
            (try_catch-Ends (IsFinished s) _ (λ _ s'. HasFailed s s') body undo (started s)
              (by_mark (save_processed_event env.ledger_save input env.now (started s)) refl
                (save_processed_event-StaysOpen env.ledger_save input env.now s.tables (started s)
                  refl)
                (save_processed_event-found env.ledger_save input env.now (started s) honest))
              (λ e s' h.
                bind-Ends _ (IsFinished s) (λ _ x. IsAllOrNothing s x)
                  (rollback_transaction env.rollback) (λ _. throw e) s'
                  (rollback-AllOrNothing env.rollback s s' h) (λ _ s'' k. k)))
            finished (λ _ _ _ k. k))
      where
        body : Prog Database (IdempotentRunResult A)
        body = mark_processed env input >>= finish_unless_duplicate env work events

        undo : Thrown → Prog Database (IdempotentRunResult A)
        undo err = rollback_transaction env.rollback >> throw err

        guarded : Prog Database (IdempotentRunResult A)
        guarded = try_catch body undo

        finished :
            (a : IdempotentRunResult A) (e : Thrown) (s' : Database)
            → IsFinished s a s'
            → IsAllOrNothing s s'
        finished duplicate e s' (c, same, _) = (c, inl same)
        finished (processed_now a) e s' (c, w) = (c, inr (a, w))
