-- ===== src/OutboxTransaction/Plain.antt =====
-- All or nothing: how a transaction of `runWithOutboxEvents` can end.
use contract_driven_messagin.Common.{
  ◌≡◌, refl, sym, subst, ◌⊎◌, inl, inr, List, Thrown, Run, returned, threw, Prog, ◌>>=◌, ◌>>◌, pure,
  throw, try_catch, Reply, gives, fails, arith, Ends, try_catch-Ends, bind-Ends, finally-Ends,
}
use contract_driven_messagin.Database.{
  Database, Tables, CommitReply, commits, lost_before, lost_after, start_transaction,
  commit_transaction, rollback_transaction, discarded,
}
use contract_driven_messagin.OutboxTransaction.{
  OutboxEventInput, TransactionEnv, insert_outbox_events, run_with_outbox_events,
}
use contract_driven_messagin.OutboxTransaction.Open.{
  IsOpen, IsClosed, StaysOpen, insert_outbox_events-StaysOpen, discarded-IsClosed, started,
  started-Ends,
}

module _ {A : Type 0} (env : TransactionEnv) (work : Prog Database A)
    (events : List OutboxEventInput) where
  -- The writes of one transaction, one after the other.
  unfoldable pub plain_writes : Prog Database A
  unfolding insert_outbox_events
  plain_writes = do result ← work; insert_outbox_events env 0 events; pure result

  -- These are the tables after all the writes, which give `a`.
  abbrev pub HasWritten : Database → A → Tables → Type 0
  HasWritten s a t = (s' : Database) × (plain_writes (started s) ≡ returned a s') × (t ≡ s'.tables)

  abbrev pub IsDone : Database → A → Database → Type 0
  IsDone s a s' = IsClosed s' × HasWritten s a s'.tables

  abbrev pub IsDoneOrNot : Database → Database → Type 0
  IsDoneOrNot s s' = IsClosed s' × ((s'.tables ≡ s.tables) ⊎ ((a : A) × HasWritten s a s'.tables))

  abbrev IsPartWay : Database → Database → Type 0
  IsPartWay s s' = IsOpen s.tables s' ⊎ IsDoneOrNot s s'

  abbrev body : Prog Database A
  body = do
    result ← work
    insert_outbox_events env 0 events
    commit_transaction env.commit
    pure result

  rolled_back :
      (r : Reply (Unit {0})) (s s' : Database)
      → IsPartWay s s'
      → Ends (λ _ x. IsDoneOrNot s x) (λ _ x. IsDoneOrNot s x) (rollback_transaction r s')
  unfolding rollback_transaction
  rolled_back (fails e) s s' (inl o) =
      let (c, same) = discarded-IsClosed s' s.tables o in (c, inl same)
  rolled_back (gives u) s s' (inl o) =
      let (c, same) = discarded-IsClosed s' s.tables o in (c, inl same)
  rolled_back (fails e) s s' (inr h) = subst (λ b. IsDoneOrNot s (discarded b s')) (sym h.0) h
  rolled_back (gives u) s s' (inr h) = subst (λ b. IsDoneOrNot s (discarded b s')) (sym h.0) h

  module _ (s : Database) where
    abbrev IsBodyEnd : Run Database A → Type 0
    IsBodyEnd = Ends (IsDone s) (λ _ s'. IsPartWay s s')

    by_commit :
        (a : A) (s3 s4 : Database) (c : CommitReply)
        → work (started s) ≡ returned a s3
        → insert_outbox_events env 0 events s3 ≡ returned tt s4
        → env.commit ≡ c
        → IsOpen s.tables s4
        → IsBodyEnd (body (started s))
    unfolding plain_writes commit_transaction
    by_commit a s3 s4 commits ew ei ec o = rw (Ends, ew, ei, ec) (refl, (s4, ground arith, refl))
    by_commit a s3 s4 (lost_before e) ew ei ec o = rw (Ends, ew, ei, ec) (inl o)
    by_commit a s3 s4 (lost_after e) ew ei ec o =
        rw (Ends, ew, ei, ec) (inr (refl, inr (a, (s4, ground arith, refl))))

    by_insert :
        (a : A) (s3 : Database) (i : Run Database (Unit {0}))
        → work (started s) ≡ returned a s3
        → insert_outbox_events env 0 events s3 ≡ i
        → Ends (λ _ s'. IsOpen s.tables s') (λ _ s'. IsOpen s.tables s') i
        → IsBodyEnd (body (started s))
    by_insert a s3 (returned u s4) ew ei o = by_commit a s3 s4 env.commit ew ei refl o
    by_insert a s3 (threw e s4) ew ei o = rw (Ends, ew, ei) (inl o)

    by_work :
        (r : Run Database A)
        → work (started s) ≡ r
        → Ends (λ _ s'. IsOpen s.tables s') (λ _ s'. IsOpen s.tables s') r
        → IsBodyEnd (body (started s))
    by_work (returned a s3) ew o =
        by_insert a s3 (insert_outbox_events env 0 events s3) ew refl
          (insert_outbox_events-StaysOpen env 0 events s.tables s3 o)
    by_work (threw e s3) ew o = rw (Ends, ew) (inl o)

    -- `runWithOutboxEvents` returns only with the business write and the outbox rows in the tables;
    -- when it throws, all of them are or none is. No transaction is left open. The connection starts
    -- with none, and the business write keeps to the transaction.
    pub run_with_outbox_events-IsDone :
        StaysOpen work
        → IsClosed s
        → Ends (IsDone s) (λ _ s'. IsDoneOrNot s s') (run_with_outbox_events env work events s)
    unfolding run_with_outbox_events start_transaction
    run_with_outbox_events-IsDone keeps closed =
        started-Ends _ _ env.connect env.start _ s (λ e. (closed, inl refl))
          (finally-Ends _ _ (try_catch body undo) env.release (started s)
            (try_catch-Ends (IsDone s) _ (λ _ s'. IsPartWay s s') body undo (started s)
              (by_work (work (started s)) refl (keeps s.tables (started s) refl))
              (λ e s' h.
                bind-Ends _ (IsDone s) (λ _ x. IsDoneOrNot s x) (rollback_transaction env.rollback)
                  (λ _. throw e) s' (rolled_back env.rollback s s' h) (λ _ s'' k. k)))
            (λ a e s' (h : IsDone s a s'). (h.0, inr (a, h.1))) (λ _ _ _ k. k))
      where
        undo : Thrown → Prog Database A
        undo err = rollback_transaction env.rollback >> throw err
