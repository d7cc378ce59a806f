-- ===== src/Relay/History.antt =====
-- Any history of the statements that touch an outbox table, and what it does to fencing tokens.
use contract_driven_messagin.Common.{
  ℕ, ◌≤◌, ◌<◌, ◌≡◌, refl, sym, ap, ◌∙◌, inl, inr, String, Bool, true, false, List, [], ◌∷◌, ◌++◌,
  Option, Thrown, arith, All, any, ◌==◌, Bool-cases, if◌then◌else◌, All-append,
}
use contract_driven_messagin.RetryPolicy.{FailureOutcome, retry, dead_letter}
use contract_driven_messagin.Outbox.{OutboxRow, Table}
use contract_driven_messagin.Outbox.Update.{update_where}
use contract_driven_messagin.Relay.Rows.{
  ClaimedRow, lock_row, claim_batch, sent_row, mark_sent, error_message, failed_row,
  mark_failed_attempt, unlock_row, reap_stale_locks,
}
use contract_driven_messagin.Admin.{replay_row, replay_by_id, replay_all_failed}

-- One statement by any relay instance, the reaper, an operator, or a producer of new rows.
pub data TableOp : Type 0 where
  claims : (ℕ → Bool) → String → ℕ → ℕ → TableOp
  sends : ℕ → ℕ → ℕ → TableOp
  fails_attempt : ClaimedRow → Thrown → ℕ → TableOp
  reaps : ℕ → ℕ → TableOp
  replays : ℕ → ℕ → TableOp
  replays_all : Option String → ℕ → TableOp
  inserts : OutboxRow → TableOp

abbrev pub has_id : ℕ → Table → Bool
has_id id = any (λ r. r.id == id)

-- The primary key refuses a second row of the same id.
pub insert_row : OutboxRow → Table → Table
insert_row row t = if has_id row.id t then t else t ++ row ∷ []

unfoldable pub table_step : Table → TableOp → Table
unfolding insert_row
table_step t (claims held instance_id n now) = (claim_batch held instance_id n now t).1
table_step t (sends id version now) = (mark_sent id version now t).1
table_step t (fails_attempt row err now) = (mark_failed_attempt row err now t).1
table_step t (reaps ttl_ms now) = reap_stale_locks ttl_ms now t
table_step t (replays id now) = (replay_by_id id now t).1
table_step t (replays_all event_type now) = (replay_all_failed event_type now t).1
table_step t (inserts row) = insert_row row t

unfoldable pub table_run : Table → List TableOp → Table
table_run t [] = t
table_run t (op ∷ ops) = table_run (table_step t op) ops

-- The row is there, and its token has passed `v`.
pub record IsAhead (id v : ℕ) (t : Table) : Type 0 where
  pub present : has_id id t ≡ true
  pub ahead : All (λ r. r.id ≡ id → v < r.lock_version) t

-- A change that keeps each row's id and never lowers its token.
record Raises (f : OutboxRow → OutboxRow) : Type 0 where
  same_id : (r : OutboxRow) → (f r).id ≡ r.id
  not_less : (r : OutboxRow) → r.lock_version ≤ (f r).lock_version

module _ (id v : ℕ) where
  abbrev pub IsPast : OutboxRow → Type 0
  IsPast r = r.id ≡ id → v < r.lock_version

  has_id-update_where :
      (p : OutboxRow → Bool) (f : OutboxRow → OutboxRow) (t : Table)
      → Raises f
      → has_id id (update_where p f t) ≡ has_id id t
  unfolding update_where
  has_id-update_where p f [] k = refl
  has_id-update_where p f (r ∷ t) k = ground (arith, k.same_id r, has_id-update_where p f t k)

  IsPast-update_where :
      (p : OutboxRow → Bool) (f : OutboxRow → OutboxRow) (t : Table)
      → Raises f
      → All IsPast t
      → All IsPast (update_where p f t)
  unfolding update_where
  IsPast-update_where p f [] k h = tt
  IsPast-update_where p f (r ∷ t) k h = elim (Bool-cases (p r)) [
    | inl e ↦ rw e (
      λ same. omega (arith, k.not_less r, h.0 (sym (k.same_id r) ∙ same)),
      IsPast-update_where p f t k h.1,
    )
    | inr e ↦ rw e (h.0, IsPast-update_where p f t k h.1)
  ]

  update_where-IsAhead :
      (p : OutboxRow → Bool) (f : OutboxRow → OutboxRow) (t : Table)
      → Raises f
      → IsAhead id v t
      → IsAhead id v (update_where p f t)
  update_where-IsAhead p f t k h = record {
    present = has_id-update_where p f t k ∙ h.present;
    ahead = IsPast-update_where p f t k h.ahead;
  }

  IsPast-of_absent :
      (row : OutboxRow) (t : Table) → has_id row.id t ≡ false → has_id id t ≡ true → IsPast row
  IsPast-of_absent row t gone there same = absurd (cc (ap (λ i. has_id i t) same))

  insert_row-IsAhead :
      (row : OutboxRow) (t : Table) → IsAhead id v t → IsAhead id v (insert_row row t)
  unfolding insert_row
  insert_row-IsAhead row t h = elim (Bool-cases (has_id row.id t)) [
    | inl e ↦ rw e h
    | inr e ↦ rw e (record {
      present = has_id-append t h.present;
      ahead = All-append IsPast t (row ∷ []) h.ahead (IsPast-of_absent row t e h.present, tt);
    })
  ]
    where
      has_id-append : (u : Table) → has_id id u ≡ true → has_id id (u ++ row ∷ []) ≡ true
      has_id-append [] k = cc
      has_id-append (r ∷ u) k = ground (arith, has_id-append u)

lock_row-Raises : (instance_id : String) (now : ℕ) → Raises (lock_row instance_id now)
lock_row-Raises instance_id now = record { same_id = λ r. refl; not_less = λ r. omega arith }

sent_row-Raises : (now : ℕ) → Raises (sent_row now)
sent_row-Raises now = record { same_id = λ r. refl; not_less = λ r. omega arith }

failed_row-Raises : (o : FailureOutcome) (m : String) (now : ℕ) → Raises (failed_row o m now)
failed_row-Raises (retry at n) m now = record { same_id = λ r. refl; not_less = λ r. omega arith }
failed_row-Raises (dead_letter n) m now = record {
  same_id = λ r. refl;
  not_less = λ r. omega arith;
}

unlock_row-Raises : Raises unlock_row
unlock_row-Raises = record { same_id = λ r. refl; not_less = λ r. omega arith }

replay_row-Raises : (now : ℕ) → Raises (replay_row now)
replay_row-Raises now = record { same_id = λ r. refl; not_less = λ r. omega arith }

table_step-IsAhead :
    (id v : ℕ) (t : Table) (op : TableOp) → IsAhead id v t → IsAhead id v (table_step t op)
unfolding table_step claim_batch mark_sent mark_failed_attempt reap_stale_locks replay_by_id
    replay_all_failed
table_step-IsAhead id v t (claims held instance_id n now) h =
    update_where-IsAhead id v _ _ t (lock_row-Raises instance_id now) h
table_step-IsAhead id v t (sends i version now) h =
    update_where-IsAhead id v _ _ t (sent_row-Raises now) h
table_step-IsAhead id v t (fails_attempt row err now) h =
    update_where-IsAhead id v _ _ t (failed_row-Raises _ (error_message err) now) h
table_step-IsAhead id v t (reaps ttl_ms now) h = update_where-IsAhead id v _ _ t unlock_row-Raises h
table_step-IsAhead id v t (replays i now) h =
    update_where-IsAhead id v _ _ t (replay_row-Raises now) h
table_step-IsAhead id v t (replays_all event_type now) h =
    update_where-IsAhead id v _ _ t (replay_row-Raises now) h
table_step-IsAhead id v t (inserts row) h = insert_row-IsAhead id v row t h

pub table_run-IsAhead :
    (id v : ℕ) (t : Table) (ops : List TableOp) → IsAhead id v t → IsAhead id v (table_run t ops)
unfolding table_run
table_run-IsAhead id v t [] h = h
table_run-IsAhead id v t (op ∷ ops) h =
    table_run-IsAhead id v (table_step t op) ops (table_step-IsAhead id v t op h)
