-- ===== src/Relay/Races.antt =====
-- What a claim and the stale-lock reaper change for the claims that follow.
use contract_driven_messagin.Common.{
  ℕ, ◌≡◌, refl, sym, ap, ◌∙◌, inl, inr, String, Bool, List, [], ◌∷◌, map, arith, Bool-cases,
  if◌then◌else◌, keep,
}
use contract_driven_messagin.Outbox.{OutboxRow, Table}
use contract_driven_messagin.Outbox.Identity.{ids, is_in}
use contract_driven_messagin.Outbox.Select.{select, select-map}
use contract_driven_messagin.Outbox.Update.{update_where, updated}
use contract_driven_messagin.Relay.Rows.{
  to_claimed, due, is_claimable, lock_row, batch_ids, claim_batch, has_stale_lock, unlock_row,
  reap_stale_locks,
}

changed : (OutboxRow → Bool) → (OutboxRow → OutboxRow) → OutboxRow → OutboxRow
changed p f r = if p r then f r else r

update_where-map :
    (p : OutboxRow → Bool) (f : OutboxRow → OutboxRow) (t : Table)
    → update_where p f t ≡ map (changed p f) t
unfolding update_where changed
update_where-map p f [] = refl
update_where-map p f (r ∷ t) = ap (◌∷◌ (if p r then f r else r)) (update_where-map p f t)

-- A change that keeps each row's status, due time and id.
record KeepsQueue (f : OutboxRow → OutboxRow) : Type 0 where
  same_id : (r : OutboxRow) → (f r).id ≡ r.id
  same_status : (r : OutboxRow) → (f r).status ≡ r.status
  same_due : (r : OutboxRow) → (f r).next_retry_at ≡ r.next_retry_at

changed-KeepsQueue :
    (p : OutboxRow → Bool) (f : OutboxRow → OutboxRow) → KeepsQueue f → KeepsQueue (changed p f)
unfolding changed
changed-KeepsQueue p f k = record {
  same_id = λ r. ground (arith, k.same_id r);
  same_status = λ r. ground (arith, k.same_status r);
  same_due = λ r. ground (arith, k.same_due r);
}

ids-map : (f : OutboxRow → OutboxRow) (t : Table) → KeepsQueue f → ids (map f t) ≡ ids t
ids-map f [] k = refl
ids-map f (r ∷ t) k = ground (arith, k.same_id r, ids-map f t k)

batch_ids-map :
    (held : ℕ → Bool) (n now : ℕ) (f : OutboxRow → OutboxRow) (t : Table)
    → KeepsQueue f
    → batch_ids held n now (map f t) ≡ batch_ids held n now t
unfolding batch_ids
batch_ids-map held n now f t k =
    ap ids (
      select-map due f k.same_due (is_claimable held now) n t
        (λ r. rw (k.same_status r, k.same_due r, k.same_id r)))
    ∙ ids-map f (select due (is_claimable held now) n t) k

batch_ids-update_where :
    (held : ℕ → Bool) (n now : ℕ) (p : OutboxRow → Bool) (f : OutboxRow → OutboxRow) (t : Table)
    → KeepsQueue f
    → batch_ids held n now (update_where p f t) ≡ batch_ids held n now t
batch_ids-update_where held n now p f t k =
    ap (batch_ids held n now) (update_where-map p f t)
    ∙ batch_ids-map held n now (changed p f) t (changed-KeepsQueue p f k)

ids-updated :
    (is : List ℕ) (f : OutboxRow → OutboxRow) (t : Table)
    → KeepsQueue f
    → map (λ c. c.id) (map to_claimed (updated (is_in is) f t)) ≡ ids (keep (is_in is) t)
unfolding updated
ids-updated is f [] k = refl
ids-updated is f (r ∷ t) k = elim (Bool-cases (is_in is r)) [
  | inl e ↦ rw (e, ids-updated is f t k, k.same_id r)
  | inr e ↦ rw e (ids-updated is f t k)
]

ids-keep :
    (is : List ℕ) (p : OutboxRow → Bool) (f : OutboxRow → OutboxRow) (t : Table)
    → KeepsQueue f
    → ids (keep (is_in is) (update_where p f t)) ≡ ids (keep (is_in is) t)
ids-keep is p f t k = ap (λ u. ids (keep (is_in is) u)) (update_where-map p f t) ∙ go t
  where
    same : KeepsQueue (changed p f)
    same = changed-KeepsQueue p f k

    go : (u : Table) → ids (keep (is_in is) (map (changed p f) u)) ≡ ids (keep (is_in is) u)
    go [] = refl
    go (r ∷ u) = elim (Bool-cases (is_in is r)) [
      | inl e ↦ rw (same.same_id r, e, go u)
      | inr e ↦ rw (same.same_id r, e) (go u)
    ]

lock_row-KeepsQueue : (instance_id : String) (now : ℕ) → KeepsQueue (lock_row instance_id now)
lock_row-KeepsQueue instance_id now = record {
  same_id = λ r. refl;
  same_status = λ r. refl;
  same_due = λ r. refl;
}

unlock_row-KeepsQueue : KeepsQueue unlock_row
unlock_row-KeepsQueue = record {
  same_id = λ r. refl;
  same_status = λ r. refl;
  same_due = λ r. refl;
}

-- A claim keeps nothing from the next one: a second instance that polls at the same moment is given
-- exactly the rows that the first has just claimed and not yet published. The reaper, which is to
-- make a row claimable again, never changes which rows a claim takes.
pub claim_batch_again :
    (held : ℕ → Bool) (first second : String) (batch_size ttl_ms now : ℕ) (t : Table)
    → (map
          (λ c. c.id)
          (claim_batch held second batch_size now (claim_batch held first batch_size now t).1).0
        ≡ map (λ c. c.id) (claim_batch held first batch_size now t).0)
      × (batch_ids held batch_size now (reap_stale_locks ttl_ms now t)
          ≡ batch_ids held batch_size now t)
unfolding claim_batch reap_stale_locks
claim_batch_again held first second batch_size ttl_ms now t = (
  ap (λ is. map (λ c. c.id) (map to_claimed (updated (is_in is) (lock_row second now) t')))
        (batch_ids-update_where held batch_size now (is_in batch) (lock_row first now) t locks)
      ∙ ids-updated batch (lock_row second now) t' (lock_row-KeepsQueue second now)
      ∙ ids-keep batch (is_in batch) (lock_row first now) t locks
      ∙ sym (ids-updated batch (lock_row first now) t locks),
  batch_ids-update_where held batch_size now (has_stale_lock ttl_ms now) unlock_row t
      unlock_row-KeepsQueue,
)
  where
    batch : List ℕ
    batch = batch_ids held batch_size now t

    t' : Table
    t' = update_where (is_in batch) (lock_row first now) t

    locks : KeepsQueue (lock_row first now)
    locks = lock_row-KeepsQueue first now
