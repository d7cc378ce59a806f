-- ===== src/Relay/Fencing.antt =====
-- The fencing token of a claim, once a later claim of the row has been made.
use contract_driven_messagin.Common.{
  ℕ, ◌<◌, ◌≡◌, refl, sym, ap, ◌∙◌, ◌≢◌, inl, inr, String, Bool, true, false, List, [], ◌∷◌, map,
  Thrown, arith, All, In, Bool-cases,
}
use contract_driven_messagin.Outbox.{OutboxRow, Table}
use contract_driven_messagin.Outbox.Identity.{HasUniqueIds}
use contract_driven_messagin.Outbox.Update.{update_where, updated, update_where_none}
use contract_driven_messagin.Relay.Rows.{
  ClaimedRow, to_claimed, lock_row, claim_batch, is_claim, mark_sent, mark_failed_attempt,
  is_nonempty,
}
use contract_driven_messagin.Relay.History.{
  TableOp, has_id, table_run, IsAhead, IsPast, table_run-IsAhead,
}

-- Every row with the claim's id has the claim's token.
abbrev pub IsCurrent : ClaimedRow → Table → Type 0
IsCurrent c = All (λ r. r.id ≡ c.id → r.lock_version ≡ c.lock_version)

updated_none :
    (id v : ℕ) (f : OutboxRow → OutboxRow) (t : Table)
    → All (IsPast id v) t
    → updated (is_claim id v) f t ≡ []
unfolding updated
updated_none id v f [] h = refl
updated_none id v f (r ∷ t) h = ground (arith, h.0, updated_none id v f t h.1)

update-stale :
    (id v : ℕ) (f : OutboxRow → OutboxRow) (t : Table)
    → IsAhead id v t
    → ◌≡◌ {A = Bool × Table}
        (is_nonempty (updated (is_claim id v) f t), update_where (is_claim id v) f t)
        (false, t)
update-stale id v f t h =
    let e = updated_none id v f t h.ahead in rw (e, update_where_none (is_claim id v) f t e)

pub mark_sent-stale :
    (id v now : ℕ) (t : Table) → IsAhead id v t → mark_sent id v now t ≡ (false, t)
unfolding mark_sent
mark_sent-stale id v now t h = update-stale id v _ t h

pub mark_failed_attempt-stale :
    (row : ClaimedRow) (err : Thrown) (now : ℕ) (t : Table)
    → IsAhead row.id row.lock_version t
    → mark_failed_attempt row err now t ≡ (false, t)
unfolding mark_failed_attempt
mark_failed_attempt-stale row err now t h = update-stale row.id row.lock_version _ t h

module _ (p : OutboxRow → Bool) (instance_id : String) (now : ℕ) where
  claimed_origin :
      (c : ClaimedRow) (t : Table)
      → In c (map to_claimed (updated p (lock_row instance_id now) t))
      → (s : OutboxRow) × In s t × (s.id ≡ c.id)
  unfolding updated
  claimed_origin c [] h = absurd h
  claimed_origin c (r ∷ t) h = elim (Bool-cases (p r)) [
    | inl e ↦ here (claimed_origin c t) (rw e at h)
    | inr e ↦ later (claimed_origin c t (rw e at h))
  ]
    where
      later :
          ((s : OutboxRow) × In s t × (s.id ≡ c.id))
          → (s : OutboxRow) × In s (r ∷ t) × (s.id ≡ c.id)
      later (s, k, same) = (s, inr k, same)

      here :
          (In c (map to_claimed (updated p (lock_row instance_id now) t))
            → (s : OutboxRow) × In s t × (s.id ≡ c.id))
          → In c (
              to_claimed (lock_row instance_id now r)
              ∷ map to_claimed (updated p (lock_row instance_id now) t))
          → (s : OutboxRow) × In s (r ∷ t) × (s.id ≡ c.id)
      here ih (inl e) = (r, inl refl, sym (ap (λ (x : ClaimedRow). x.id) e))
      here ih (inr k) = later (ih k)

  ne_of_origin :
      (c : ClaimedRow) (r : OutboxRow) (t : Table)
      → All (λ s. s.id ≢ r.id) t
      → ((s : OutboxRow) × In s t × (s.id ≡ c.id))
      → r.id ≢ c.id
  ne_of_origin c r [] a (s, k, same) e = absurd k
  ne_of_origin c r (x ∷ t) a (s, inl k, same) e =
      a.0 (sym (ap (λ (y : OutboxRow). y.id) k) ∙ same ∙ sym e)
  ne_of_origin c r (x ∷ t) a (s, inr k, same) e = ne_of_origin c r t a.1 (s, k, same) e

  none_has_id :
      (c : ClaimedRow) (r : OutboxRow) (t : Table)
      → All (λ s. s.id ≢ r.id) t
      → c.id ≡ r.id
      → IsCurrent c (update_where p (lock_row instance_id now) t)
  unfolding update_where
  none_has_id c r [] a e = tt
  none_has_id c r (x ∷ t) a e = elim (Bool-cases (p x)) [
    | inl k ↦ rw k ((λ same. absurd (a.0 (same ∙ e))), none_has_id c r t a.1 e)
    | inr k ↦ rw k ((λ same. absurd (a.0 (same ∙ e))), none_has_id c r t a.1 e)
  ]

  -- Right after the claim each claimed row's token is the one in the table.
  pub claimed-IsCurrent :
      (c : ClaimedRow) (t : Table)
      → HasUniqueIds t
      → In c (map to_claimed (updated p (lock_row instance_id now) t))
      → (has_id c.id (update_where p (lock_row instance_id now) t) ≡ true)
        × IsCurrent c (update_where p (lock_row instance_id now) t)
  unfolding updated update_where
  claimed-IsCurrent c [] u h = absurd h
  claimed-IsCurrent c (r ∷ t) u h = elim (Bool-cases (p r)) [
    | inl e ↦ rw e (here (λ k. claimed-IsCurrent c t u.1 k) (rw e at h))
    | inr e ↦
        let k : In c (map to_claimed (updated p (lock_row instance_id now) t)) = rw e at h in
        let ih = claimed-IsCurrent c t u.1 k in
        rw e (
          ground (arith, ih.0),
          ((λ same. absurd (ne_of_origin c r t u.0 (claimed_origin c t k) same)), ih.1),
        )
  ]
    where
      here :
          (In c (map to_claimed (updated p (lock_row instance_id now) t))
            → (has_id c.id (update_where p (lock_row instance_id now) t) ≡ true)
              × IsCurrent c (update_where p (lock_row instance_id now) t))
          → In c (
              to_claimed (lock_row instance_id now r)
              ∷ map to_claimed (updated p (lock_row instance_id now) t))
          → (has_id c.id (lock_row instance_id now r ∷ update_where p (lock_row instance_id now) t)
              ≡ true)
            × IsCurrent c (lock_row instance_id now r ∷ update_where p (lock_row instance_id now) t)
      here ih (inl e) = (
        ground (arith, ap (λ (x : ClaimedRow). x.id) e),
        (
          λ same. sym (ap (λ (x : ClaimedRow). x.lock_version) e),
          none_has_id c r t u.0 (ap (λ (x : ClaimedRow). x.id) e),
        ),
      )
      here ih (inr k) = (
        ground (arith, (ih k).0),
        ((λ same. absurd (ne_of_origin c r t u.0 (claimed_origin c t k) same)), (ih k).1),
      )

  claimed-IsAhead :
      (c : ClaimedRow) (v : ℕ) (t : Table)
      → HasUniqueIds t
      → In c (map to_claimed (updated p (lock_row instance_id now) t))
      → v < c.lock_version
      → IsAhead c.id v (update_where p (lock_row instance_id now) t)
  claimed-IsAhead c v t u h lt =
      let (there, current) = claimed-IsCurrent c t u h in
      record { present = there; ahead = past _ current }
    where
      past : (rs : Table) → IsCurrent c rs → All (IsPast c.id v) rs
      past [] a = tt
      past (r ∷ rs) a = ((λ same. omega (arith, a.0 same)), past rs a.1)

-- Once a row has been claimed anew, every earlier token of it is dead: after any further history of
-- claims, bookkeeping, reaping, replays and insertions, `markSent` and `markFailedAttempt` with
-- such a token report a lost race and leave the table as it is.
pub claim_batch_fences :
    (held : ℕ → Bool) (instance_id : String) (batch_size now later : ℕ) (t : Table)
    (ops : List TableOp) (c stale : ClaimedRow) (err : Thrown)
    → HasUniqueIds t
    → In c (claim_batch held instance_id batch_size now t).0
    → stale.id ≡ c.id
    → stale.lock_version < c.lock_version
    → let t' = table_run (claim_batch held instance_id batch_size now t).1 ops in
      (mark_sent stale.id stale.lock_version later t' ≡ (false, t'))
      × (mark_failed_attempt stale err later t' ≡ (false, t'))
unfolding claim_batch
claim_batch_fences held instance_id batch_size now later t ops c stale err u h same lt = (
  mark_sent-stale stale.id stale.lock_version later t' past,
  mark_failed_attempt-stale stale err later t' past,
)
  where
    t' : Table
    t' = table_run (claim_batch held instance_id batch_size now t).1 ops

    past : IsAhead stale.id stale.lock_version t'
    past = rw same (
        table_run-IsAhead c.id stale.lock_version _ ops
          (claimed-IsAhead _ instance_id now c stale.lock_version t u h lt))
