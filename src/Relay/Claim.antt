-- ===== src/Relay/Claim.antt =====
-- What one `claimBatch` statement takes out of the table.
use contract_driven_messagin.Common.{
  ℕ, ◌≤◌, ◌≡◌, refl, ◌∙◌, ◌⊎◌, inl, inr, String, Bool, true, [], ◌∷◌, map, All, In, Bool-cases,
  length, length-map,
}
use contract_driven_messagin.Outbox.{OutboxRow, Table}
use contract_driven_messagin.Outbox.Identity.{
  HasUniqueIds, ids, is_in, is_in-In, In-is_in, row_unique,
}
use contract_driven_messagin.Outbox.Count.{length-updated, select-HasUniqueIds}
use contract_driven_messagin.Outbox.Select.{select}
use contract_driven_messagin.Outbox.Select.Earliest.{select_sound, select_complete}
use contract_driven_messagin.Outbox.Update.{updated}
use contract_driven_messagin.Relay.Rows.{
  ClaimedRow, to_claimed, due, is_claimable, lock_row, claim_batch,
}

module _ (held : ℕ → Bool) (instance_id : String) (batch_size now : ℕ) (t : Table) where
  abbrev chosen : Table
  chosen = select due (is_claimable held now) batch_size t

  -- The claimed row is a row of the table that was claimable, as the statement leaves it.
  pub record IsClaimOf (c : ClaimedRow) : Type 0 where
    pub row : OutboxRow
    pub present : In row t
    pub claimable : is_claimable held now row ≡ true
    pub locked : c ≡ to_claimed (lock_row instance_id now row)

  In-of_All :
      (xs : Table)
      → All (λ y. In y t × (is_claimable held now y ≡ true)) xs
      → (s : OutboxRow) → In s xs
      → In s t × (is_claimable held now s ≡ true)
  In-of_All [] a s h = absurd h
  In-of_All (x ∷ xs) a s (inl e) = rw e a.0
  In-of_All (x ∷ xs) a s (inr h) = In-of_All xs a.1 s h

  claimed_rows :
      (rs : Table)
      → HasUniqueIds t
      → ((r : OutboxRow) → In r rs → In r t)
      → All IsClaimOf (map to_claimed (updated (is_in (ids chosen)) (lock_row instance_id now) rs))
  unfolding updated
  claimed_rows [] u h = tt
  claimed_rows (r ∷ rs) u h = elim (Bool-cases (is_in (ids chosen) r)) [
    | inl e ↦ rw e (claim_of_row e, claimed_rows rs u (λ x k. h x (inr k)))
    | inr e ↦ rw e (claimed_rows rs u (λ x k. h x (inr k)))
  ]
    where
      claim_of_row :
          is_in (ids chosen) r ≡ true → IsClaimOf (to_claimed (lock_row instance_id now r))
      claim_of_row e =
          let (s, k, same) = is_in-In chosen r e in
          let (present, ok) =
            In-of_All chosen (select_sound due (is_claimable held now) batch_size t).0 s k in
          let one = row_unique t s r u present (h r (inl refl)) same in
          record { row = s; present = present; claimable = ok; locked = rw one }

  claimed_length :
      HasUniqueIds t → length (claim_batch held instance_id batch_size now t).0 ≡ length chosen
  unfolding claim_batch
  claimed_length u =
      length-map to_claimed _
      ∙ length-updated (lock_row instance_id now) chosen t u
          (select-HasUniqueIds due (is_claimable held now) batch_size t u)
          (All-fst chosen (select_sound due (is_claimable held now) batch_size t).0)
    where
      All-fst :
          (xs : Table)
          → All (λ y. In y t × (is_claimable held now y ≡ true)) xs
          → All (λ y. In y t) xs
      All-fst [] a = tt
      All-fst (x ∷ xs) a = (a.0.0, All-fst xs a.1)

  In-updated :
      (b : OutboxRow) (rs : Table)
      → In b rs
      → is_in (ids chosen) b ≡ true
      → In
          (to_claimed (lock_row instance_id now b))
          (map to_claimed (updated (is_in (ids chosen)) (lock_row instance_id now) rs))
  unfolding updated
  In-updated b [] h e = absurd h
  In-updated b (r ∷ rs) (inl same) e = rw (← same, e) (inl refl)
  In-updated b (r ∷ rs) (inr h) e = elim (Bool-cases (is_in (ids chosen) r)) [
    | inl k ↦ rw k (inr (In-updated b rs h e))
    | inr k ↦ rw k (In-updated b rs h e)
  ]

  -- On a table with a primary key, a claim returns only rows that were pending and due and that no
  -- running statement held, each with its fencing token raised by one, and at most a batch of them.
  pub claim_batch-IsClaimOf :
      HasUniqueIds t
      → All IsClaimOf (claim_batch held instance_id batch_size now t).0
        × (length (claim_batch held instance_id batch_size now t).0 ≤ batch_size)
  unfolding claim_batch
  claim_batch-IsClaimOf u = (
    claimed_rows t u (λ r h. h),
    rw (claimed_length u) (select_sound due (is_claimable held now) batch_size t).1,
  )

  -- Nothing claimable is passed over: such a row is claimed, or the batch is full, of rows that
  -- were due no later.
  pub claim_batch_complete :
      (b : OutboxRow)
      → HasUniqueIds t
      → In b t
      → is_claimable held now b ≡ true
      → In
          (to_claimed (lock_row instance_id now b))
          (claim_batch held instance_id batch_size now t).0
        ⊎ ((length (claim_batch held instance_id batch_size now t).0 ≡ batch_size)
            × All (λ r. due r ≤ due b) chosen)
  unfolding claim_batch
  claim_batch_complete b u h e =
      elim (select_complete due (is_claimable held now) batch_size t b h e) [
        | inl k ↦ inl (In-updated b t h (In-is_in chosen b k))
        | inr (full, le) ↦ inr (claimed_length u ∙ full, le)
      ]
