-- ===== src/Relay/Settling.antt =====
-- What marking a row leaves of the rows: it concerns the row's own id only, and keeps tokens.
use contract_driven_messagin.Common.{
  ℕ, ◌≡◌, refl, sym, ◌∙◌, inl, inr, String, Bool, true, false, List, [], ◌∷◌, arith, Bool-cases,
  All, In,
}
use contract_driven_messagin.Outbox.{OutboxRow, Table}
use contract_driven_messagin.Outbox.Identity.{HasUniqueIds}
use contract_driven_messagin.Outbox.Update.{update_where}
use contract_driven_messagin.Relay.Rows.{ClaimedRow, claim_batch, is_claim}
use contract_driven_messagin.Relay.Fencing.{IsCurrent, claimed-IsCurrent}

-- Every row with this id has the property.
abbrev pub Has : (OutboxRow → Type 0) → ℕ → Table → Type 0
Has P id = All (λ r. r.id ≡ id → P r)

-- A change of a row that gives it the property.
pub record Releases (P : OutboxRow → Type 0) (f : OutboxRow → OutboxRow) : Type 0 where
  pub same_id : (r : OutboxRow) → (f r).id ≡ r.id
  pub same_version : (r : OutboxRow) → (f r).lock_version ≡ r.lock_version
  pub holds : (r : OutboxRow) → P (f r)

-- What publishing the row `c` does to the table.
pub data Settles (P : OutboxRow → Type 0) (c : ClaimedRow) (t t' : Table) : Type 0 where
  settles :
      (f : OutboxRow → OutboxRow)
      → Releases P f
      → t' ≡ update_where (is_claim c.id c.lock_version) f t
      → Settles P c t t'

module _ (P : OutboxRow → Type 0) where
  module _ (id version : ℕ) (f : OutboxRow → OutboxRow) (k : Releases P f) where
    update_where-Has :
        (i : ℕ) (t : Table) → Has P i t → Has P i (update_where (is_claim id version) f t)
    unfolding update_where
    update_where-Has i [] h = tt
    update_where-Has i (r ∷ t) h = elim (Bool-cases (is_claim id version r)) [
      | inl e ↦ rw e ((λ _. k.holds r), update_where-Has i t h.1)
      | inr e ↦ rw e (h.0, update_where-Has i t h.1)
    ]

    update_where-IsCurrent :
        (c : ClaimedRow) (t : Table)
        → IsCurrent c t
        → IsCurrent c (update_where (is_claim id version) f t)
    unfolding update_where
    update_where-IsCurrent c [] h = tt
    update_where-IsCurrent c (r ∷ t) h = elim (Bool-cases (is_claim id version r)) [
      | inl e ↦ rw e (
        λ same. k.same_version r ∙ h.0 (sym (k.same_id r) ∙ same),
        update_where-IsCurrent c t h.1,
      )
      | inr e ↦ rw e (h.0, update_where-IsCurrent c t h.1)
    ]

  Has-of_current :
      (c : ClaimedRow) (f : OutboxRow → OutboxRow) (t : Table)
      → Releases P f
      → IsCurrent c t
      → Has P c.id (update_where (is_claim c.id c.lock_version) f t)
  unfolding update_where
  Has-of_current c f [] k h = tt
  Has-of_current c f (r ∷ t) k h = elim (Bool-cases (is_claim c.id c.lock_version r)) [
    | inl e ↦ rw e ((λ _. k.holds r), Has-of_current c f t k h.1)
    | inr e ↦ rw e ((λ same. cc (matches same (h.0 same) e)), Has-of_current c f t k h.1)
  ]
    where
      matches :
          r.id ≡ c.id
          → r.lock_version ≡ c.lock_version
          → is_claim c.id c.lock_version r ≡ false
          → true ≡ false
      matches a b e = ground arith

  pub Settles-Has :
      (c : ClaimedRow) (i : ℕ) {t t' : Table} → Settles P c t t' → Has P i t → Has P i t'
  Settles-Has c i {t} (settles f k e) h = rw e (update_where-Has c.id c.lock_version f k i t h)

  pub Settles-All-IsCurrent :
      (c : ClaimedRow) (cs : List ClaimedRow) {t t' : Table}
      → Settles P c t t'
      → All (λ d. IsCurrent d t) cs
      → All (λ d. IsCurrent d t') cs
  Settles-All-IsCurrent c [] k h = tt
  Settles-All-IsCurrent c (d ∷ cs) {t} (settles f k e) h = (
    rw e (update_where-IsCurrent c.id c.lock_version f k d t h.0),
    Settles-All-IsCurrent c cs (settles f k e) h.1,
  )

  pub Settles-frees :
      (c : ClaimedRow) {t t' : Table} → Settles P c t t' → IsCurrent c t → Has P c.id t'
  Settles-frees c {t} (settles f k e) h = rw e (Has-of_current c f t k h)

-- Right after the claim, all claimed rows' tokens are those in the table.
pub claim_batch-AreCurrent :
    (held : ℕ → Bool) (instance_id : String) (batch_size now : ℕ) (t : Table)
    → HasUniqueIds t
    → let claimed = claim_batch held instance_id batch_size now t in
      All (λ c. IsCurrent c claimed.1) claimed.0
unfolding claim_batch
claim_batch-AreCurrent held instance_id batch_size now t u =
    currents (claim_batch held instance_id batch_size now t).0 (λ c h. h)
  where
    currents :
        (cs : List ClaimedRow)
        → ((c : ClaimedRow) → In c cs → In c (claim_batch held instance_id batch_size now t).0)
        → All (λ c. IsCurrent c (claim_batch held instance_id batch_size now t).1) cs
    currents [] h = tt
    currents (c ∷ cs) h = (
      (claimed-IsCurrent _ instance_id now c t u (h c (inl refl))).1,
      currents cs (λ d k. h d (inr k)),
    )
