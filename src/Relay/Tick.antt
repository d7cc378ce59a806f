-- ===== src/Relay/Tick.antt =====
-- A whole tick, undisturbed by other instances and with the database up.
use contract_driven_messagin.Common.{
  ℕ, ◌≡◌, refl, ap, ◌∙◌, String, Bool, List, [], ◌∷◌, none, returned, Reply, gives, fails, All,
}
use contract_driven_messagin.RetryPolicy.{FailureOutcome, retry, dead_letter}
use contract_driven_messagin.Outbox.{OutboxRow, Table}
use contract_driven_messagin.Outbox.Identity.{HasUniqueIds}
use contract_driven_messagin.Outbox.Update.{update_where}
use contract_driven_messagin.Relay.Rows.{
  ClaimedRow, claim_batch, is_claim, sent_row, mark_sent, failed_row, mark_failed_attempt,
  error_message,
}
use contract_driven_messagin.Relay.Fencing.{IsCurrent}
use contract_driven_messagin.Relay.Publish.{confirmed_send, booked_failure, publish_one_view}
use contract_driven_messagin.Relay.{
  RelayState, PublishEnv, Wire, fenced_update, publish_one, publish_all, run_relay_tick,
}
use contract_driven_messagin.Relay.Settling.{
  Has, Releases, Settles, settles, Settles-Has, Settles-All-IsCurrent, Settles-frees,
  claim_batch-AreCurrent,
}

abbrev IsFree : OutboxRow → Type 0
IsFree r = r.locked_at ≡ none

-- Every row with this id is unlocked.
abbrev pub IsUnlocked : ℕ → Table → Type 0
IsUnlocked = Has IsFree

sent_row-Releases : (now : ℕ) → Releases IsFree (sent_row now)
sent_row-Releases now = record { same_id = λ r. refl; same_version = λ r. refl; holds = λ r. refl }

failed_row-Releases :
    (o : FailureOutcome) (m : String) (now : ℕ) → Releases IsFree (failed_row o m now)
failed_row-Releases (retry at n) m now = record {
  same_id = λ r. refl;
  same_version = λ r. refl;
  holds = λ r. refl;
}
failed_row-Releases (dead_letter n) m now = record {
  same_id = λ r. refl;
  same_version = λ r. refl;
  holds = λ r. refl;
}

-- The database answers both of a row's statements.
abbrev pub IsDatabaseUp : PublishEnv → Type 0
IsDatabaseUp env = (env.sent_query ≡ gives tt) × (env.failed_query ≡ gives tt)

fenced_update-returns :
    (q : Reply (Unit {0})) (change : Table → Bool × Table) (s : RelayState)
    → q ≡ gives tt
    → (s' : RelayState) × (fenced_update q change s ≡ returned tt s')
      × (s'.table ≡ (change s.table).1)
unfolding fenced_update
fenced_update-returns (gives u) change s h = (_, refl, refl)
fenced_update-returns (fails e) change s h = cc

publish_one-Settles :
    (w : Wire) (env : PublishEnv) (c : ClaimedRow) (s : RelayState)
    → IsDatabaseUp env
    → (s' : RelayState) × (publish_one w env c s ≡ returned tt s')
      × Settles IsFree c s.table s'.table
unfolding mark_sent mark_failed_attempt
publish_one-Settles w env c s up = elim (publish_one_view w env c s) [
  | confirmed_send s₁ same _ _ _ _ _ r ↦
      let (s', e, t) =
        fenced_update-returns (gives tt) (mark_sent c.id c.lock_version env.now) s₁ refl in
      (
        s',
        r ∙ e,
        settles (sent_row env.now) (sent_row-Releases env.now)
            (t ∙ ap (update_where (is_claim c.id c.lock_version) (sent_row env.now)) same),
      )
  | booked_failure err s₁ same _ r ↦
      let (s', e, t) =
        fenced_update-returns env.failed_query (mark_failed_attempt c err env.now) s₁ up.1 in
      (
        s',
        r ∙ e,
        settles _ (failed_row-Releases _ (error_message err) env.now)
            (t ∙ ap (update_where (is_claim c.id c.lock_version) _) same),
      )
]

module _ (w : Wire) (env : ClaimedRow → PublishEnv)
    (up : (c : ClaimedRow) → IsDatabaseUp (env c)) where
  -- The loop keeps what is unlocked so, and unlocks the rows that it publishes.
  publish_all_unlocks :
      (cs : List ClaimedRow) (s : RelayState)
      → All (λ c. IsCurrent c s.table) cs
      → (s' : RelayState) × (publish_all w env cs s ≡ returned tt s')
        × All (λ c. IsUnlocked c.id s'.table) cs
        × ((i : ℕ) → IsUnlocked i s.table → IsUnlocked i s'.table)
  unfolding publish_all
  publish_all_unlocks [] s h = (s, refl, tt, λ i k. k)
  publish_all_unlocks (c ∷ cs) s h =
      let (s₁, e, k) = publish_one-Settles w (env c) c s (up c) in
      let (s', e', freed, kept) =
        publish_all_unlocks cs s₁ (Settles-All-IsCurrent IsFree c cs k h.1) in
      (
        s',
        rw (e, publish_all) e',
        (kept c.id (Settles-frees IsFree c k h.0), freed),
        λ i u. kept i (Settles-Has IsFree c i k u),
      )

  -- A tick that no other instance disturbs runs to its end, and leaves none of the rows that it
  -- claimed locked, whatever the broker does, as long as the database is up.
  pub run_relay_tick_unlocks :
      (held : ℕ → Bool) (instance_id : String) (batch_size now : ℕ) (s : RelayState)
      → HasUniqueIds s.table
      → (s' : RelayState) × (run_relay_tick w (gives tt) held instance_id batch_size now env s
          ≡ returned tt s')
        × All
            (λ c. IsUnlocked c.id s'.table)
            (claim_batch held instance_id batch_size now s.table).0
  unfolding run_relay_tick
  run_relay_tick_unlocks held instance_id batch_size now s u =
      let claimed = claim_batch held instance_id batch_size now s.table in
      let (s', e, freed, _) =
        publish_all_unlocks claimed.0 (record s { table = claimed.1 })
          (claim_batch-AreCurrent held instance_id batch_size now s.table u) in
      (s', e, freed)
