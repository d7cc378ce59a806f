-- ===== src/Relay/Publish.antt =====
-- Every way `publishOne` can end.
use contract_driven_messagin.Common.{
  ℕ, String, ◌+◌, ◌≤◌, ◌<◌, ◌≡◌, refl, ap, ◌∙◌, ◌⊎◌, inl, inr, Bool, true, false, [], ◌∷◌, Thrown,
  Run, returned, threw, Reply, gives, fails, arith, length, keep, final_state,
}
use contract_driven_messagin.AmqpClient.{AmqpClient, get_channel}
use contract_driven_messagin.RetryPolicy.{
  FailureOutcome, retry, dead_letter, compute_failure_outcome,
}
use contract_driven_messagin.Outbox.{sent, OutboxRow, Table}
use contract_driven_messagin.Outbox.Update.{update_where}
use contract_driven_messagin.Relay.Rows.{
  ClaimedRow, is_claim, mark_sent, mark_failed_attempt, failed_row, error_message,
}
use contract_driven_messagin.Relay.History.{IsAhead}
use contract_driven_messagin.Relay.Fencing.{mark_sent-stale, mark_failed_attempt-stale}
use contract_driven_messagin.Relay.{
  RelayState, PublishEnv, Wire, message_of, open_channel, publish, require, fenced_update,
  publish_one, type_error, back_pressure,
}

-- Either the message was handed over, accepted and confirmed, and the row is marked; or something
-- threw before the row was marked, and the failure is booked.
pub data PublishView (w : Wire) (env : PublishEnv) (row : ClaimedRow) (s : RelayState)
    (r : Run RelayState (Unit {0})) : Type 0 where
  confirmed_send :
      (s' : RelayState)
      → s'.table ≡ s.table
      → s'.fenced ≡ s.fenced
      → s'.handed ≡ message_of w row ∷ s.handed
      → env.published ≡ gives true
      → env.confirmed ≡ gives tt
      → env.sent_query ≡ gives tt
      → r ≡ fenced_update (gives tt) (mark_sent row.id row.lock_version env.now) s'
      → PublishView w env row s r
  booked_failure :
      (err : Thrown) (s' : RelayState)
      → s'.table ≡ s.table
      → s'.fenced ≡ s.fenced
      → r ≡ fenced_update env.failed_query (mark_failed_attempt row err env.now) s'
      → PublishView w env row s r

module _ (w : Wire) (env : PublishEnv) (row : ClaimedRow) (s : RelayState) where
  view :
      (g : Run AmqpClient Bool) (p : Reply Bool) (c q : Reply (Unit {0}))
      → get_channel env.connect s.client ≡ g
      → env.published ≡ p
      → env.confirmed ≡ c
      → env.sent_query ≡ q
      → PublishView w env row s (publish_one w env row s)
  unfolding publish_one open_channel publish require fenced_update
  view (threw e cl) p c q eg ep ec eq =
      booked_failure e (record s { client = cl }) refl refl (ground arith)
  view (returned false cl) p c q eg ep ec eq =
      booked_failure type_error (record s { client = cl }) refl refl (ground arith)
  view (returned true cl) (fails e) c q eg ep ec eq =
      booked_failure e (record s { client = cl }) refl refl (ground arith)
  view (returned true cl) (gives false) c q eg ep ec eq =
      booked_failure back_pressure (record s { client = cl; handed = message_of w row ∷ s.handed })
        refl refl (ground arith)
  view (returned true cl) (gives true) (fails e) q eg ep ec eq =
      booked_failure e (record s { client = cl; handed = message_of w row ∷ s.handed }) refl refl
        (ground arith)
  view (returned true cl) (gives true) (gives u) (fails e) eg ep ec eq =
      booked_failure e (record s { client = cl; handed = message_of w row ∷ s.handed }) refl refl
        (ground arith)
  view (returned true cl) (gives true) (gives u) (gives u') eg ep ec eq =
      confirmed_send (record s { client = cl; handed = message_of w row ∷ s.handed }) refl refl refl
        ep ec eq (ground arith)

  pub publish_one_view : PublishView w env row s (publish_one w env row s)
  publish_one_view =
      view (get_channel env.connect s.client) env.published env.confirmed env.sent_query refl refl
        refl refl

abbrev is_sent : OutboxRow → Bool
is_sent r = elim r.status [ sent ↦ true | _ ↦ false ]

-- How many rows of the table are `sent`.
abbrev pub sent_count : Table → ℕ
sent_count t = length (keep is_sent t)

sent_count-failed :
    (p : OutboxRow → Bool) (o : FailureOutcome) (m : String) (now : ℕ) (t : Table)
    → sent_count (update_where p (failed_row o m now) t) ≤ sent_count t
unfolding update_where
sent_count-failed p o m now [] = omega arith
sent_count-failed p (retry at n) m now (r ∷ t) =
    ground (arith, sent_count-failed p (retry at n) m now t)
sent_count-failed p (dead_letter n) m now (r ∷ t) =
    ground (arith, sent_count-failed p (dead_letter n) m now t)

sent_count-mark_failed :
    (row : ClaimedRow) (err : Thrown) (now : ℕ) (q : Reply (Unit {0})) (s : RelayState)
    → sent_count (final_state (fenced_update q (mark_failed_attempt row err now) s)).table
      ≤ sent_count s.table
unfolding fenced_update mark_failed_attempt
sent_count-mark_failed row err now (fails e) s = omega arith
sent_count-mark_failed row err now (gives u) s =
    sent_count-failed (is_claim row.id row.lock_version)
      (compute_failure_outcome row.attempts row.max_attempts now) (error_message err) now s.table

-- `publishOne` makes a row `sent` only after the channel took exactly that row's message, the
-- broker confirmed it, and the database made the change.
pub publish_one_sent :
    (w : Wire) (env : PublishEnv) (row : ClaimedRow) (s : RelayState)
    → sent_count s.table < sent_count (final_state (publish_one w env row s)).table
    → (env.published ≡ gives true)
      × (env.confirmed ≡ gives tt)
      × (env.sent_query ≡ gives tt)
      × ((final_state (publish_one w env row s)).handed ≡ message_of w row ∷ s.handed)
unfolding fenced_update
publish_one_sent w env row s lt = elim (publish_one_view w env row s) [
  | confirmed_send s' same _ handed p c q r ↦ (p, c, q, rw r handed)
  | booked_failure err s' same _ r ↦ absurd (
      omega (
        arith,
        sent_count-mark_failed row err env.now env.failed_query s',
        ap (λ (x : Run RelayState (Unit {0})). sent_count (final_state x).table) r,
        ap sent_count same,
      ))
]

fenced_update-stale :
    (q : Reply (Unit {0})) (change : Table → Bool × Table) (s : RelayState)
    → change s.table ≡ (false, s.table)
    → ((final_state (fenced_update q change s)).table ≡ s.table)
      × (((final_state (fenced_update q change s)).fenced ≡ s.fenced + 1)
          ⊎ ((e : Thrown) × (q ≡ fails e)))
unfolding fenced_update
fenced_update-stale (fails e) change s h = (refl, inr (e, refl))
fenced_update-stale (gives u) change s h = rw h (refl, inl refl)

-- `publishOne` with a token that a later claim has passed leaves the table as it is, whatever the
-- services answer, and counts one fenced publish, unless the failure could not be booked because
-- the database failed.
pub publish_one_fenced :
    (w : Wire) (env : PublishEnv) (row : ClaimedRow) (s : RelayState)
    → IsAhead row.id row.lock_version s.table
    → ((final_state (publish_one w env row s)).table ≡ s.table)
      × (((final_state (publish_one w env row s)).fenced ≡ s.fenced + 1)
          ⊎ ((e : Thrown) × (env.failed_query ≡ fails e)))
publish_one_fenced w env row s h = elim (publish_one_view w env row s) [
  | confirmed_send s' same f _ _ _ _ r ↦
      let stale = mark_sent-stale row.id row.lock_version env.now s'.table (rw same h) in
      let (t, n) = fenced_update-stale (gives tt) _ s' stale in
      rw r (t ∙ same, elim n [ inl k ↦ inl (k ∙ ap (λ x. x + 1) f) | inr (e, k) ↦ cc ])
  | booked_failure err s' same f r ↦
      let stale = mark_failed_attempt-stale row err env.now s'.table (rw same h) in
      let (t, n) = fenced_update-stale env.failed_query _ s' stale in
      rw r (t ∙ same, elim n [ inl k ↦ inl (k ∙ ap (λ x. x + 1) f) | inr k ↦ inr k ])
]
