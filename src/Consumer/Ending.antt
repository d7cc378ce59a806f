-- ===== src/Consumer/Ending.antt =====
-- How the catch block of `handleMessage` ends.
use contract_driven_messagin.Common.{
  ℕ, suc, ◌+◌, ◌≡◌, ◌≤◌, length, refl, ap, String, Bool, true, false, List, ◌∷◌, Thrown, Run,
  returned, threw, Reply, gives, fails, arith, Ends,
}
use contract_driven_messagin.Contracts.Value.{Fields}
use contract_driven_messagin.Contracts.Events.{EventV2}
use contract_driven_messagin.AmqpClient.{AmqpClient, get_channel}
use contract_driven_messagin.Database.{is_processed}
use contract_driven_messagin.Consumer.Retry.{
  RetryEnv, retry_message, publish_copy, retry_channel, wait_if_published, publish_to_retry,
}
use contract_driven_messagin.Consumer.Env.{ConsumerEnv}
use contract_driven_messagin.Consumer.Recovery.{
  retry_headers, is_retryable, finish_retry, schedule_retry, route_to_dlq, recover,
}
use contract_driven_messagin.Consumer.{
  RetryMessage, Delivery, Settlement, ack, nack_requeue, nack_dead_letter, ConsumerState, settle,
  count_metric, read_retry_count,
}

module _ (env : RetryEnv) (content : String) (headers : Fields) (n : ℕ) (s : ConsumerState) where
  abbrev pub IsScheduled : ConsumerState → Type 0
  IsScheduled s' =
      (s'.retries ≡ retry_message env content headers n ∷ s.retries)
      × (s'.settled ≡ s.settled)
      × (s'.database ≡ s.database)
      × (env.published ≡ gives true)
      × (env.confirmed ≡ gives tt)

  -- The copy may have been handed over and not confirmed.
  abbrev pub IsUnscheduled : ConsumerState → Type 0
  IsUnscheduled s' =
      (s'.settled ≡ s.settled)
      × (s'.database ≡ s.database)
      × (length s'.retries ≤ suc (length s.retries))

  publish_to_retry-Ends_of :
      (g : Run AmqpClient Bool) (p : Reply Bool) (c : Reply (Unit {0}))
      → get_channel env.connect s.client ≡ g
      → env.published ≡ p
      → env.confirmed ≡ c
      → Ends
          (λ _ s'. IsScheduled s')
          (λ _ s'. IsUnscheduled s')
          (publish_to_retry env content headers n s)
  unfolding publish_to_retry retry_channel publish_copy wait_if_published
  publish_to_retry-Ends_of (threw e cl) p c eg ep ec = rw (Ends, eg) (refl, refl, omega arith)
  publish_to_retry-Ends_of (returned false cl) p c eg ep ec =
      rw (Ends, eg) (refl, refl, omega arith)
  publish_to_retry-Ends_of (returned true cl) (fails e) c eg ep ec =
      rw (Ends, eg, ep) (refl, refl, omega arith)
  publish_to_retry-Ends_of (returned true cl) (gives false) c eg ep ec =
      rw (Ends, eg, ep) (refl, refl, omega arith)
  publish_to_retry-Ends_of (returned true cl) (gives true) (fails e) eg ep ec =
      rw (Ends, eg, ep, ec) (refl, refl, omega arith)
  publish_to_retry-Ends_of (returned true cl) (gives true) (gives u) eg ep ec =
      rw (Ends, eg, ep, ec) (refl, refl, refl, ep, ec)

  publish_to_retry-Ends :
      Ends
        (λ _ s'. IsScheduled s')
        (λ _ s'. IsUnscheduled s')
        (publish_to_retry env content headers n s)
  publish_to_retry-Ends =
      publish_to_retry-Ends_of (get_channel env.connect s.client) env.published env.confirmed refl
        refl refl

-- How the try block and the catch block of one validated event end, after `n` recorded attempts.
pub data EventEnd (env : ConsumerEnv) (d : Delivery) (event : EventV2) (n : ℕ)
    (settled : List Settlement) (retries : List RetryMessage) (s' : ConsumerState) : Type 0 where
  acked_processed :
      s'.settled ≡ ack ∷ settled
      → s'.retries ≡ retries
      → is_processed event.event_id s'.database.tables.processed ≡ true
      → EventEnd env d event n settled retries s'
  acked_retried :
      (err : Thrown)
      → is_retryable err n ≡ true
      → s'.settled ≡ ack ∷ settled
      → s'.retries
        ≡ retry_message env.retry_env d.content
            (retry_headers env d event err)
            (read_retry_count d + 1)
          ∷ retries
      → env.retry_env.published ≡ gives true
      → env.retry_env.confirmed ≡ gives tt
      → EventEnd env d event n settled retries s'
  requeued :
      (err : Thrown)
      → is_retryable err n ≡ true
      → s'.settled ≡ nack_requeue ∷ settled
      → length s'.retries ≤ suc (length retries)
      → EventEnd env d event n settled retries s'
  dead_lettered :
      (err : Thrown)
      → is_retryable err n ≡ false
      → s'.settled ≡ nack_dead_letter ∷ settled
      → s'.retries ≡ retries
      → EventEnd env d event n settled retries s'

module _ (env : ConsumerEnv) (d : Delivery) (event : EventV2) (n : ℕ) where
  -- The state that the catch block finds, and the database that it leaves as it is.
  schedule_retry-Ends :
      (err : Thrown) (s : ConsumerState)
      → is_retryable err n ≡ true
      → Ends
          (λ _ s'. EventEnd env d event n s.settled s.retries s' × (s'.database ≡ s.database))
          (λ _ _. ⊥)
          (schedule_retry env d event err s)
  unfolding schedule_retry settle count_metric finish_retry
  schedule_retry-Ends err s retryable =
      by_run
        (publish_to_retry env.retry_env d.content (retry_headers env d event err)
          (read_retry_count d + 1) s)
        refl
        (publish_to_retry-Ends env.retry_env d.content (retry_headers env d event err)
          (read_retry_count d + 1) s)
    where
      by_run :
          (r : Run ConsumerState (Unit {0}))
          → publish_to_retry env.retry_env d.content
              (retry_headers env d event err)
              (read_retry_count d + 1)
              s
            ≡ r
          → Ends
              (λ _ s'.
                IsScheduled env.retry_env d.content
                  (retry_headers env d event err)
                  (read_retry_count d + 1)
                  s
                  s')
              (λ _ s'.
                IsUnscheduled env.retry_env d.content
                  (retry_headers env d event err)
                  (read_retry_count d + 1)
                  s
                  s')
              r
          → Ends
              (λ _ s'. EventEnd env d event n s.settled s.retries s' × (s'.database ≡ s.database))
              (λ _ _. ⊥)
              (schedule_retry env d event err s)
      by_run (returned u s') eq (copy, settled, database, published, confirmed) =
          rw (Ends, eq)
            (acked_retried err retryable (ap (◌∷◌ ack) settled) copy published confirmed, database)
      by_run (threw e s') eq (settled, database, few) =
          rw (Ends, eq) (requeued err retryable (ap (◌∷◌ nack_requeue) settled) few, database)

  pub recover-Ends :
      (event_type : String) (err : Thrown) (s : ConsumerState) (b : Bool)
      → is_retryable err n ≡ b
      → Ends
          (λ _ s'. EventEnd env d event n s.settled s.retries s' × (s'.database ≡ s.database))
          (λ _ _. ⊥)
          (recover env d event_type event n err s)
  unfolding recover count_metric route_to_dlq settle
  recover-Ends event_type err s true eb = rw (Ends, eb) (schedule_retry-Ends err _ eb)
  recover-Ends event_type err s false eb = rw (Ends, eb) (dead_lettered err eb refl refl, refl)
