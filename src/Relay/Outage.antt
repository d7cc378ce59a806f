-- ===== src/Relay/Outage.antt =====
-- The relay while its channel is stuck: see `AmqpClient.Stuck`.
use contract_driven_messagin.Common.{
  ℕ, ◌≡◌, refl, sym, subst, ◌∙◌, String, Bool, List, [], ◌∷◌, Thrown, Run, returned, threw, Reply,
  gives, fails, arith, final_state,
}
use contract_driven_messagin.AmqpClient.Stuck.{IsStuck, get_channel_of_IsStuck}
use contract_driven_messagin.Outbox.{Table}
use contract_driven_messagin.Relay.Rows.{ClaimedRow, mark_failed_attempt, claim_batch}
use contract_driven_messagin.Relay.{
  RelayState, PublishEnv, Wire, open_channel, fenced_update, publish_one, publish_all,
  run_relay_tick,
}

-- What the services answer during one tick.
pub record Tick : Type 0 where
  pub wire : Wire
  pub claim_query : Reply (Unit {0})
  pub held : ℕ → Bool
  pub instance_id : String
  pub batch_size : ℕ
  pub now : ℕ
  pub env : ClaimedRow → PublishEnv

pub run_ticks : RelayState → List Tick → RelayState
run_ticks s [] = s
run_ticks s (k ∷ ks) =
    run_ticks
      (final_state
        (run_relay_tick k.wire k.claim_query k.held k.instance_id k.batch_size k.now k.env s))
      ks

module _ (e : Thrown) where
  -- While the channel is stuck, publishing a row only books a failure with the old error.
  publish_one-IsStuck :
      (w : Wire) (env : PublishEnv) (row : ClaimedRow) (s : RelayState)
      → IsStuck e s.client
      → publish_one w env row s
        ≡ fenced_update env.failed_query (mark_failed_attempt row e env.now) s
  unfolding publish_one open_channel
  publish_one-IsStuck w env row s h =
      ground (arith, get_channel_of_IsStuck e s.client env.connect h)

  abbrev SameChannel : RelayState → RelayState → Type 0
  SameChannel s s' = (s'.client ≡ s.client) × (s'.handed ≡ s.handed)

  fenced_update-SameChannel :
      (q : Reply (Unit {0})) (change : Table → Bool × Table) (s : RelayState)
      → SameChannel s (final_state (fenced_update q change s))
  unfolding fenced_update
  fenced_update-SameChannel (gives u) change s = (refl, refl)
  fenced_update-SameChannel (fails x) change s = (refl, refl)

  publish_all-SameChannel :
      (w : Wire) (env : ClaimedRow → PublishEnv) (rows : List ClaimedRow) (s : RelayState)
      → IsStuck e s.client
      → SameChannel s (final_state (publish_all w env rows s))
  unfolding publish_all
  publish_all-SameChannel w env [] s h = (refl, refl)
  publish_all-SameChannel w env (row ∷ rows) s h =
      rw (publish_one-IsStuck w (env row) row s h, publish_all)
        (go (fenced_update (env row).failed_query (mark_failed_attempt row e (env row).now) s)
          (fenced_update-SameChannel (env row).failed_query
            (mark_failed_attempt row e (env row).now) s)
          (λ s'. publish_all-SameChannel w env rows s'))
    where
      go :
          (r : Run RelayState (Unit {0}))
          → SameChannel s (final_state r)
          → ((s' : RelayState)
              → IsStuck e s'.client
              → SameChannel s' (final_state (publish_all w env rows s')))
          → SameChannel s (
              final_state
                (elim r [ returned _ s' ↦ publish_all w env rows s' | threw x s' ↦ threw x s' ]))
      go (returned u s') k ih =
          let rest = ih s' (subst (IsStuck e) (sym k.0) h) in (rest.0 ∙ k.0, rest.1 ∙ k.1)
      go (threw x s') k ih = k

  run_relay_tick-SameChannel :
      (k : Tick) (s : RelayState)
      → IsStuck e s.client
      → SameChannel s (
          final_state
            (run_relay_tick k.wire k.claim_query k.held k.instance_id k.batch_size k.now k.env s))
  unfolding run_relay_tick
  run_relay_tick-SameChannel k s h = go k.claim_query
    where
      go :
          (q : Reply (Unit {0}))
          → SameChannel s (
              final_state (run_relay_tick k.wire q k.held k.instance_id k.batch_size k.now k.env s))
      go (fails x) = (refl, refl)
      go (gives u) =
          publish_all-SameChannel k.wire k.env
            (claim_batch k.held k.instance_id k.batch_size k.now s.table).0
            (record s { table = (claim_batch k.held k.instance_id k.batch_size k.now s.table).1 }) h

  -- From a stuck channel on, no number of ticks hands another message to the broker or leaves the
  -- channel otherwise than stuck, whether the broker answers again or not.
  pub run_ticks-IsStuck :
      (ks : List Tick) (s : RelayState)
      → IsStuck e s.client
      → ((run_ticks s ks).handed ≡ s.handed) × IsStuck e (run_ticks s ks).client
  unfolding run_ticks
  run_ticks-IsStuck [] s h = (refl, h)
  run_ticks-IsStuck (k ∷ ks) s h =
      let (client, handed) = run_relay_tick-SameChannel k s h in
      let (later, stuck) = run_ticks-IsStuck ks _ (subst (IsStuck e) (sym client) h) in
      (later ∙ handed, stuck)
