-- ===== src/Relay/Sending.antt =====
-- A tick while the broker and the database answer.
use contract_driven_messagin.Common.{
  ℕ, ◌≡◌, refl, ap, ◌∙◌, ◌⊎◌, inl, inr, String, Bool, true, false, List, [], ◌∷◌, none, some, ◌+◌,
  if◌then◌else◌, returned, gives, arith, All,
}
use contract_driven_messagin.AmqpClient.{AmqpClient, connects, resolved, get_channel, connect_amqp}
use contract_driven_messagin.Outbox.{sent, OutboxRow}
use contract_driven_messagin.Outbox.Identity.{HasUniqueIds}
use contract_driven_messagin.Relay.Rows.{ClaimedRow, claim_batch, sent_row, mark_sent}
use contract_driven_messagin.Relay.Fencing.{IsCurrent}
use contract_driven_messagin.Relay.Settling.{
  Has, Releases, Settles, settles, Settles-Has, Settles-All-IsCurrent, Settles-frees,
  claim_batch-AreCurrent,
}
use contract_driven_messagin.Relay.{
  RelayState, PublishEnv, Wire, AmqpMessage, message_of, open_channel, publish, require,
  fenced_update, publish_one, publish_all, run_relay_tick,
}

-- A channel is there, or may be opened.
abbrev pub CanOpen : AmqpClient → Type 0
CanOpen c = (c.channel ≡ true) ⊎ ((c.channel ≡ false) × (c.connecting ≡ none))

-- The broker connects, takes the message and confirms it, and the database makes the change.
pub record IsWorking (env : PublishEnv) : Type 0 where
  pub connect : env.connect ≡ connects
  pub published : env.published ≡ gives true
  pub confirmed : env.confirmed ≡ gives tt
  pub sent_query : env.sent_query ≡ gives tt

abbrev pub IsSent : OutboxRow → Type 0
IsSent r = r.status ≡ sent

sent_row-Releases : (now : ℕ) → Releases IsSent (sent_row now)
sent_row-Releases now = record { same_id = λ r. refl; same_version = λ r. refl; holds = λ r. refl }

-- The messages of the rows, handed over one after the other.
abbrev pub handed_after : Wire → List ClaimedRow → List AmqpMessage → List AmqpMessage
handed_after w [] handed = handed
handed_after w (c ∷ cs) handed = handed_after w cs (message_of w c ∷ handed)

get_channel_opens :
    (c : AmqpClient)
    → CanOpen c
    → (c' : AmqpClient) × (get_channel connects c ≡ returned true c') × (c'.channel ≡ true)
unfolding get_channel connect_amqp
get_channel_opens c (inl h) = (c, rw h refl, h)
get_channel_opens c (inr (h, n)) = (
  record {
    channel = true;
    connection = true;
    connecting = some resolved;
    open_connections = c.open_connections + 1;
  },
  rw (h, n) refl,
  refl,
)

abbrev sent_state : Wire → PublishEnv → ClaimedRow → RelayState → AmqpClient → RelayState
sent_state w env c s client =
    let marked = mark_sent c.id c.lock_version env.now s.table in
    record s {
      client = client;
      handed = message_of w c ∷ s.handed;
      table = marked.1;
      fenced = if marked.0 then s.fenced else s.fenced + 1;
    }

publish_one_run :
    (w : Wire) (env : PublishEnv) (c : ClaimedRow) (s : RelayState) (client : AmqpClient)
    → get_channel env.connect s.client ≡ returned true client
    → env.published ≡ gives true
    → env.confirmed ≡ gives tt
    → env.sent_query ≡ gives tt
    → publish_one w env c s ≡ returned tt (sent_state w env c s client)
unfolding publish_one open_channel publish require fenced_update
publish_one_run w env c s client eg ep ec eq = ground arith

publish_one_sends :
    (w : Wire) (env : PublishEnv) (c : ClaimedRow) (s : RelayState)
    → IsWorking env
    → CanOpen s.client
    → (s' : RelayState) × (publish_one w env c s ≡ returned tt s')
      × Settles IsSent c s.table s'.table
      × (s'.handed ≡ message_of w c ∷ s.handed)
      × CanOpen s'.client
unfolding mark_sent
publish_one_sends w env c s up can =
    let (client, g, opened) = get_channel_opens s.client can in
    (
      sent_state w env c s client,
      publish_one_run w env c s client (rw up.connect g) up.published up.confirmed up.sent_query,
      settles (sent_row env.now) (sent_row-Releases env.now) refl,
      refl,
      inl opened,
    )

module _ (w : Wire) (env : ClaimedRow → PublishEnv)
    (up : (c : ClaimedRow) → IsWorking (env c)) where
  publish_all_sends :
      (cs : List ClaimedRow) (s : RelayState)
      → CanOpen s.client
      → All (λ c. IsCurrent c s.table) cs
      → (s' : RelayState) × (publish_all w env cs s ≡ returned tt s')
        × All (λ c. Has IsSent c.id s'.table) cs
        × ((i : ℕ) → Has IsSent i s.table → Has IsSent i s'.table)
        × (s'.handed ≡ handed_after w cs s.handed)
  unfolding publish_all
  publish_all_sends [] s can h = (s, refl, tt, (λ i k. k), refl)
  publish_all_sends (c ∷ cs) s can h =
      let (s₁, e, k, handed, can₁) = publish_one_sends w (env c) c s (up c) can in
      let (s', e', all, kept, handed') =
        publish_all_sends cs s₁ can₁ (Settles-All-IsCurrent IsSent c cs k h.1) in
      (
        s',
        rw (e, publish_all) e',
        (kept c.id (Settles-frees IsSent c k h.0), all),
        (λ i u. kept i (Settles-Has IsSent c i k u)),
        handed' ∙ ap (handed_after w cs) handed,
      )

  -- While the broker and the database answer, a tick that no other instance disturbs, with a channel
  -- or none tried yet, runs to its end, hands over the messages of the rows that it claimed, each
  -- once and in their order, and leaves every one of those rows `sent`.
  pub run_relay_tick_sends :
      (held : ℕ → Bool) (instance_id : String) (batch_size now : ℕ) (s : RelayState)
      → HasUniqueIds s.table
      → CanOpen s.client
      → let claimed = claim_batch held instance_id batch_size now s.table in
        (s' : RelayState) × (run_relay_tick w (gives tt) held instance_id batch_size now env s
          ≡ returned tt s')
        × All (λ c. Has IsSent c.id s'.table) claimed.0
        × (s'.handed ≡ handed_after w claimed.0 s.handed)
  unfolding run_relay_tick
  run_relay_tick_sends held instance_id batch_size now s u can =
      let claimed = claim_batch held instance_id batch_size now s.table in
      let (s', e, all, _, handed) =
        publish_all_sends claimed.0 (record s { table = claimed.1 }) can
          (claim_batch-AreCurrent held instance_id batch_size now s.table u) in
      (s', e, all, handed)
