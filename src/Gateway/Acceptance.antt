-- ===== src/Gateway/Acceptance.antt =====
-- What an accepted request guarantees.
use contract_driven_messagin.Common.{
  ℕ, ◌≤◌, ◌≡◌, refl, sym, ap, subst, ◌⊎◌, inl, inr, String, true, false, [], ◌∷◌, ◌++◌, Option,
  none, some, Thrown, Run, returned, threw, Prog, ◌>>=◌, ◌>>◌, pure, throw, try_catch, await, Reply,
  gives, fails, Ends, try_catch-Ends, bind-Ends, finally-Ends, le→leb,
}
use contract_driven_messagin.Contracts.SchemaVersion.{SchemaVersion, v2}
use contract_driven_messagin.Contracts.Events.{
  EventV2, ValidateEventResult, valid, invalid, validate_event,
}
use contract_driven_messagin.Topology.{
  create_message_v1, create_message_v2, resolve_outbox_route, command_route, is_command_event_type,
}
use contract_driven_messagin.Outbox.{OutboxRow}
use contract_driven_messagin.Database.{CommitReply, commits, lost_before, lost_after}
use contract_driven_messagin.Relay.Rows.{is_claimable}
use contract_driven_messagin.Gateway.Send.{
  SendEnv, GatewayState, Accepted, SendAnswer, accepted, bad_request, Outgoing, outgoing_input,
  outgoing_v2, count_gateway, publish_stage, send_event, send_test_message, send_built_v2,
  send_test_message_v2,
}
use contract_driven_messagin.Gateway.{
  GatewayDatabase, GatewayOutboxEventInput, GatewayTransactionEnv, start_gateway_transaction,
  commit_gateway_transaction, rollback_gateway_transaction, new_gateway_row, insert_outbox_event,
  without_writes, run_with_outbox_event, record_event,
}

abbrev pub IsIdle : GatewayDatabase → Type 0
IsIdle s = s.before ≡ none

module _ (env : GatewayTransactionEnv) (event : GatewayOutboxEventInput) (s : GatewayDatabase) where
  -- The event's row is the only change, and no transaction is open.
  abbrev pub IsRecorded : OutboxRow → GatewayDatabase → Type 0
  IsRecorded row s' =
      IsIdle s'
      × ((id : ℕ) × (row ≡ new_gateway_row env event id))
      × (s'.table ≡ s.table ++ (row ∷ []))

  abbrev pub IsRecordedOrNot : GatewayDatabase → Type 0
  IsRecordedOrNot s' = IsIdle s' × ((s'.table ≡ s.table) ⊎ ((row : OutboxRow) × IsRecorded row s'))

  abbrev HasFailed : GatewayDatabase → Type 0
  HasFailed s' = (s'.before ≡ some s.table) ⊎ IsRecordedOrNot s'

  abbrev begun : GatewayDatabase
  begun = record s { before = some s.table }

  abbrev body : Prog GatewayDatabase OutboxRow
  body = do
    pure tt
    row ← insert_outbox_event env event
    commit_gateway_transaction env.commit
    pure row

  by_commit :
      (v : Reply (Unit {0})) (c : CommitReply)
      → env.save ≡ v
      → env.commit ≡ c
      → Ends IsRecorded (λ _ s'. HasFailed s') (body begun)
  unfolding insert_outbox_event commit_gateway_transaction
  by_commit (fails e) c ev ec = rw (Ends, ev) (inl refl)
  by_commit (gives u) commits ev ec = rw (Ends, ev, ec) (refl, (s.next_id, refl), refl)
  by_commit (gives u) (lost_before e) ev ec = rw (Ends, ev, ec) (inl refl)
  by_commit (gives u) (lost_after e) ev ec =
      rw (Ends, ev, ec)
        (inr (refl, inr (new_gateway_row env event s.next_id, (refl, (s.next_id, refl), refl))))

  undone :
      (r : Reply (Unit {0})) (s' : GatewayDatabase)
      → HasFailed s'
      → Ends
          (λ _ x. IsRecordedOrNot x)
          (λ _ x. IsRecordedOrNot x)
          (rollback_gateway_transaction r s')
  unfolding rollback_gateway_transaction
  undone (fails e) s' (inl o) = rw o (refl, inl refl)
  undone (gives u) s' (inl o) = rw o (refl, inl refl)
  undone (fails e) s' (inr h) = subst (λ b. IsRecordedOrNot (without_writes b s')) (sym h.0) h
  undone (gives u) s' (inr h) = subst (λ b. IsRecordedOrNot (without_writes b s')) (sym h.0) h

  prologue :
      {B : Type 0} (P : B → GatewayDatabase → Type 0) (Q : Thrown → GatewayDatabase → Type 0)
      (r r' : Reply (Unit {0})) (rest : Prog GatewayDatabase B)
      → ((e : Thrown) → Q e s)
      → Ends P Q (rest begun)
      → Ends P Q ((await r >> (start_gateway_transaction r' >> rest)) s)
  unfolding start_gateway_transaction
  prologue P Q (fails e) r' rest q h = q e
  prologue P Q (gives u) (fails e) rest q h = q e
  prologue P Q (gives u) (gives u') rest q h = h

  -- `record`: a returned row is the event's, and it is in the table; a throw leaves the table as it
  -- was or with that row; no transaction stays open. The connection starts without one.
  pub record_event-IsRecorded :
      IsIdle s → Ends IsRecorded (λ _ s'. IsRecordedOrNot s') (record_event env event s)
  unfolding record_event run_with_outbox_event
  record_event-IsRecorded idle =
      prologue _ _ env.connect env.start _ (λ e. (idle, inl refl))
        (finally-Ends _ _ (try_catch body undo) env.release begun
          (try_catch-Ends IsRecorded _ (λ _ x. HasFailed x) body undo begun
            (by_commit env.save env.commit refl refl)
            (λ e s' h.
              bind-Ends _ IsRecorded (λ _ x. IsRecordedOrNot x)
                (rollback_gateway_transaction env.rollback) (λ _. throw e) s'
                (undone env.rollback s' h) (λ _ s'' k. k)))
          (λ row e s' h. (h.0, inr (row, h))) (λ _ _ _ k. k))
    where
      undo : Thrown → Prog GatewayDatabase OutboxRow
      undo err = rollback_gateway_transaction env.rollback >> throw err

-- From the time of the request on, a relay may claim the row, and publishes it as a command.
abbrev pub IsDeliverable : ℕ → OutboxRow → Type 0
IsDeliverable now row =
    (resolve_outbox_route row.event_type ≡ command_route)
    × ((later : ℕ) → now ≤ later → is_claimable (λ _. false) later row ≡ true)

-- The answer names a row that has been added, which is deliverable and carries the event's id.
abbrev pub IsAccepted : SendEnv → String → GatewayState → GatewayState → Accepted → Type 0
IsAccepted env event_type s s' a =
    (row : OutboxRow) × (s'.database.table ≡ s.database.table ++ (row ∷ []))
    × (row.id ≡ a.outbox_id)
    × (row.event_id ≡ some a.event_id)
    × (row.event_type ≡ event_type)
    × IsDeliverable env.transaction.now row

abbrev pub IsAnswered : SendEnv → String → GatewayState → SendAnswer → GatewayState → Type 0
IsAnswered env event_type s (accepted a) s' = IsAccepted env event_type s s' a
IsAnswered env event_type s (bad_request ty id errors) s' = s'.database ≡ s.database

-- Nothing, or one row, has been added.
abbrev pub IsUncertain : GatewayState → GatewayState → Type 0
IsUncertain s s' =
    (s'.database.table ≡ s.database.table)
    ⊎ ((row : OutboxRow) × (s'.database.table ≡ s.database.table ++ (row ∷ [])))

module _ (env : SendEnv) (event_type correlation_id built_id : String)
    (version : Option SchemaVersion) (s : GatewayState)
    (command : resolve_outbox_route event_type ≡ command_route) where
  by_record :
      (event : Outgoing) (r : Run GatewayDatabase OutboxRow)
      → record_event env.transaction (outgoing_input event_type correlation_id event) s.database ≡ r
      → Ends
          (IsRecorded env.transaction (outgoing_input event_type correlation_id event) s.database)
          (λ _ d.
            IsRecordedOrNot env.transaction
              (outgoing_input event_type correlation_id event)
              s.database
              d)
          r
      → Ends
          (IsAnswered env event_type s)
          (λ _ s'. IsUncertain s s')
          (send_event env event_type version correlation_id built_id (valid event) s)
  unfolding send_event count_gateway publish_stage
  by_record event (returned row d) eq (idle, (id, same), added) =
      rw (Ends, eq)
        (
          row,
          added,
          refl,
          ap (λ (x : OutboxRow). x.event_id) same,
          ap (λ (x : OutboxRow). x.event_type) same,
          subst (IsDeliverable env.transaction.now) (sym same)
              (command, λ later le. rw (le→leb env.transaction.now later le) refl),
        )
  by_record event (threw e d) eq (idle, inl same) = rw (Ends, eq) (inl same)
  by_record event (threw e d) eq (idle, inr (row, h)) = rw (Ends, eq) (inr (row, h.2))

  send_event-IsAnswered :
      (v : ValidateEventResult Outgoing)
      → IsIdle s.database
      → Ends
          (IsAnswered env event_type s)
          (λ _ s'. IsUncertain s s')
          (send_event env event_type version correlation_id built_id v s)
  unfolding send_event count_gateway publish_stage
  send_event-IsAnswered (invalid errors) idle = refl
  send_event-IsAnswered (valid event) idle =
      by_record event
        (record_event env.transaction (outgoing_input event_type correlation_id event) s.database)
        refl
        (record_event-IsRecorded env.transaction (outgoing_input event_type correlation_id event)
          s.database idle)

send_built_v2-IsAnswered :
    (env : SendEnv) (correlation_id : String) (s : GatewayState) (built : Reply EventV2)
    → IsIdle s.database
    → Ends
        (IsAnswered env create_message_v2 s)
        (λ _ s'. IsUncertain s s')
        (send_built_v2 env correlation_id built s)
unfolding send_built_v2 resolve_outbox_route is_command_event_type
send_built_v2-IsAnswered env correlation_id s (fails e) idle = inl refl
send_built_v2-IsAnswered env correlation_id s (gives event) idle =
    send_event-IsAnswered env create_message_v2 correlation_id event.event_id (some v2) s refl
      (outgoing_v2 env (validate_event (env.safe_parse_v2 event))) idle

-- `sendTestMessage` and `sendTestMessageV2` answer 202 only when the outbox has a new row of the
-- request's event type, with the id and the event id of the answer, that the relay may claim from
-- that time on and that is routed to the command queue. A request that is refused as invalid changes
-- nothing in the database; any other failure has added nothing, or one row. The connection starts
-- without an open transaction.
pub send_test_message-IsAnswered :
    (env : SendEnv) (correlation_id : String) (s : GatewayState)
    → IsIdle s.database
    → Ends
        (IsAnswered env create_message_v1 s)
        (λ _ s'. IsUncertain s s')
        (send_test_message env correlation_id s)
      × Ends
          (IsAnswered env create_message_v2 s)
          (λ _ s'. IsUncertain s s')
          (send_test_message_v2 env correlation_id s)
unfolding send_test_message send_test_message_v2 resolve_outbox_route is_command_event_type
send_test_message-IsAnswered env correlation_id s idle = (
  send_event-IsAnswered env create_message_v1 correlation_id env.event_uuid none s refl _ idle,
  send_built_v2-IsAnswered env correlation_id s _ idle,
)
