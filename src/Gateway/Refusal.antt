-- ===== src/Gateway/Refusal.antt =====
-- `send_event` refuses what fails validation, and nothing else.
use contract_driven_messagin.Common.{
  ◌≡◌, refl, sym, ◌↔◌, ◌⊎◌, inl, inr, String, true, false, true-ne-false, none, List, Option, Bool,
  Run, returned, threw, none-ne-some,
}
use contract_driven_messagin.Contracts.Value.{Value}
use contract_driven_messagin.Contracts.SchemaVersion.{SchemaVersion}
use contract_driven_messagin.Contracts.Events.{
  Issue, Parsed, success, ValidationFailureDetail, failure, ValidateEventResult, valid, invalid,
}
use contract_driven_messagin.Contracts.Zod.{parsed_data}
use contract_driven_messagin.Contracts.Typed.{cast_data}
use contract_driven_messagin.Gateway.Send.{
  SendEnv, GatewayState, SendAnswer, accepted, bad_request, Outgoing, send_event, outgoing_input,
  count_gateway, publish_stage,
}
use contract_driven_messagin.Gateway.{GatewayDatabase, record_event}
use contract_driven_messagin.Outbox.{OutboxRow}

-- The request is answered by a `BadRequestException`, and the database is as it was.
abbrev pub IsRefused : GatewayState → Run GatewayState SendAnswer → Type 0
IsRefused s (returned (bad_request event_type id errors) s') = s'.database ≡ s.database
IsRefused s (returned (accepted a) s') = ⊥
IsRefused s (threw e s') = ⊥

pub cast_data-failure :
    {A : Type 0} (read : Value → Option A) (r : Parsed Value)
    → parsed_data r ≡ none
    → (issues : List Issue) × (cast_data read r ≡ failure issues)
unfolding cast_data
cast_data-failure read (failure issues) h = (issues, refl)
cast_data-failure read (success w) h = absurd (none-ne-some (sym h))

-- A validation whose outcome is `b`.
abbrev pub IsChecked : Bool → ValidateEventResult Outgoing → Type 0
IsChecked b v =
    ((event : Outgoing) × (v ≡ valid event) × (b ≡ true))
    ⊎ ((errors : List ValidationFailureDetail) × (v ≡ invalid errors) × (b ≡ false))

-- A failed validation is refused, and nothing else is.
module _ (env : SendEnv) (event_type correlation_id id : String) (version : Option SchemaVersion)
    (s : GatewayState) where
  by_record :
      (event : Outgoing) (r : Run GatewayDatabase OutboxRow)
      → record_event env.transaction (outgoing_input event_type correlation_id event) s.database ≡ r
      → IsRefused s (send_event env event_type version correlation_id id (valid event) s)
      → ⊥
  unfolding send_event count_gateway publish_stage
  by_record event (returned row d) e = rw (IsRefused, e) (λ h. h)
  by_record event (threw t d) e = rw (IsRefused, e) (λ h. h)

  pub send_event-IsRefused :
      (b : Bool) (v : ValidateEventResult Outgoing)
      → IsChecked b v
      → IsRefused s (send_event env event_type version correlation_id id v s) ↔ (b ≡ false)
  unfolding send_event count_gateway publish_stage
  send_event-IsRefused b v (inl (event, e, t)) =
      rw e ((λ h. absurd (by_record event _ refl h)), (λ f. absurd (true-ne-false t f)))
  send_event-IsRefused b v (inr (errors, e, f)) = rw e ((λ _. f), (λ _. refl))
