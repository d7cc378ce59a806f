-- ===== src/Relay/TickExamples.antt =====
-- Whole ticks of the relay on a small table.
use contract_driven_messagin.Common.{
  ◌≡◌, refl, inr, [], ◌∷◌, Thrown, primitive, returned, gives, final_state, All,
}
use contract_driven_messagin.AmqpClient.{disconnected, refuses, get_channel}
use contract_driven_messagin.AmqpClient.Stuck.{IsStuck}
use contract_driven_messagin.Relay.Rows.{claim_batch}
use contract_driven_messagin.Relay.{RelayState, run_relay_tick}
use contract_driven_messagin.Relay.Tick.{IsUnlocked, run_relay_tick_unlocks}
use contract_driven_messagin.Relay.Outage.{Tick, run_ticks, run_ticks-IsStuck}
use contract_driven_messagin.Relay.Settling.{Has}
use contract_driven_messagin.Relay.Sending.{IsWorking, IsSent, handed_after, run_relay_tick_sends}
use contract_driven_messagin.Relay.Samples.{
  two_rows, nothing_held, two_rows_unique, wire, all_well, both_rows,
}

run_relay_tick_unlocks_example :
    (s' : RelayState) × (run_relay_tick wire
        (gives tt)
        nothing_held
        "a"
        25
        50
        (λ _. all_well)
        both_rows
      ≡ returned tt s')
    × All (λ c. IsUnlocked c.id s'.table) (claim_batch nothing_held "a" 25 50 two_rows).0
run_relay_tick_unlocks_example =
    run_relay_tick_unlocks wire (λ _. all_well) (λ _. (refl, refl)) nothing_held "a" 25 50 both_rows
      two_rows_unique

abbrev refusal : Thrown
refusal = primitive "ECONNREFUSED"

abbrev after_refusal : RelayState
after_refusal = record both_rows {
  client = final_state (get_channel (refuses refusal) disconnected);
}

after_refusal-IsStuck : IsStuck refusal after_refusal.client
unfolding get_channel
after_refusal-IsStuck = record { no_channel = refl; remembered = refl; unheard = refl }

abbrev healthy_tick : Tick
healthy_tick = record {
  wire = wire;
  claim_query = gives tt;
  held = nothing_held;
  instance_id = "a";
  batch_size = 25;
  now = 50;
  env = λ _. all_well;
}

run_ticks-IsStuck_example :
    ((run_ticks after_refusal (healthy_tick ∷ healthy_tick ∷ [])).handed ≡ [])
    × IsStuck refusal (run_ticks after_refusal (healthy_tick ∷ healthy_tick ∷ [])).client
run_ticks-IsStuck_example =
    run_ticks-IsStuck refusal (healthy_tick ∷ healthy_tick ∷ []) after_refusal after_refusal-IsStuck

all_well-IsWorking : IsWorking all_well
all_well-IsWorking = record {
  connect = refl;
  published = refl;
  confirmed = refl;
  sent_query = refl;
}

run_relay_tick_sends_example :
    let claimed = claim_batch nothing_held "a" 25 50 two_rows in
    (s' : RelayState) × (run_relay_tick wire
        (gives tt)
        nothing_held
        "a"
        25
        50
        (λ _. all_well)
        both_rows
      ≡ returned tt s')
    × All (λ c. Has IsSent c.id s'.table) claimed.0
    × (s'.handed ≡ handed_after wire claimed.0 [])
run_relay_tick_sends_example =
    run_relay_tick_sends wire (λ _. all_well) (λ _. all_well-IsWorking) nothing_held "a" 25 50
      both_rows two_rows_unique (inr (refl, refl))
