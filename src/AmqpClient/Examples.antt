-- ===== src/AmqpClient/Examples.antt =====
-- A broker that is down at the first poll and up ever after.
use contract_driven_messagin.Common.{
  ◌≡◌, refl, List, [], ◌∷◌, Thrown, primitive, threw, final_state,
}
use contract_driven_messagin.AmqpClient.{disconnected, connects, refuses, get_channel}
use contract_driven_messagin.AmqpClient.Stuck.{
  ClientEvent, calls, errors, client_run, get_channel_after_refusal,
}

abbrev refused : Thrown
refused = primitive "ECONNREFUSED"

abbrev recovery : List ClientEvent
recovery = errors ∷ calls connects ∷ calls connects ∷ []

get_channel_after_refusal_example :
    let c' = client_run (final_state (get_channel (refuses refused) disconnected)) recovery in
    get_channel connects c' ≡ threw refused c'
get_channel_after_refusal_example =
    get_channel_after_refusal refused disconnected recovery connects refl refl refl
