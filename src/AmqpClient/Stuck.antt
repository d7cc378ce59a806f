-- ===== src/AmqpClient/Stuck.antt =====
-- What a history of calls and connection events can do to the channel.
use contract_driven_messagin.Common.{
  ◌≡◌, false, List, [], ◌∷◌, none, some, Thrown, threw, arith, final_state,
}
use contract_driven_messagin.AmqpClient.{
  rejected, AmqpClient, ConnectReply, refuses, get_channel, on_error, on_close,
}

pub data ClientEvent : Type 0 where
  calls : ConnectReply → ClientEvent
  errors closes : ClientEvent

unfoldable pub client_step : AmqpClient → ClientEvent → AmqpClient
client_step c (calls r) = final_state (get_channel r c)
client_step c errors = on_error c
client_step c closes = on_close c

unfoldable pub client_run : AmqpClient → List ClientEvent → AmqpClient
client_run c [] = c
client_run c (e ∷ es) = client_run (client_step c e) es

-- No channel, a rejected promise, and no connection left whose events would clear it.
pub record IsStuck (e : Thrown) (c : AmqpClient) : Type 0 where
  pub no_channel : c.channel ≡ false
  pub remembered : c.connecting ≡ some (rejected e)
  pub unheard : c.open_connections ≡ 0

client_step-IsStuck :
    (e : Thrown) (c : AmqpClient) (v : ClientEvent) → IsStuck e c → IsStuck e (client_step c v)
unfolding client_step get_channel on_error on_close
client_step-IsStuck e c (calls r) h = ground arith
client_step-IsStuck e c errors h = ground arith
client_step-IsStuck e c closes h = ground arith

client_run-IsStuck :
    (e : Thrown) (c : AmqpClient) (vs : List ClientEvent)
    → IsStuck e c
    → IsStuck e (client_run c vs)
unfolding client_run
client_run-IsStuck e c [] h = h
client_run-IsStuck e c (v ∷ vs) h =
    client_run-IsStuck e (client_step c v) vs (client_step-IsStuck e c v h)

pub get_channel_of_IsStuck :
    (e : Thrown) (c : AmqpClient) (r : ConnectReply) → IsStuck e c → get_channel r c ≡ threw e c
unfolding get_channel
get_channel_of_IsStuck e c r h = ground arith

-- An attempt to connect that the broker refuses, made while no connection is open, is the last one
-- ever made: after any further calls and events, with the broker answering again or not,
-- `getChannel` still fails with that first error.
pub get_channel_after_refusal :
    (e : Thrown) (c : AmqpClient) (vs : List ClientEvent) (r : ConnectReply)
    → c.channel ≡ false
    → c.connecting ≡ none
    → c.open_connections ≡ 0
    → let c' = client_run (final_state (get_channel (refuses e) c)) vs in
      get_channel r c' ≡ threw e c'
unfolding get_channel
get_channel_after_refusal e c vs r a b o =
    get_channel_of_IsStuck e _ r (client_run-IsStuck e _ vs (ground arith))
