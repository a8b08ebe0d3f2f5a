-- ===== src/Client/Examples.antt =====
-- A client with one call.
use mole_port.Base.{none, pos, refl, some, ◌≡◌}
use mole_port.Server.Messages.{RpcResponse}
use mole_port.Client.Calls.{
  IpcClient, begin_call, begin_close, connected_client, end_reading, fresh_channel, hand_over,
  register_call, take_line, take_response, with_id,
}
use mole_port.Client.Running.{Follows, at_once, calls, closes, later, reads}
use mole_port.Client.Matching.{arriving_is_safe}
use mole_port.Client.Lost.{IsLost, IsLost-forever}

abbrev calling : IpcClient
unfolding connected_client begin_call
calling = (begin_call connected_client).1

abbrev its_response : RpcResponse
its_response = record { json_rpc = "2.0"; id = some (pos 1); result = some "true"; error = none }

abbrev with_response : IpcClient
unfolding calling take_line connected_client begin_call
with_response = take_line (with_id its_response) calling

calling_follows : Follows connected_client calling
unfolding calling
calling_follows = later connected_client calling at_once calls

response_follows : Follows connected_client with_response
unfolding calling with_response connected_client begin_call
response_follows =
    later calling with_response calling_follows (reads (with_id its_response) refl refl)

arriving_is_safe_example :
    (with_response.channels 1 ≡ fresh_channel) × (its_response.id ≡ some (pos 1))
unfolding calling with_response connected_client begin_call take_line take_response register_call
arriving_is_safe_example = arriving_is_safe with_response 1 its_response response_follows refl

abbrev answered_call : IpcClient
unfolding hand_over with_response
answered_call = hand_over 1 its_response with_response

-- The server goes away, and Close is called.
abbrev lost_call : IpcClient
unfolding calling end_reading
lost_call = end_reading calling

IsLost-forever_example : (begin_close lost_call).channels 1 ≡ fresh_channel
unfolding IsLost lost_call calling connected_client begin_call end_reading register_call
IsLost-forever_example =
    IsLost-forever 1 lost_call (begin_close lost_call) (refl, refl, refl, refl, refl)
      (later lost_call (begin_close lost_call) at_once closes)
