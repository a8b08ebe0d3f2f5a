-- ===== src/Client/Calls.antt =====
-- internal/ipc/client/client.go: IPCClient. The channel of a call is known by the call's number, as each
-- call makes its own; the counter is natural, as 2^63 calls are out of reach.
use mole_port.Base.{
  Bool, List, Option, String, [], false, if◌then◌else◌, length, ltb, negsuc, none, pos, some,
  str_eq, true, ℕ, ℤ, ◌++◌, ◌+◌, ◌==◌, ◌∷◌,
}
use mole_port.Core.Errors.{Error, Result, err, ok, other}
use mole_port.Protocol.Codes.{RpcError}
use mole_port.Broker.Events.{Notification}
use mole_port.Server.Messages.{RpcResponse}

-- The channel of a call, which has room for one response
pub record CallChannel : Type 0 where
  pub content : Option RpcResponse
  pub closed : Bool

abbrev pub fresh_channel : CallChannel
fresh_channel = record { content = none; closed = false }

-- `arriving` is what readLoop holds between the lock and `ch <- &resp`; `closing` tells whether Close waits
-- for the end of readLoop; `asked` has the credential requests that were handed to a goroutine.
pub record IpcClient : Type 0 where
  pub connected : Bool
  pub next_id : ℕ
  pub pending : ℕ → Bool
  pub channels : ℕ → CallChannel
  pub events : List Notification
  pub asked : List Notification
  pub arriving : Option (ℕ × RpcResponse)
  pub closing : Bool
  pub done : Bool

-- NewIPCClient and Connect
unfoldable pub connected_client : IpcClient
connected_client = record {
  connected = true;
  next_id = 0;
  pending = λ i. false;
  channels = λ i. fresh_channel;
  events = [];
  asked = [];
  arriving = none;
  closing = false;
  done = false;
}

-- eventChannelBufferSize
abbrev pub event_channel_buffer_size : ℕ
event_channel_buffer_size = 64

-- delete(c.pending, id)
abbrev pub drop_pending : ℕ → (ℕ → Bool) → ℕ → Bool
drop_pending id pending i = if id == i then false else pending i

abbrev pub set_channel : ℕ → CallChannel → (ℕ → CallChannel) → ℕ → CallChannel
set_channel id ch channels i = if id == i then ch else channels i

-- Call of a connected client up to the request that it writes
unfoldable pub register_call : IpcClient → IpcClient
register_call c =
    let id = c.next_id + 1 in
    record c {
      next_id = id;
      pending = λ i. if id == i then true else c.pending i;
      channels = set_channel id fresh_channel c.channels;
    }

-- Call up to there: the call's number, `none` where the client is not connected
unfoldable pub begin_call : IpcClient → Option ℕ × IpcClient
unfolding register_call
begin_call c = if c.connected then (some (c.next_id + 1), register_call c) else (none, c)

-- Call when its request cannot be written, and when its context ends before the response
unfoldable pub abandon_call : ℕ → IpcClient → IpcClient
abandon_call id c = record c { pending = drop_pending id c.pending }

-- What Call returns for its channel: `none` while it waits. The result is left to the caller to decode.
unfoldable pub call_result : (RpcError → Error) → CallChannel → Option (Result (Option String))
call_result as_error ch = elim ch.content [
  | some resp ↦ elim resp.error [ some e ↦ some (err (as_error e)) | none ↦ some (ok resp.result) ]
  | none ↦ if ch.closed then some (err (other "connection closed")) else none
]

-- A line that readLoop reads: empty or no JSON, with a field "id", or without
pub data Line : Type 0 where
  skipped : Line
  with_id : RpcResponse → Line
  without_id : Notification → Line

-- The response's number among the pending calls
abbrev pub pending_number : (ℕ → Bool) → Option ℤ → Option ℕ
pending_number pending none = none
pending_number pending (some (pos n)) = if pending n then some n else none
pending_number pending (some (negsuc n)) = none

unfoldable pub take_response : RpcResponse → Option ℕ → IpcClient → IpcClient
take_response resp none c = c
take_response resp (some n) c = record c {
  pending = drop_pending n c.pending;
  arriving = some (n, resp);
}

-- Events are dropped when nobody reads them; a credential request never is one of them.
unfoldable pub take_notification : Notification → IpcClient → IpcClient
take_notification n c =
    if str_eq n.method "credential.request"
    then record c { asked = c.asked ++ (n ∷ []) }
    else if ltb (length c.events) event_channel_buffer_size
    then record c { events = c.events ++ (n ∷ []) }
    else c

-- The body of readLoop's loop, up to the send on the channel of a call
unfoldable pub take_line : Line → IpcClient → IpcClient
unfolding take_response take_notification
take_line skipped c = c
take_line (with_id resp) c = take_response resp (pending_number c.pending resp.id) c
take_line (without_id n) c = take_notification n c

-- `ch <- &resp`
unfoldable pub hand_over : ℕ → RpcResponse → IpcClient → IpcClient
hand_over n resp c = record c {
  channels =
      set_channel n (record { content = some resp; closed = (c.channels n).closed }) c.channels;
  arriving = none;
}

-- The deferred function of readLoop
unfoldable pub end_reading : IpcClient → IpcClient
end_reading c = record c { connected = false; done = true }

-- Close up to its wait
unfoldable pub begin_close : IpcClient → IpcClient
begin_close c =
    let closing_client = record c { connected = false; closing = true } in
    if c.connected then closing_client else c

-- Close behind its wait: the channel of each pending call is closed.
unfoldable pub finish_close : IpcClient → IpcClient
finish_close c = record c {
  pending = λ i. false;
  channels = λ i. if c.pending i then record (c.channels i) { closed = true } else c.channels i;
  closing = false;
}
