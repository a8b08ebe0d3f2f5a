-- ===== src/Handlers/Connections.antt =====
-- internal/ipc/handler/handler_ssh.go: ssh.connect, ssh.disconnect and the callback that asks the client for
-- a credential.
use mole_port.Base.{Bool, List, Option, String, [], none, some, ◌∷◌}
use mole_port.Core.Errors.{Error, Result, err, ok, wrap}
use mole_port.Protocol.Codes.{internal_error, to_rpc_error}
use mole_port.Broker.Events.{Notification}
use mole_port.Config.Validation.{Checked, accepted, refused}
use mole_port.Credentials.Pending.{CredTable, forget, register}
use mole_port.Ssh.State.{SshManager}
use mole_port.Ssh.Lifecycle.{connect, disconnect}
use mole_port.Handlers.Params.{ForwardStatus, Raw, and_then, parse_params, validate_required}

-- core.PromptInfo and PromptData
pub record PromptData : Type 0 where
  pub prompt : String
  pub echo : Bool

-- core.CredentialRequest
pub record CredentialRequest : Type 0 where
  pub type : String
  pub host : String
  pub prompt : String
  pub prompts : List PromptData

-- CredentialRequestNotification
pub record CredentialRequestNotification : Type 0 where
  pub request_id : String
  pub type : String
  pub host : String
  pub prompt : String
  pub prompts : List PromptData

unfoldable pub request_notification : String → CredentialRequest → CredentialRequestNotification
request_notification id req = record {
  request_id = id;
  type = req.type;
  host = req.host;
  prompt = req.prompt;
  prompts = req.prompts;
}

-- Where the callback stands after its sends: it has returned, or it waits for the request
pub data Asked : Type 0 where
  asked_in_vain : Error → Asked
  waits_for : String → Asked

module _ (marshal : CredentialRequestNotification → Result String)
    (sender : Notification → Option Error) where
  -- SendNotification to the client, and what follows on its error
  abbrev pub sent_to : String → Option Error → CredTable → Asked × CredTable
  unfolding forget
  sent_to id (some e) t = (asked_in_vain (wrap "send credential request" e), forget id t)
  sent_to id none t = (waits_for id, t)

  unfoldable pub send_request : String → Result String → CredTable → Asked × CredTable
  unfolding forget
  send_request id (err e) t = (asked_in_vain (wrap "marshal credential request" e), forget id t)
  send_request id (ok params) t =
      sent_to id
        (sender (record { json_rpc = "2.0"; method = "credential.request"; params = params })) t

  -- The function that buildCredentialCallback returns, up to its wait
  unfoldable pub ask_credential : CredentialRequest → CredTable → Asked × CredTable
  unfolding register request_notification send_request
  ask_credential req t =
      let (id, t') = register t in send_request id (marshal (request_notification id req)) t'

module _ (quote : String → String) where
  -- What ConnectWithCallback returns
  unfoldable pub connected_as :
      String → Option Error × SshManager → Checked ForwardStatus × SshManager
  unfolding to_rpc_error
  connected_as host (some e, m) = (refused (to_rpc_error quote e internal_error), m)
  connected_as host (none, m) = (accepted (record { name = host; status = "connected" }), m)

  -- `interactive` tells whether there is a callback, `dial` what the dial returns.
  unfoldable pub connect_checked :
      Checked String → Bool → Option Error → SshManager → Checked ForwardStatus × SshManager
  unfolding connected_as connect
  connect_checked (refused e) interactive dial m = (refused e, m)
  connect_checked (accepted host) interactive dial m =
      connected_as host (connect quote host interactive dial m)

  -- The checks of sshConnect and sshDisconnect
  unfoldable pub named_host : Raw String → Checked String
  unfolding parse_params validate_required
  named_host raw =
      and_then (parse_params raw)
        (λ host. and_then (validate_required (("host", host) ∷ [])) (λ given. accepted host))

  -- sshConnect
  unfoldable pub ssh_connect :
      Raw String → Bool → Option Error → SshManager → Checked ForwardStatus × SshManager
  unfolding named_host connect_checked
  ssh_connect raw interactive dial m = connect_checked (named_host raw) interactive dial m

  unfoldable pub disconnect_checked :
      Checked String → SshManager → Checked ForwardStatus × SshManager
  unfolding disconnect
  disconnect_checked (refused e) m = (refused e, m)
  disconnect_checked (accepted host) m =
      (accepted (record { name = host; status = "disconnected" }), disconnect host m)

  -- sshDisconnect
  unfoldable pub ssh_disconnect : Raw String → SshManager → Checked ForwardStatus × SshManager
  unfolding named_host disconnect_checked
  ssh_disconnect raw m = disconnect_checked (named_host raw) m
