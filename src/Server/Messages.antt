-- ===== src/Server/Messages.antt =====
-- internal/ipc/protocol/protocol.go: the messages of JSON-RPC, whose JSON stays text.
use mole_port.Base.{Option, String, none, some, ℤ}
use mole_port.Core.Errors.{Result, err, message, ok, wrap}
use mole_port.Protocol.Codes.{RpcError}
use mole_port.Broker.Events.{Notification}

-- JSONRPCVersion
abbrev pub json_rpc_version : String
json_rpc_version = "2.0"

-- Request
pub record RpcRequest : Type 0 where
  pub json_rpc : String
  pub id : Option ℤ
  pub method : String
  pub params : String

-- Response
pub record RpcResponse : Type 0 where
  pub json_rpc : String
  pub id : Option ℤ
  pub result : Option String
  pub error : Option RpcError

-- What the server writes
pub data Message : Type 0 where
  response : RpcResponse → Message
  notification : Notification → Message

-- NewErrorResponse
unfoldable pub new_error_response : Option ℤ → ℤ → String → RpcResponse
new_error_response id code message = record {
  json_rpc = json_rpc_version;
  id = id;
  result = none;
  error = some (record { code = code; message = message });
}

-- NewResponse, `marshal` being json.Marshal of the result
unfoldable pub new_response : Option ℤ → Result String → Result RpcResponse
new_response id (err e) = err (wrap "marshal result" e)
new_response id (ok data_) =
    ok (record { json_rpc = json_rpc_version; id = id; result = some data_; error = none })
