-- ===== src/Client/Answers.antt =====
-- internal/ipc/client/client_credential.go: the response to a credential request.
use mole_port.Base.{Option, String, [], none, some, true}
use mole_port.Core.Errors.{Result, err, ok}
use mole_port.Credentials.Pending.{CredentialResponseParams}
use mole_port.Handlers.Connections.{CredentialRequestNotification}

-- CredentialHandler; `none` in a result is the nil response
abbrev pub CredentialHandler : Type 0
CredentialHandler = CredentialRequestNotification → Result (Option CredentialResponseParams)

-- sendCredentialCancel: the parameters of its call
unfoldable pub cancel_response : String → CredentialResponseParams
cancel_response id = record { request_id = id; value = ""; answers = []; cancelled = true }

-- What the handler of the user returns
unfoldable pub handler_response :
    String → Result (Option CredentialResponseParams) → CredentialResponseParams
unfolding cancel_response
handler_response id (err e) = cancel_response id
handler_response id (ok none) = cancel_response id
handler_response id (ok (some resp)) = resp

-- handleCredentialRequest: the response that it sends, for the request that json.Unmarshal gives
unfoldable pub handle_credential_request :
    Option CredentialHandler
    → Option CredentialRequestNotification
    → Option CredentialResponseParams
unfolding handler_response cancel_response
handle_credential_request handler none = none
handle_credential_request none (some req) = some (cancel_response req.request_id)
handle_credential_request (some handler) (some req) =
    some (handler_response req.request_id (handler req))
