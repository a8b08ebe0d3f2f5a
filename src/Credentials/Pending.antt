-- ===== src/Credentials/Pending.antt =====
-- internal/ipc/handler/handler_ssh.go: the table of credential requests. An entry is a channel with room for
-- one response; with the response stands the client that sent it, which the code does not look at.
use mole_port.Base.{
  Bool, List, Map, Option, String, delete, if◌then◌else◌, itoa, none, put, some, str_eq, ℕ, ◌+◌,
  ◌<>◌,
}
use mole_port.Core.Errors.{Result, credential_cancelled, credential_timeout, err, ok}
use mole_port.Protocol.Codes.{RpcError, internal_error, invalid_params}

-- CredentialResponseParams
pub record CredentialResponseParams : Type 0 where
  pub request_id : String
  pub value : String
  pub answers : List String
  pub cancelled : Bool

abbrev pub Channel : Type 0
Channel = Option (String × CredentialResponseParams)

-- The fields credPending and credNextID of Handler
pub record CredTable : Type 0 where
  pub cred_pending : Map Channel
  pub cred_next_id : ℕ

-- fmt.Sprintf("cr-%d", n)
unfoldable pub request_id : ℕ → String
unfolding itoa
request_id n = "cr-" <> itoa n

-- The callback up to its wait: the request is registered under the next name.
unfoldable pub register : CredTable → String × CredTable
unfolding request_id
register t =
    let id = request_id (t.cred_next_id + 1) in
    (id, record { cred_pending = put t.cred_pending id none; cred_next_id = t.cred_next_id + 1 })

-- The deferred function of the callback
unfoldable pub forget : String → CredTable → CredTable
forget id t = record t { cred_pending = delete t.cred_pending id }

-- core.CredentialResponse
pub record CredentialResponse : Type 0 where
  pub request_id : String
  pub value : String
  pub answers : List String

-- The branch of the callback's select that has a response
unfoldable pub received : CredentialResponseParams → Result CredentialResponse
received p =
    if p.cancelled
    then err credential_cancelled
    else ok (record { request_id = p.request_id; value = p.value; answers = p.answers })

-- The branch of the timer
abbrev pub timed_out : Result CredentialResponse
timed_out = err credential_timeout

-- The send in credentialResponse, which never waits, for what the table has for the request
unfoldable pub deliver :
    String → CredentialResponseParams → Option Channel → CredTable → Option RpcError × CredTable
deliver client p none t = (
  some (record {
    code = invalid_params;
    message = "no pending credential request for id: " <> p.request_id;
  }),
  t,
)
deliver client p (some (some q)) t = (
  some (record {
    code = internal_error;
    message = "credential response channel is full for id: " <> p.request_id;
  }),
  t,
)
deliver client p (some none) t =
    (none, record t { cred_pending = put t.cred_pending p.request_id (some (client, p)) })

-- credentialResponse, for parameters that were decoded
unfoldable pub credential_response :
    String → CredentialResponseParams → CredTable → Option RpcError × CredTable
unfolding deliver
credential_response client p t =
    if str_eq p.request_id ""
    then (some (record { code = invalid_params; message = "request_id is required" }), t)
    else deliver client p (t.cred_pending p.request_id) t
